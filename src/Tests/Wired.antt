-- ===== src/Tests/Wired.antt =====
-- The handler over the wired locators of middlewares/osio, on services that answer.
use fabric8_oso_proxy.Base.{none, some, [], ◌∷◌, ◌≡◌, ◌≢◌, refl}
use fabric8_oso_proxy.Base.Run.{done, Outcome, ok, err, crash}
use fabric8_oso_proxy.Base.Strings.{Str, codes}
use fabric8_oso_proxy.Osio.Cache.{empty}
use fabric8_oso_proxy.Osio.Cache.Invariant.{empty-IsValid}
use fabric8_oso_proxy.Osio.Handler.{Action, serve_http}
use fabric8_oso_proxy.Osio.Remote.Jwt
use fabric8_oso_proxy.Osio.Remote.Jwt.{Claims}
use fabric8_oso_proxy.Osio.Remote.Responsive.{Responds}
use fabric8_oso_proxy.Osio.Remote.Safe.{AreSafe}
use fabric8_oso_proxy.Osio.Remote.Wired.{serve_http-new_osio_auth}
use fabric8_oso_proxy.Osio.Remote.Wiring.{Services, Codecs, Config, new_osio_auth}
use fabric8_oso_proxy.Osio.Resolve.{Auth}
use fabric8_oso_proxy.Osio.Resolve.Isolation.{IsKeyed, Answers}
use fabric8_oso_proxy.Tests.Fixtures.{alice, digest, request}
use fabric8_oso_proxy.Tests.Remote.{answering, json, library}

abbrev codecs : Codecs Str
codecs = record {
  json = json;
  decode_tenant = λ b. ok (alice ∷ []);
  decode_token = λ b. ok (codes "os");
  decode_names = λ b. ok (codes "che-token-1" ∷ []);
  decode_data = λ b. ok (codes "c2VjcmV0");
  base64 = λ b. ok (codes "secret");
  decrypt = λ t f. f 0;
  jwt = library;
}

mapped-ne-crash : (f : Str → Claims) (o : Outcome Str) → o ≢ crash → Jwt.fmap f o ≢ crash
mapped-ne-crash f (ok a) h p = cc
mapped-ne-crash f (err e) h p = cc
mapped-ne-crash f crash h p = h refl

codecs-AreSafe : AreSafe codecs
codecs-AreSafe = record {
  encode = λ r p. cc;
  decode_response = λ b p. cc;
  never_nil = λ b p. cc;
  decode_tenant = λ b p. cc;
  decode_token = λ b p. cc;
  decode_names = λ b p. cc;
  decode_data = λ b p. cc;
  base64 = λ b p. cc;
  decrypt = λ t f h. h 0;
  unmarshal_keys = λ b p. cc;
  marshal = λ r p. cc;
  unmarshal_jwk = λ b p. cc;
  parse = λ t f h. mapped-ne-crash _ (f (some t)) (h (some t));
}

answering-Responds : Responds answering
answering-Responds r w p = cc

abbrev config : Config
config = record {
  auth_token_key = codes "key";
  tenant_url = codes "http://tenant";
  auth_url = codes "http://auth";
  srv_acc_id = codes "id";
  srv_acc_secret = codes "secret";
}

abbrev fresh : Auth (Services Str (Unit {0}))
fresh = record {
  cache = empty;
  services = record { sa_token = []; public_keys = none; world = tt };
}

serve_http-new_osio_auth_example :
    (act : Action) × (a' : Auth (Services Str (Unit {0}))) × (serve_http digest
        (some (new_osio_auth codecs answering config))
        (request (codes "k1") (codes "/api/api/v1/pods"))
        fresh
      ≡ done act a')
serve_http-new_osio_auth_example =
    serve_http-new_osio_auth codecs codecs-AreSafe answering answering-Responds config digest
      (request (codes "k1") (codes "/api/api/v1/pods")) fresh
      (empty-IsValid (IsKeyed digest (new_osio_auth codecs answering config))
        (Answers digest (new_osio_auth codecs answering config)))
