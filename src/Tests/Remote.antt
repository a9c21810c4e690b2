-- ===== src/Tests/Remote.antt =====
-- The theorems on the remote services of middlewares/osio, at concrete replies.
use fabric8_oso_proxy.Base.{Option, none, some, [], ◌∷◌, ◌≡◌, ◌≢◌, ◌↔◌, refl}
use fabric8_oso_proxy.Base.Run.{external, done, fail, panic, Outcome, ok, err, crash}
use fabric8_oso_proxy.Base.Strings.{Str, codes, equal, ne_of_equal}
use fabric8_oso_proxy.Base.Maps.{lookup, insert}
use fabric8_oso_proxy.Cluster.Client
use fabric8_oso_proxy.Cluster.Client.{Json, TokenRequest, TokenResponse}
use fabric8_oso_proxy.Net.Web.{Web, bearer_request, fetch, exchange}
use fabric8_oso_proxy.Osio.Remote.Jwt
use fabric8_oso_proxy.Osio.Remote.Jwt.{
  Claim, text, Claims, Library, Keys, type_of_claims, key_func, fetch_keys, add_keys, token_type,
}
use fabric8_oso_proxy.Osio.Remote.Jwt.Laws.{IsAccepted, token_type-IsAccepted}
use fabric8_oso_proxy.Osio.Remote.Panics.{fetch-eq-panic_iff}
use fabric8_oso_proxy.Osio.Remote.Token.{SrvAcc, srv_acc_token}
use fabric8_oso_proxy.Osio.Types.{user_token}

-- A service that answers every request with one body, and one that never answers.
abbrev pub answering : Web (Unit {0})
answering = record {
  new_request = λ u. none;
  send = λ r w. (
    record {
      response =
          some (record { status_code = 200; status = codes "200 OK"; body = ok (codes "{}") });
      error = none;
    },
    w,
  );
}

abbrev down : Web (Unit {0})
down = record {
  new_request = λ u. none;
  send = λ r w. (record { response = none; error = some (external (codes "refused")) }, w);
}

abbrev pub json : Json
json = record {
  encode_token_request = λ r. ok r.client_id;
  decode_token_response =
      λ b. ok (some (record { access_token = codes "sa"; token_type = codes "bearer" }));
  decode_clusters = λ b. ok none;
}

abbrev fresh : SrvAcc (Unit {0})
fresh = record { sa_token = []; world = tt }

abbrev holding : SrvAcc (Unit {0})
holding = record { sa_token = codes "sa"; world = tt }

sa_ne : codes "sa" ≢ []
unfolding equal
sa_ne = ne_of_equal (codes "sa") [] refl

sa_run : srv_acc_token json answering [] [] [] fresh ≡ done (codes "sa") holding
unfolding srv_acc_token Client.get_token exchange equal
sa_run = refl

sa_failed : srv_acc_token json down [] [] [] fresh ≡ fail (external (codes "refused")) fresh
unfolding srv_acc_token Client.get_token exchange equal
sa_failed = refl

fetch-eq-panic_iff_example :
    (fetch down (codes "http://tenant") (codes "t") (λ b. ok b) tt ≡ panic tt) ↔ (
      (down.new_request (codes "http://tenant") ≡ none)
      × ((down.send (bearer_request (codes "http://tenant") (codes "t")) tt).0.response ≡ none)
      × ((down.send (bearer_request (codes "http://tenant") (codes "t")) tt).1 ≡ tt))
fetch-eq-panic_iff_example =
    fetch-eq-panic_iff down (codes "http://tenant") (codes "t") (λ b. ok b) tt tt (λ b e. cc) tt

-- A signer whose token is signed when it is the name of the key.
abbrev pub library : Library Str
library = record {
  Raw = Str;
  unmarshal_keys = λ b. ok (codes "k1" ∷ []);
  marshal = λ r. ok r;
  unmarshal_jwk = λ j. ok (j, some j);
  parse = λ token f. Jwt.fmap (λ k. (codes "sub", text k) ∷ []) (f (some token));
}

abbrev Signed : Str → Str → Claims → Type 0
Signed token k c = c ≡ (codes "sub", text k) ∷ []

parse_verified :
    (token : Str) (f : Option Str → Outcome Str) (o : Outcome Str) (c : Claims)
    → f (some token) ≡ o
    → Jwt.fmap (λ k. (codes "sub", text k) ∷ []) o ≡ ok c
    → (kid : Option Str) × (k : Str) × (f kid ≡ ok k) × Signed token k c
parse_verified token f (ok k) c e h = (some token, k, e, cc)
parse_verified token f (err x) c e h = cc
parse_verified token f crash c e h = cc

library_verified :
    (token : Str) (f : Option Str → Outcome Str) (c : Claims)
    → library.parse token f ≡ ok c
    → (kid : Option Str) × (k : Str) × (f kid ≡ ok k) × Signed token k c
library_verified token f c h = parse_verified token f (f (some token)) c refl h

abbrev no_keys : Keys Str (Unit {0})
no_keys = record { public_keys = none; world = tt }

abbrev with_keys : Keys Str (Unit {0})
with_keys = record { public_keys = some ((codes "k1", codes "k1") ∷ []); world = tt }

type_run : token_type library answering [] (codes "k1") no_keys ≡ done user_token with_keys
unfolding token_type fetch_keys Jwt.unmarshal_keys Jwt.unmarshal_key add_keys insert key_func lookup
    equal type_of_claims
type_run = refl

token_type-IsAccepted_example :
    IsAccepted library answering [] Signed (codes "k1") user_token no_keys with_keys
token_type-IsAccepted_example =
    token_type-IsAccepted library answering [] Signed library_verified (codes "k1") user_token
      no_keys with_keys type_run
