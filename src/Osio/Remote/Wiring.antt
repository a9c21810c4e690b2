-- ===== src/Osio/Remote/Wiring.antt =====
-- middlewares/osio/osio.go: `NewOSIOAuth` joins the locators to the services, and
-- `NewPreConfiguredOSIOAuth` reads its arguments from the environment.
use fabric8_oso_proxy.Base.{Option, List, [], ◌∷◌}
use fabric8_oso_proxy.Base.Strings.{Str, codes}
use fabric8_oso_proxy.Base.Run.{Run, done, fail, panic, M, Outcome}
use fabric8_oso_proxy.Cluster.Client.{Json}
use fabric8_oso_proxy.Net.Web.{Web}
use fabric8_oso_proxy.Osio.Remote.Jwt
use fabric8_oso_proxy.Osio.Remote.Jwt.{Library, Keys}
use fabric8_oso_proxy.Osio.Remote.Secret
use fabric8_oso_proxy.Osio.Remote.Tenant
use fabric8_oso_proxy.Osio.Remote.Token
use fabric8_oso_proxy.Osio.Remote.Token.{Decrypt, SrvAcc}
use fabric8_oso_proxy.Osio.Types.{Namespace, Locators}

-- The variables that the closures keep, and the services.
pub record Services (K W : Type 0) : Type 0 where
  pub sa_token : Str
  pub public_keys : Option (List (Str × K))
  pub world : W

-- The libraries that the locators call.
pub record Codecs (K : Type 0) : Type 1 where
  pub json : Json
  pub decode_tenant : Str → Outcome (List Namespace)
  pub decode_token : Str → Outcome Str
  pub decode_names : Str → Outcome (List Str)
  pub decode_data : Str → Outcome Str
  pub base64 : Str → Outcome Str
  pub decrypt : Decrypt
  pub jwt : Library K

module _ {K W : Type 0} where
  abbrev pub with_world : {A : Type 0} → Services K W → Run W A → Run (Services K W) A
  with_world s (done a w) = done a (record s { world = w })
  with_world s (fail e w) = fail e (record s { world = w })
  with_world s (panic w) = panic (record s { world = w })

  abbrev pub on_world : {A : Type 0} → M W A → M (Services K W) A
  on_world m s = with_world s (m s.world)

  abbrev pub with_account : {A : Type 0} → Services K W → Run (SrvAcc W) A → Run (Services K W) A
  with_account s (done a t) = done a (record s { sa_token = t.sa_token; world = t.world })
  with_account s (fail e t) = fail e (record s { sa_token = t.sa_token; world = t.world })
  with_account s (panic t) = panic (record s { sa_token = t.sa_token; world = t.world })

  abbrev pub with_keys : {A : Type 0} → Services K W → Run (Keys K W) A → Run (Services K W) A
  with_keys s (done a t) = done a (record s { public_keys = t.public_keys; world = t.world })
  with_keys s (fail e t) = fail e (record s { public_keys = t.public_keys; world = t.world })
  with_keys s (panic t) = panic (record s { public_keys = t.public_keys; world = t.world })

-- The arguments of `NewOSIOAuth`, and the passphrase that a locator reads from the environment.
pub record Config : Type 0 where
  pub auth_token_key : Str
  pub tenant_url : Str
  pub auth_url : Str
  pub srv_acc_id : Str
  pub srv_acc_secret : Str

unfoldable pub new_osio_auth : {K W : Type 0} → Codecs K → Web W → Config → Locators (Services K W)
new_osio_auth c web f = record {
  get_tenant = λ token tt. on_world (Tenant.get_tenant web c.decode_tenant f.tenant_url token tt);
  get_tenant_by_id = λ token tt user_id.
      on_world (Tenant.get_tenant_by_id web c.decode_tenant f.tenant_url token tt user_id);
  get_token_with_user_token = λ token location.
      on_world (Token.get_token_with_user_token web c.decode_token f.auth_url token location);
  get_token_with_sa_token = λ token location. on_world (
      Token.get_token_with_sa_token web c.decode_token f.auth_url c.base64 c.decrypt
        f.auth_token_key token location);
  srv_acc_token = λ s. with_account s (
      Token.srv_acc_token c.json web f.auth_url f.srv_acc_id f.srv_acc_secret
        (record { sa_token = s.sa_token; world = s.world }));
  get_name = λ url token ns kind.
      on_world (Secret.get_name web c.decode_names c.decode_data c.base64 url token ns kind);
  get_secret = λ url token ns name.
      on_world (Secret.get_secret web c.decode_names c.decode_data c.base64 url token ns name);
  token_type = λ token s. with_keys s (
      Jwt.token_type c.jwt web f.auth_url token
        (record { public_keys = s.public_keys; world = s.world }));
}

-- `os.Getenv`: a variable that is not set is empty.
abbrev pub Env : Type 0
Env = Str → Str

-- The panics name the first variable that is missing.
pub data Configured : Type 0 where
  configured : Config → Configured
  missing : Str → Configured

abbrev required : Str → Str → Configured → Configured
required name [] next = missing name
required name (c ∷ v) next = next

unfoldable pub new_pre_configured_osio_auth : Env → Configured
new_pre_configured_osio_auth env =
    let all = configured (record {
      auth_token_key = env (codes "AUTH_TOKEN_KEY");
      tenant_url = env (codes "TENANT_URL");
      auth_url = env (codes "AUTH_URL");
      srv_acc_id = env (codes "SERVICE_ACCOUNT_ID");
      srv_acc_secret = env (codes "SERVICE_ACCOUNT_SECRET");
    }) in
    required (codes "AUTH_TOKEN_KEY") (env (codes "AUTH_TOKEN_KEY")) (
      required (codes "TENANT_URL") (env (codes "TENANT_URL")) (
        required (codes "AUTH_URL") (env (codes "AUTH_URL")) (
          required (codes "SERVICE_ACCOUNT_ID") (env (codes "SERVICE_ACCOUNT_ID")) (
            required (codes "SERVICE_ACCOUNT_SECRET") (env (codes "SERVICE_ACCOUNT_SECRET")) all))))
