-- ===== src/Osio/Remote/Wired.antt =====
-- The locators that `NewOSIOAuth` makes, and the handler over them.
use fabric8_oso_proxy.Base.{Option, none, some, [], ◌++◌, ◌≡◌, ◌≢◌, refl, inl, inr, Bool-cases}
use fabric8_oso_proxy.Base.Run.{
  Run, done, fail, panic, Outcome, ok, err, crash, Ends, with_value, with_error, after-Ends,
}
use fabric8_oso_proxy.Base.Strings.{Str, codes, equal}
use fabric8_oso_proxy.Cluster.Client.{TokenResponse}
use fabric8_oso_proxy.Net.Web.{Web}
use fabric8_oso_proxy.Osio.Remote.Jwt.{Keys}
use fabric8_oso_proxy.Osio.Remote.Responsive.{
  Responds, ended-Ends, fetch-Ends, IsToken, get_token-IsToken,
}
use fabric8_oso_proxy.Osio.Remote.Secret
use fabric8_oso_proxy.Osio.Remote.Tenant
use fabric8_oso_proxy.Osio.Remote.Token
use fabric8_oso_proxy.Osio.Remote.Token.{Decrypt, SrvAcc, prompt}
use fabric8_oso_proxy.Osio.Remote.Wiring
use fabric8_oso_proxy.Osio.Remote.Wiring.{
  Services, Codecs, Config, with_world, with_account, new_osio_auth,
}
use fabric8_oso_proxy.Osio.Resolve.Ends.{NeverPanics}
use fabric8_oso_proxy.Osio.Handler.{Action, serve_http}
use fabric8_oso_proxy.Osio.Handler.Total.{serve_http-total}
use fabric8_oso_proxy.Osio.Resolve.{Auth}
use fabric8_oso_proxy.Osio.Resolve.Isolation.{Valid}
use fabric8_oso_proxy.Net.Request.{Request}
use fabric8_oso_proxy.Osio.Remote.Safe.{
  AreSafe, namespace_of-ne-crash, name_of-ne-crash, secret_of-ne-crash, prompt-ne-crash,
  token_type-Ends,
}

module _ {K W : Type 0} (c : Codecs K) (safe : AreSafe c) (web : Web W)
    (responds : Responds web) where
  with_world-Ends : {A : Type 0} (s : Services K W) (r : Run W A) → Ends r → Ends (with_world s r)
  with_world-Ends s r (with_value a w) = with_value a _
  with_world-Ends s r (with_error e w) = with_error e _

  with_account-Ends :
      {A : Type 0} (s : Services K W) (r : Run (SrvAcc W) A) → Ends r → Ends (with_account s r)
  with_account-Ends s r (with_value a w) = with_value a _
  with_account-Ends s r (with_error e w) = with_error e _

  wired_keys-Ends :
      {A : Type 0} (s : Services K W) (r : Run (Keys K W) A) → Ends r → Ends (Wiring.with_keys s r)
  wired_keys-Ends s r (with_value a w) = with_value a _
  wired_keys-Ends s r (with_error e w) = with_error e _

  keep_token-Ends :
      (old : Str) (r : Run W (Option TokenResponse)) → IsToken r → Ends (Token.keep_token old r)
  keep_token-Ends old (done (some t) w) h = with_value _ _
  keep_token-Ends old (done none w) h = elim h [ ]
  keep_token-Ends old (fail e w) h = with_error e _
  keep_token-Ends old (panic w) h = elim h [ ]

  srv_acc_token-Ends :
      (auth_url id secret : Str) (s : SrvAcc W)
      → Ends (Token.srv_acc_token c.json web auth_url id secret s)
  unfolding Token.srv_acc_token
  srv_acc_token-Ends auth_url id secret s = elim (Bool-cases (equal s.sa_token [])) [
    | inl fresh ↦ rw fresh (
        keep_token-Ends s.sa_token _ (
          get_token-IsToken c.json web responds (auth_url ++ codes "/token")
            (Token.token_request c.json web auth_url id secret) s.world (safe.encode _)
            safe.decode_response safe.never_nil))
    | inr held ↦ rw held (with_value _ _)
  ]

  decrypt-ne-crash :
      (message passphrase : Str)
      → Token.gpg_decrypt_token c.base64 c.decrypt message passphrase ≢ crash
  unfolding Token.gpg_decrypt_token
  decrypt-ne-crash message passphrase = decoded_with (c.base64 message) (safe.base64 message)
    where
      decoded_with :
          (o : Outcome Str) → o ≢ crash → Token.decrypt_with c.decrypt passphrase o ≢ crash
      decoded_with (ok t) h = safe.decrypt t (prompt passphrase) (prompt-ne-crash passphrase)
      decoded_with (err e) h = λ p. cc
      decoded_with crash h = absurd (h refl)

  locate_token-Ends :
      (auth_url token location : Str) (w : W)
      → Ends (Token.locate_token web c.decode_token auth_url token location w)
  unfolding Token.locate_token
  locate_token-Ends auth_url token location w =
      fetch-Ends web responds _ token c.decode_token w safe.decode_token

  pub new_osio_auth-NeverPanics : (f : Config) → NeverPanics (new_osio_auth c web f)
  unfolding new_osio_auth Token.get_token_with_user_token Token.get_token_with_sa_token
      Tenant.get_tenant Tenant.get_tenant_by_id Tenant.locate_tenant Secret.get_name
      Secret.get_secret
  new_osio_auth-NeverPanics f = record {
    get_tenant = λ t k s. with_world-Ends s _ (
        fetch-Ends web responds _ t _ s.world
          (λ b. namespace_of-ne-crash k (c.decode_tenant b) (safe.decode_tenant b)));
    get_tenant_by_id = λ t k u s. with_world-Ends s _ (
        fetch-Ends web responds _ t _ s.world
          (λ b. namespace_of-ne-crash k (c.decode_tenant b) (safe.decode_tenant b)));
    get_token_with_user_token =
        λ t u s. with_world-Ends s _ (locate_token-Ends f.auth_url t u s.world);
    get_token_with_sa_token = λ t u s. with_world-Ends s _ (
        after-Ends _ (locate_token-Ends f.auth_url t u s.world)
          (λ e w. ended-Ends _ w (decrypt-ne-crash e f.auth_token_key)));
    srv_acc_token =
        λ s. with_account-Ends s _ (srv_acc_token-Ends f.auth_url f.srv_acc_id f.srv_acc_secret _);
    get_name = λ u t n k s. with_world-Ends s _ (
        fetch-Ends web responds _ t _ s.world
          (λ b. name_of-ne-crash (c.decode_names b) (safe.decode_names b)));
    get_secret = λ u t n k s. with_world-Ends s _ (
        fetch-Ends web responds _ t _ s.world
          (λ b. secret_of-ne-crash c.base64 (c.decode_data b) safe.base64 (safe.decode_data b)));
    token_type = λ t s. wired_keys-Ends s _ (token_type-Ends c safe web responds f.auth_url t _);
  }

  -- If every exchange with a service brings a response, the libraries return from every call,
  -- and the auth service's token is not the document `null`, then the handler over the locators
  -- that `NewOSIOAuth` makes answers every request on a valid cache: it neither panics nor
  -- returns an error.
  pub serve_http-new_osio_auth :
      (f : Config) (digest : Str → Str) (r : Request) (a : Auth (Services K W))
      → Valid digest (new_osio_auth c web f) a.cache
      → (act : Action) × (a' : Auth (Services K W)) × (serve_http digest
            (some (new_osio_auth c web f))
            r
            a
          ≡ done act a')
  serve_http-new_osio_auth f digest r a h =
      serve_http-total (new_osio_auth c web f) (new_osio_auth-NeverPanics f) digest r a h
