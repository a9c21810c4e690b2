-- ===== src/Osio/Remote/Token.antt =====
-- middlewares/osio/token.go: the tokens of the auth service.
use fabric8_oso_proxy.Base.{
  ℕ, zero, suc, not, Option, none, some, [], ◌++◌, ◌≡◌, ◌≢◌, sym, ap, ◌∙◌, inl, inr, if◌then◌else◌,
  Bool-cases,
}
use mathlib.Core.Path.{ap₂}
use fabric8_oso_proxy.Base.Strings.{Str, codes, equal, equal_ne, equal_iff}
use fabric8_oso_proxy.Base.Run.{
  Error, external, Run, done, fail, panic, M, ◌>>=◌, Outcome, ok, err, crash,
}
use fabric8_oso_proxy.Cluster.Client.{Json, TokenRequest, TokenResponse}
use fabric8_oso_proxy.Cluster.Client
use fabric8_oso_proxy.Net.Web.{Web, fetch, ended}

-- `openpgp.ReadMessage` with `ioutil.ReadAll` of its body: the cipher text and the prompt, which
-- answers its first call and refuses the later ones.
abbrev pub Decrypt : Type 0
Decrypt = Str → (ℕ → Outcome Str) → Outcome Str

abbrev pub prompt : Str → ℕ → Outcome Str
prompt passphrase zero = ok passphrase
prompt passphrase (suc n) = err (external (codes "unable to decrypt token with given key"))

abbrev pub decrypt_with : Decrypt → Str → Outcome Str → Outcome Str
decrypt_with decrypt passphrase (ok text) = decrypt text (prompt passphrase)
decrypt_with decrypt passphrase (err e) = err e
decrypt_with decrypt passphrase crash = crash

unfoldable pub gpg_decrypt_token : (Str → Outcome Str) → Decrypt → Str → Str → Outcome Str
gpg_decrypt_token base64 decrypt base64_body passphrase =
    decrypt_with decrypt passphrase (base64 base64_body)

-- `decode` is the JSON decoder of the access token in the response.
module _ {W : Type 0} (web : Web W) (decode : Str → Outcome Str) (auth_url : Str) where
  unfoldable pub locate_token : Str → Str → M W Str
  locate_token token location =
      fetch web (auth_url ++ (codes "/token?for=" ++ location)) token decode

  unfoldable pub get_token_with_user_token : Str → Str → M W Str
  get_token_with_user_token user_token location = locate_token user_token location

  -- `passphrase` is the value of AUTH_TOKEN_KEY.
  unfoldable pub get_token_with_sa_token : (Str → Outcome Str) → Decrypt → Str → Str → Str → M W Str
  get_token_with_sa_token base64 decrypt passphrase sa_token location = do
    encrypted ← locate_token sa_token location
    ended (gpg_decrypt_token base64 decrypt encrypted passphrase)

-- The variable of the closure `CreateSrvAccTokenLocator`, and the services that it calls.
pub record SrvAcc (W : Type 0) : Type 0 where
  pub sa_token : Str
  pub world : W

module _ {W : Type 0} where
  -- `saToken = res.AccessToken`; a nil response panics.
  abbrev pub keep_token : Str → Run W (Option TokenResponse) → Run (SrvAcc W) Str
  keep_token old (done (some t) w) =
      done t.access_token (record { sa_token = t.access_token; world = w })
  keep_token old (done none w) = panic (record { sa_token = old; world = w })
  keep_token old (fail e w) = fail e (record { sa_token = old; world = w })
  keep_token old (panic w) = panic (record { sa_token = old; world = w })

  keep_token-eq-done :
      (old : Str) (r : Run W (Option TokenResponse)) (t : Str) (s : SrvAcc W)
      → keep_token old r ≡ done t s
      → s.sa_token ≡ t
  keep_token-eq-done old (done (some x) w) t s h =
      let state : record { sa_token = x.access_token; world = w } ≡ s = cc h in
      let value : x.access_token ≡ t = cc h in ap (λ (z : SrvAcc W). z.sa_token) (sym state) ∙ value
  keep_token-eq-done old (done none w) t s h = cc
  keep_token-eq-done old (fail e w) t s h = cc
  keep_token-eq-done old (panic w) t s h = cc

  keep_token-eq-fail :
      (old : Str) (r : Run W (Option TokenResponse)) (e : Error) (s : SrvAcc W)
      → keep_token old r ≡ fail e s
      → (s.sa_token ≡ old) × (r ≡ fail e s.world)
  keep_token-eq-fail old (done (some x) w) e s h = cc
  keep_token-eq-fail old (done none w) e s h = cc
  keep_token-eq-fail old (fail x w) e s h =
      let state : record { sa_token = old; world = w } ≡ s = cc h in
      let error : x ≡ e = cc h in
      (
        ap (λ (z : SrvAcc W). z.sa_token) (sym state),
        ap₂ fail error (ap (λ (z : SrvAcc W). z.world) state),
      )
  keep_token-eq-fail old (panic w) e s h = cc

module _ {W : Type 0} (json : Json) (web : Web W) (auth_url srv_acc_id srv_acc_secret : Str) where
  abbrev pub token_request : TokenRequest
  token_request = record {
    grant_type = codes "client_credentials";
    client_id = srv_acc_id;
    client_secret = srv_acc_secret;
  }

  unfoldable pub srv_acc_token : M (SrvAcc W) Str
  srv_acc_token s =
      if not (equal s.sa_token [])
      then done s.sa_token s
      else keep_token s.sa_token
          (Client.get_token json web (auth_url ++ codes "/token") token_request s.world)

  held_after : (s s' : SrvAcc W) (t : Str) → srv_acc_token s ≡ done t s' → s'.sa_token ≡ t
  unfolding srv_acc_token
  held_after s s' t ran = elim (Bool-cases (equal s.sa_token [])) [
    | inl missing ↦ keep_token-eq-done s.sa_token _ t s' (rw missing at ran)
    | inr present ↦
        let k = rw present at ran in
        let state : s ≡ s' = cc k in
        let value : s.sa_token ≡ t = cc k in ap (λ (z : SrvAcc W). z.sa_token) (sym state) ∙ value
  ]

  -- If a call of the service account's locator returns a token that is not empty, the next call
  -- on the state that it leaves returns the same token and leaves that state as it is, so that
  -- nothing is requested.
  pub srv_acc_token-kept :
      (s s' : SrvAcc W) (t : Str)
      → t ≢ []
      → srv_acc_token s ≡ done t s'
      → srv_acc_token s' ≡ done t s'
  unfolding srv_acc_token
  srv_acc_token-kept s s' t h ran =
      let held = held_after s s' t ran in
      rw (ap (λ x. equal x []) held ∙ equal_ne t [] h) (ap (λ x. done x s') held)

  -- If a call of the service account's locator fails, then it has asked the auth service, which
  -- failed with the same error, and it keeps no token.
  pub srv_acc_token-retried :
      (s s' : SrvAcc W) (e : Error)
      → srv_acc_token s ≡ fail e s'
      → (s'.sa_token ≡ [])
        × (Client.get_token json web (auth_url ++ codes "/token") token_request s.world
            ≡ fail e s'.world)
  unfolding srv_acc_token
  srv_acc_token-retried s s' e ran = elim (Bool-cases (equal s.sa_token [])) [
    | inl missing ↦
        let (same, failed) = keep_token-eq-fail s.sa_token _ e s' (rw missing at ran) in
        (same ∙ (equal_iff s.sa_token []).0 missing, failed)
    | inr present ↦ absurd (cc (rw present at ran))
  ]
