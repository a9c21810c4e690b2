-- ===== src/Osio/Remote/Responsive.antt =====
-- The locators on services that always respond.
use fabric8_oso_proxy.Base.{Option, none, some, ◌≢◌, refl, inl, inr, ◌==◌, Bool-cases}
use fabric8_oso_proxy.Base.Run.{
  Error, Run, done, fail, panic, Outcome, ok, err, crash, Ends, with_value, with_error,
}
use fabric8_oso_proxy.Base.Strings.{Str}
use fabric8_oso_proxy.Cluster.Client
use fabric8_oso_proxy.Cluster.Client.{Json, TokenRequest, TokenResponse}
use fabric8_oso_proxy.Net.Web.{
  Web, OutRequest, Response, bearer_request, status_ok, decoded, ended, checked, unchecked_reply,
  checked_reply, with_request, fetch, exchange,
}
use fabric8_oso_proxy.Osio.Remote.Panics.{NeverCrashes}

abbrev pub IsAnswer : Option Response → Type 0
IsAnswer none = ⊥
IsAnswer (some r) = r.body ≢ crash

-- Every exchange brings a response whose body can be read, or not, but without a panic.
abbrev pub Responds : {W : Type 0} → Web W → Type 0
Responds {W} web = (r : OutRequest) (w : W) → IsAnswer (web.send r w).0.response

pub ended-Ends : {W T : Type 0} (o : Outcome T) (w : W) → o ≢ crash → Ends (ended o w)
ended-Ends (ok t) w h = with_value t w
ended-Ends (err e) w h = with_error e w
ended-Ends crash w h = absurd (h refl)

-- What holds of every error and of every decoded body holds of the whole call.
module _ {W T : Type 0} (P : Run W T → Type 0) (decode : Str → Outcome T)
    (failed : (e : Error) (w : W) → P (fail e w))
    (good : (b : Str) (w : W) → P (ended (decode b) w)) where
  decoded-P : (o : Outcome Str) (w : W) → o ≢ crash → P (ended (decoded decode o) w)
  decoded-P (ok b) w h = good b w
  decoded-P (err e) w h = failed e w
  decoded-P crash w h = absurd (h refl)

  checked-P : (url : Str) (r : Response) (w : W) → r.body ≢ crash → P (checked url decode r w)
  checked-P url r w h = elim (Bool-cases (r.status_code == status_ok)) [
    | inl fine ↦ rw fine (decoded-P r.body w h)
    | inr bad ↦ rw bad (failed _ w)
  ]

  unchecked_reply-P :
      (url : Str) (o : Option Response) (w : W) → IsAnswer o → P (unchecked_reply url decode o w)
  unchecked_reply-P url none w h = elim h [ ]
  unchecked_reply-P url (some r) w h = checked-P url r w h

  checked_reply-P :
      (url : Str) (e : Option Error) (o : Option Response) (w : W)
      → IsAnswer o
      → P (checked_reply url decode e o w)
  checked_reply-P url (some e) o w h = failed e w
  checked_reply-P url none o w h = unchecked_reply-P url o w h

  with_request-P : (o : Option Error) (run : Run W T) (w : W) → P run → P (with_request o run w)
  with_request-P (some e) run w h = failed e w
  with_request-P none run w h = h

  module _ (web : Web W) (responds : Responds web) where
    pub fetch-P : (url token : Str) (w : W) → P (fetch web url token decode w)
    unfolding fetch
    fetch-P url token w =
        with_request-P (web.new_request url) _ w
          (unchecked_reply-P url _ _ (responds (bearer_request url token) w))

    pub exchange-P : (req : OutRequest) (w : W) → P (exchange web req decode w)
    unfolding exchange
    exchange-P req w =
        with_request-P (web.new_request req.url) _ w
          (checked_reply-P req.url _ _ _ (responds req w))

pub with_request-Ends :
    {W T : Type 0} (o : Option Error) (run : Run W T) (w : W)
    → Ends run
    → Ends (with_request o run w)
with_request-Ends (some e) run w h = with_error e w
with_request-Ends none run w h = h

pub fetch-Ends :
    {W T : Type 0} (web : Web W) (responds : Responds web) (url token : Str)
    (decode : Str → Outcome T) (w : W)
    → NeverCrashes decode
    → Ends (fetch web url token decode w)
fetch-Ends web responds url token decode w safe =
    fetch-P Ends decode with_error (λ b v. ended-Ends (decode b) v (safe b)) web responds url token
      w

-- A call for a token that ends, and does not return nil.
abbrev pub IsToken : {W : Type 0} → Run W (Option TokenResponse) → Type 0
IsToken (done none w) = ⊥
IsToken (done (some t) w) = Unit
IsToken (fail e w) = Unit
IsToken (panic w) = ⊥

ended-IsToken :
    {W : Type 0} (o : Outcome (Option TokenResponse)) (w : W)
    → o ≢ crash
    → o ≢ ok none
    → IsToken (ended o w)
ended-IsToken (ok none) w h k = k refl
ended-IsToken (ok (some t)) w h k = tt
ended-IsToken (err e) w h k = tt
ended-IsToken crash w h k = h refl

pub get_token-IsToken :
    {W : Type 0} (json : Json) (web : Web W) (responds : Responds web) (url : Str)
    (req : TokenRequest) (w : W)
    → json.encode_token_request req ≢ crash
    → NeverCrashes json.decode_token_response
    → ((b : Str) → json.decode_token_response b ≢ ok none)
    → IsToken (Client.get_token json web url req w)
unfolding Client.get_token
get_token-IsToken json web responds url req w encodes safe never_nil =
    by_body (json.encode_token_request req) encodes
  where
    by_body : (o : Outcome Str) → o ≢ crash → IsToken (Client.post json web url o w)
    by_body (ok body) h =
        exchange-P IsToken json.decode_token_response (λ e v. tt)
          (λ b v. ended-IsToken (json.decode_token_response b) v (safe b) (never_nil b)) web
          responds _ w
    by_body (err e) h = tt
    by_body crash h = absurd (h refl)
