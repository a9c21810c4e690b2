-- ===== src/Osio/Remote/Panics.antt =====
-- When the locators panic: exactly on an exchange without a response.
use fabric8_oso_proxy.Base.{Option, none, some, ◌≡◌, ◌≢◌, refl, ◌↔◌, inl, inr, ◌==◌, Bool-cases}
use fabric8_oso_proxy.Base.Strings.{Str}
use fabric8_oso_proxy.Base.Run.{Error, panic, Outcome, ok, err, crash}
use fabric8_oso_proxy.Net.Web.{
  Web, Response, bearer_request, status_ok, decoded, ended, checked, unchecked_reply, with_request,
  fetch,
}

-- A decoder and a body that return.
abbrev pub NeverCrashes : {T : Type 0} → (Str → Outcome T) → Type 0
NeverCrashes decode = (b : Str) → decode b ≢ crash

abbrev pub HasBody : Option Response → Type 0
HasBody none = Unit
HasBody (some r) = r.body ≢ crash

pub decoded-ne-crash :
    {T : Type 0} (decode : Str → Outcome T)
    → NeverCrashes decode
    → (b : Outcome Str) → b ≢ crash
    → decoded decode b ≢ crash
decoded-ne-crash decode safe (ok s) h = safe s
decoded-ne-crash decode safe (err e) h = λ k. cc
decoded-ne-crash decode safe crash h = absurd (h refl)

module _ {W T : Type 0} (url : Str) (decode : Str → Outcome T) (safe : NeverCrashes decode) where
  ended-ne-panic : (o : Outcome T) (w w' : W) → o ≢ crash → ended o w ≢ panic w'
  ended-ne-panic (ok t) w w' h k = cc
  ended-ne-panic (err e) w w' h k = cc
  ended-ne-panic crash w w' h k = h refl

  checked-ne-panic : (r : Response) (w w' : W) → r.body ≢ crash → checked url decode r w ≢ panic w'
  checked-ne-panic r w w' h k = elim (Bool-cases (r.status_code == status_ok)) [
    | inl fine ↦
        ended-ne-panic (decoded decode r.body) w w' (decoded-ne-crash decode safe r.body h)
          (rw fine at k)
    | inr bad ↦ cc (rw bad at k)
  ]

  unchecked_reply-eq-panic :
      (o : Option Response) (w w' : W)
      → HasBody o
      → unchecked_reply url decode o w ≡ panic w'
      → (o ≡ none) × (w ≡ w')
  unchecked_reply-eq-panic none w w' h k = (refl, cc k)
  unchecked_reply-eq-panic (some r) w w' h k = absurd (checked-ne-panic r w w' h k)

  replied-eq-panic :
      (e : Option Error) (o : Option Response) (w v w' : W)
      → HasBody o
      → with_request e (unchecked_reply url decode o v) w ≡ panic w'
      → (e ≡ none) × (o ≡ none) × (v ≡ w')
  replied-eq-panic none o w v w' h k =
      let (missing, state) = unchecked_reply-eq-panic o v w' h k in (refl, missing, state)
  replied-eq-panic (some x) o w v w' h k = cc

-- If neither the decoder nor the reading of a body panics, then a request of a locator panics
-- and leaves the world `w'` exactly if its URL parses, and the exchange brings no response and
-- leaves `w'`: an exchange that fails without a response panics, since its error is not tested.
pub fetch-eq-panic_iff :
    {W T : Type 0} (web : Web W) (url token : Str) (decode : Str → Outcome T) (w w' : W)
    → NeverCrashes decode
    → HasBody (web.send (bearer_request url token) w).0.response
    → (fetch web url token decode w ≡ panic w') ↔ (
        (web.new_request url ≡ none)
        × ((web.send (bearer_request url token) w).0.response ≡ none)
        × ((web.send (bearer_request url token) w).1 ≡ w'))
unfolding fetch
fetch-eq-panic_iff web url token decode w w' safe body = (
  λ h. replied-eq-panic url decode safe (web.new_request url) _ w _ w' body h,
  λ h. rw (h.0, h.1, h.2) refl,
)
