-- ===== src/Net/Web.antt =====
-- Requests that the proxy makes. The client behind them, the JSON decoders and `url.Parse` are
-- parameters; what is modelled is what the code does with their results.
use fabric8_oso_proxy.Base.{ℕ, not, Option, none, some, [], ◌∷◌, ◌++◌, ◌==◌, if◌then◌else◌}
use fabric8_oso_proxy.Base.Strings.{Str, codes}
use fabric8_oso_proxy.Base.Run.{
  Error, bad_status, Run, done, fail, panic, M, Outcome, ok, err, crash,
}
use fabric8_oso_proxy.Net.Header.{Header}

pub record OutRequest : Type 0 where
  pub method : Str
  pub url : Str
  pub header : Header
  pub body : Str

-- Reading the body may fail.
pub record Response : Type 0 where
  pub status_code : ℕ
  pub status : Str
  pub body : Outcome Str

-- Both results of `client.Do`: the response is nil after a failed exchange, but not after a
-- redirect that the client refuses.
pub record Reply : Type 0 where
  pub response : Option Response
  pub error : Option Error

pub record Web (W : Type 0) : Type 0 where
  -- The error of `http.NewRequest` for a URL.
  pub new_request : Str → Option Error
  pub send : OutRequest → W → Reply × W

abbrev pub status_ok : ℕ
status_ok = 200

abbrev pub get_method : Str
get_method = codes "GET"

abbrev pub bearer_request : Str → Str → OutRequest
bearer_request url token = record {
  method = get_method;
  url = url;
  header = (codes "Authorization", (codes "Bearer " ++ token) ∷ []) ∷ [];
  body = [];
}

abbrev pub decoded : {T : Type 0} → (Str → Outcome T) → Outcome Str → Outcome T
decoded f (ok b) = f b
decoded f (err e) = err e
decoded f crash = crash

abbrev pub ended : {W T : Type 0} → Outcome T → W → Run W T
ended (ok t) w = done t w
ended (err e) w = fail e w
ended crash w = panic w

module _ {W T : Type 0} (url : Str) (decode : Str → Outcome T) where
  -- The status, then the body.
  abbrev pub checked : Response → W → Run W T
  checked r w =
      if not (r.status_code == status_ok)
      then fail (bad_status url r.status) w
      else ended (decoded decode r.body) w

  -- The callers that ignore the error of `client.Do`: `resp.StatusCode` panics on a nil response.
  abbrev pub unchecked_reply : Option Response → W → Run W T
  unchecked_reply none w = panic w
  unchecked_reply (some r) w = checked r w

  -- The callers that test it first.
  abbrev pub checked_reply : Option Error → Option Response → W → Run W T
  checked_reply (some e) r w = fail e w
  checked_reply none r w = unchecked_reply r w

-- The error of `http.NewRequest` ends a call before anything is sent.
abbrev pub with_request : {W T : Type 0} → Option Error → Run W T → W → Run W T
with_request (some e) run w = fail e w
with_request none run w = run

module _ {W : Type 0} (web : Web W) {T : Type 0} where
  -- A GET with a bearer token, in the way of the middleware's locators.
  unfoldable pub fetch : Str → Str → (Str → Outcome T) → M W T
  fetch url token decode w =
      let (reply, w') = web.send (bearer_request url token) w in
      with_request (web.new_request url) (unchecked_reply url decode reply.response w') w

  -- Any request, in the way of the provider's client.
  unfoldable pub exchange : OutRequest → (Str → Outcome T) → M W T
  exchange req decode w =
      let (reply, w') = web.send req w in
      with_request (web.new_request req.url)
        (checked_reply req.url decode reply.error reply.response w') w
