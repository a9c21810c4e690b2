-- ===== src/Middlewares/Retry.antt =====
-- middlewares/retry.go: `Retry.ServeHTTP` and the response writer that it hands to the next
-- handler. An `int` of attempts below 0 acts as 0 does.
pub mod Bounds
pub mod Shown
use fabric8_oso_proxy.Base.{
  ℕ, zero, suc, Bool, true, false, not, ◌&&◌, Option, none, some, List, [], ◌∷◌, ◌++◌, leb,
  if◌then◌else◌,
}
use fabric8_oso_proxy.Base.Strings.{Str}

-- What a handler does with its writer: it sets a header, a status or a part of the body, flushes,
-- or records a network error (`DefaultNetErrorRecorder.Record`).
pub data Call : Type 0 where
  record_error : Call
  set_header : Str → Str → Call
  write_header : ℕ → Call
  write : Str → Call
  flush : Call

-- What reaches the writer of the client.
pub data Effect : Type 0 where
  header_set : Str → Str → Effect
  header_written : ℕ → Effect
  written : Str → Effect
  flushed : Effect

-- `ShouldRetry`
abbrev pub should_retry : Bool → Bool → Bool
should_retry net_error exhausted = net_error && not exhausted

abbrev pub passed : Bool → Effect → List Effect
passed retry e = if retry then [] else e ∷ []

-- One call on the `retryResponseWriter`.
abbrev pub effects_of_call : Bool → Call → List Effect
effects_of_call retry record_error = []
effects_of_call retry (set_header k v) = passed retry (header_set k v)
effects_of_call retry (write_header c) = passed retry (header_written c)
effects_of_call retry (write s) = passed retry (written s)
effects_of_call retry flush = flushed ∷ []

abbrev pub error_after : Bool → Call → Bool
error_after net_error record_error = true
error_after net_error _ = net_error

-- The calls of one attempt: whether an error is recorded in the end, and what the client gets.
unfoldable pub attempt : Bool → Bool → List Call → Bool × List Effect
attempt exhausted net_error [] = (net_error, [])
attempt exhausted net_error (c ∷ cs) =
    let net_error' = error_after net_error c in
    let (last, rest) = attempt exhausted net_error' cs in
    (last, effects_of_call (should_retry net_error' exhausted) c ++ rest)

-- The state `S` of the next handler, the client's writer, and the attempts of which the listener
-- has been told.
pub record Served (S : Type 0) : Type 0 where
  pub state : S
  pub effects : List Effect
  pub retried : List ℕ

-- An attempt in front of those that follow it.
abbrev pub prepend : {S : Type 0} → List Effect → ℕ → Option (Served S) → Option (Served S)
prepend effects n none = none
prepend effects n (some r) =
    some (record r { effects = effects ++ r.effects; retried = suc n ∷ r.retried })

module _ {S : Type 0} (max_attempts : ℕ) (next : S → List Call × S) where
  -- The loop, from the attempt with number `n` on; `none` means that the fuel ran out.
  unfoldable pub serve_from : ℕ → ℕ → S → Option (Served S)
  serve_from zero n s = none
  serve_from (suc f) n s =
      let (calls, s') = next s in
      let exhausted = leb max_attempts n in
      let (net_error, effects) = attempt exhausted false calls in
      let again = prepend effects n (serve_from f (suc n) s') in
      if should_retry net_error exhausted
      then again
      else some (record { state = s'; effects = effects; retried = [] })

  -- `Retry.ServeHTTP`
  unfoldable pub serve : S → Option (Served S)
  serve s = serve_from (suc max_attempts) 1 s
