-- ===== src/Server/Wiring/Built.antt =====
-- server/server.go, `loadConfig`: the functions that build a chain make what it has to be.
use fabric8_oso_proxy.Base.{
  ℕ, zero, suc, Option, none, some, List, [], ◌∷◌, ◌≡◌, inl, inr, refl, ap, arith, ◌==◌,
  if◌then◌else◌, ==_iff, Bool-cases, Option-cases,
}
use fabric8_oso_proxy.Base.Run.{after}
use fabric8_oso_proxy.Base.Strings.{Str}
use fabric8_oso_proxy.Middlewares.Rewrite.{Handler}
use fabric8_oso_proxy.Server.Wiring.{Rate, RateLimit, MaxConn, Libraries}
use fabric8_oso_proxy.Server.Wiring.Backends.{
  add_rates, limited, build_rate_limiter, with_rate_limit, connections_limited, with_max_conn,
  with_retry, with_buffering, with_circuit_breaker,
}
use fabric8_oso_proxy.Server.Wiring.Made.{
  HasRates, IsLimitedBy, IsRateLimited, IsConnLimited, IsRetried, IsBuffered, IsBroken,
}

module _ {R T D B : Type 0} (lib : Libraries R T D B) where
  add_rates-HasRates :
      (rs : List (Str × Rate)) (before after : lib.RateSet)
      → add_rates lib rs before ≡ some after
      → HasRates lib rs before after
  unfolding add_rates
  add_rates-HasRates [] before after h = cc
  add_rates-HasRates ((_, rate) ∷ rs) before after h =
      elim (Option-cases (lib.add_rate rate before)) [
        | inl refused ↦ let h' : none ≡ some after = rw (refused, add_rates) at h in cc
        | inr (next, e) ↦ (next, e, add_rates-HasRates rs next after (rw (e, add_rates) at h))
      ]

  limited_lem :
      (lb limited_lb : Handler R) (ex : Option lib.Extractor) (rates : Option lib.RateSet)
      → limited lib lb ex rates ≡ some limited_lb
      → (x : lib.Extractor) × (r : lib.RateSet) × (ex ≡ some x)
        × (rates ≡ some r)
        × (lib.limit_rate lb x r ≡ some limited_lb)
  limited_lem lb limited_lb none rates h = cc
  limited_lem lb limited_lb (some x) none h = cc
  limited_lem lb limited_lb (some x) (some r) h = (x, r, refl, refl, h)

  pub with_rate_limit-IsRateLimited :
      (o : Option RateLimit) (lb rated : Handler R)
      → with_rate_limit lib o lb ≡ some rated
      → IsRateLimited lib o lb rated
  unfolding with_rate_limit build_rate_limiter
  with_rate_limit-IsRateLimited none lb rated h = cc
  with_rate_limit-IsRateLimited (some limit) lb rated h = by_rates limit.rate_set refl
    where
      by_rates :
          (rs : List (Str × Rate))
          → limit.rate_set ≡ rs
          → IsLimitedBy lib limit.extractor_func rs lb rated
      by_rates [] e = cc (rw e at h)
      by_rates (r ∷ rs) e =
          let (ex, rates, found, added, made) = limited_lem lb rated _ _ (rw e at h) in
          (ex, rates, found, add_rates-HasRates (r ∷ rs) lib.new_rate_set rates added, made)

  connections_limited_lem :
      (lb conn : Handler R) (ex : Option lib.Extractor) (n : ℕ)
      → connections_limited lib lb ex n ≡ some conn
      → (x : lib.Extractor) × (ex ≡ some x) × (lib.limit_connections lb x n ≡ some conn)
  connections_limited_lem lb conn none n h = cc
  connections_limited_lem lb conn (some x) n h = (x, refl, h)

  pub with_max_conn-IsConnLimited :
      (o : Option MaxConn) (lb conn : Handler R)
      → with_max_conn lib o lb ≡ some conn
      → IsConnLimited lib o lb conn
  unfolding with_max_conn
  with_max_conn-IsConnLimited none lb conn h = cc
  with_max_conn-IsConnLimited (some m) lb conn h = elim (Bool-cases (m.amount == 0)) [
    | inl no_limit ↦
        let h' : some lb ≡ some conn = rw no_limit at h in inl ((==_iff m.amount 0).0 no_limit, cc)
    | inr limit ↦ inr (
      (λ e. let t = (==_iff m.amount 0).1 e in cc),
      connections_limited_lem lb conn (lib.new_extractor m.extractor_func) m.amount (rw limit at h),
    )
  ]

  pub with_retry-IsRetried :
      (o : Option ℕ) (n : ℕ) (lb : Handler R) → IsRetried lib o n lb (with_retry lib o n lb)
  unfolding with_retry
  with_retry-IsRetried none n lb = refl
  with_retry-IsRetried (some zero) n lb = refl
  with_retry-IsRetried (some (suc k)) n lb =
      let positive : (if suc k == 0 then n else suc k) ≡ suc k = ground arith in
      ap (λ attempts. lib.retry attempts lb) positive

  pub with_buffering-IsBuffered :
      (o : Option B) (lb : Handler R) → IsBuffered lib o lb (with_buffering lib o lb)
  unfolding with_buffering
  with_buffering-IsBuffered none lb = refl
  with_buffering-IsBuffered (some b) lb = elim (Option-cases (lib.buffer b lb)) [
    | inl failed ↦ inr (failed, rw (failed, with_buffering) refl)
    | inr (h, e) ↦ inl (rw (e, with_buffering) refl)
  ]

  pub with_circuit_breaker-IsBroken :
      (o : Option Str) (lb last : Handler R)
      → with_circuit_breaker lib o lb ≡ some last
      → IsBroken lib o lb last
  unfolding with_circuit_breaker
  with_circuit_breaker-IsBroken none lb last h = cc
  with_circuit_breaker-IsBroken (some x) lb last h = h
