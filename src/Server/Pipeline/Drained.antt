-- ===== src/Server/Pipeline/Drained.antt =====
-- server/server.go: between two messages the goroutines come to rest, and then every provider's
-- newest configuration has been tried.
use fabric8_oso_proxy.Base.{
  ℕ, zero, suc, ◌+◌, ◌≤◌, ◌<◌, ◌⊎◌, true, false, Option, none, some, List, [], ◌∷◌, ◌≡◌, inl, inr,
  refl, sym, ap, ◌∙◌, arith, Bool-cases, Option-cases, length, length-append,
}
use fabric8_oso_proxy.Base.Maps.{lookup, insert}
use fabric8_oso_proxy.Base.Run.{Outcome-cases, crash}
use fabric8_oso_proxy.Base.Strings.{Str, equal}
use fabric8_oso_proxy.Server.Pipeline.{
  Publisher, idle, publishing, sleeping, Throttle, Loader, Server, load_configuration, Internal,
  take_ring, publish, wake, load, Step, internal, receive, here, next, on_message,
  pre_load_configuration, hand_over, InternalSteps, rest, more, Steps,
}
use fabric8_oso_proxy.Server.Pipeline.Newest.{last_of, throttled_or, IsKept, Steps-IsKept}

-- The moves that are left to a throttle.
abbrev pub ring_work : {C : Type 0} → Option C → ℕ
ring_work none = 0
ring_work (some c) = 4

abbrev pub publisher_work : {C : Type 0} → Publisher C → ℕ
publisher_work idle = 0
publisher_work (publishing c) = 3
publisher_work sleeping = 1

abbrev pub throttle_work : {C : Type 0} → Throttle C → ℕ
throttle_work t = ring_work t.ring + publisher_work t.publisher

abbrev pub throttles_work : {C : Type 0} → List (Str × Throttle C) → ℕ
throttles_work [] = 0
throttles_work ((_, t) ∷ ts) = throttle_work t + throttles_work ts

abbrev pub work : {C H : Type 0} → Server C H → ℕ
work s = throttles_work s.throttles + length s.validated

found_work : {C : Type 0} → Option (Throttle C) → ℕ
found_work none = 0
found_work (some t) = throttle_work t

insert-work :
    {C : Type 0} (p : Str) (t u : Throttle C) (ts : List (Str × Throttle C))
    → lookup p ts ≡ some t
    → throttles_work (insert p u ts) + throttle_work t ≡ throttles_work ts + throttle_work u
unfolding lookup insert found_work
insert-work p t u [] e = cc
insert-work p t u ((q, r) ∷ ts) e = elim (Bool-cases (equal q p)) [
  | inl same ↦
      let found : some r ≡ some t = rw same at e in
      let weight : throttle_work r ≡ throttle_work t = ap found_work found in rw same (omega arith)
  | inr other ↦
      let found : lookup p ts ≡ some t = rw other at e in
      let later = insert-work p t u ts found in rw other (omega arith)
]

module _ {C H : Type 0} (loader : Loader C H) where
  load-work : (p : Str) (c : C) (s : Server C H) → work (load_configuration loader p c s) ≡ work s
  unfolding load_configuration
  load-work p c s = elim (Outcome-cases (loader.load_config (insert p c s.current))) [
    | inl (h, e) ↦ rw e refl
    | inr (inl (x, failed)) ↦ rw failed refl
    | inr (inr crashed) ↦ rw crashed refl
  ]

  Internal-work : {s t : Server C H} → Internal loader s t → work t < work s
  Internal-work {s} (take_ring p t c e h r) =
      let taken =
        insert-work p t (record { ring = none; publisher = publishing c }) s.throttles e in
      let old : throttle_work t ≡ 4 = rw (h, r) refl in omega arith
  Internal-work {s} (publish p t c e h _) =
      let published = insert-work p t (record t { publisher = sleeping }) s.throttles e in
      let old : publisher_work t.publisher ≡ 3 = rw h refl in
      let queued = length-append s.validated ((p, c) ∷ []) in omega arith
  Internal-work {s} (wake p t e h) =
      let woken = insert-work p t (record t { publisher = idle }) s.throttles e in
      let old : publisher_work t.publisher ≡ 1 = rw h refl in omega arith
  Internal-work {s} (load p c ms _ e) =
      let same = load-work p c (record s { validated = ms }) in
      let shorter = ap length e in omega arith

  -- The goroutines behind `listenProviders` come to rest without a new message: the moves of a
  -- run and the work left at its end are at most the work at its start, which is four for a
  -- ring that is full, three for a configuration to publish, one for a pause and one for each
  -- configuration to load.
  pub InternalSteps-bounded :
      (s : Server C H) (n : ℕ) (t : Server C H) → InternalSteps loader s n t → n + work t ≤ work s
  InternalSteps-bounded s zero t rest = omega arith
  InternalSteps-bounded s (suc n) u (more {t} steps move) =
      let before = InternalSteps-bounded s n t steps in
      let falls = Internal-work move in omega arith

  -- No goroutine can move.
  abbrev pub IsAtRest : Server C H → Type 0
  IsAtRest s = (t : Server C H) → Internal loader s t → ⊥

  rest-validated : (s : Server C H) → IsAtRest s → s.loading ≡ true → s.validated ≡ []
  rest-validated s r runs = empty_of s.validated refl
    where
      empty_of : (ms : List (Str × C)) → s.validated ≡ ms → s.validated ≡ []
      empty_of [] e = e
      empty_of ((p, c) ∷ ms) e = absurd (r _ (load p c ms runs e))

  rest-idle :
      (s : Server C H) (p : Str) (t : Throttle C) (x : Publisher C)
      → IsAtRest s
      → s.loading ≡ true
      → lookup p s.throttles ≡ some t
      → t.publisher ≡ x
      → t.publisher ≡ idle
  rest-idle s p t idle r runs e h = h
  rest-idle s p t (publishing c) r runs e h =
      let queued = ap length (rest-validated s r runs) in
      absurd (r _ (publish p t c e h (omega arith)))
  rest-idle s p t sleeping r runs e h = absurd (r _ (wake p t e h))

  rest-ring :
      (s : Server C H) (p : Str) (t : Throttle C) (o : Option C)
      → IsAtRest s
      → s.loading ≡ true
      → lookup p s.throttles ≡ some t
      → t.ring ≡ o
      → t.ring ≡ none
  rest-ring s p t none r runs e h = h
  rest-ring s p t (some c) r runs e h =
      absurd (r _ (take_ring p t c e (rest-idle s p t t.publisher r runs e refl) h))

  rest-throttle :
      (s : Server C H) (p : Str) (o : Option C)
      → IsAtRest s
      → s.loading ≡ true
      → throttled_or (lookup p s.throttles) o ≡ o
  rest-throttle s p o r runs = elim (Option-cases (lookup p s.throttles)) [
    | inl none_there ↦ rw none_there refl
    | inr (t, e) ↦
        rw e (
          rw (rest-ring s p t t.ring r runs e refl, rest-idle s p t t.publisher r runs e refl) refl)
  ]

  -- `loadConfig` has panicked, and the goroutine of `listenConfigurations` is gone.
  pub record HasPanicked (s : Server C H) : Type 0 where
    pub stopped : s.loading ≡ false
    pub configs : List (Str × C)
    pub panics : loader.load_config configs ≡ crash

  abbrev IsAlive : Server C H → Type 0
  IsAlive s = (s.loading ≡ true) ⊎ HasPanicked s

  same-IsAlive : (s t : Server C H) → t.loading ≡ s.loading → IsAlive s → IsAlive t
  same-IsAlive s t same (inl runs) = inl (same ∙ runs)
  same-IsAlive s t same (inr h) =
      inr (record { stopped = same ∙ h.stopped; configs = h.configs; panics = h.panics })

  load-IsAlive :
      (p : Str) (c : C) (s : Server C H) → IsAlive s → IsAlive (load_configuration loader p c s)
  unfolding load_configuration
  load-IsAlive p c s a = elim (Outcome-cases (loader.load_config (insert p c s.current))) [
    | inl (h, e) ↦ rw e (same-IsAlive s _ refl a)
    | inr (inl (x, failed)) ↦ rw failed (same-IsAlive s _ refl a)
    | inr (inr crashed) ↦
        rw crashed
          (inr (record { stopped = refl; configs = insert p c s.current; panics = crashed }))
  ]

  Internal-IsAlive : {s t : Server C H} → Internal loader s t → IsAlive s → IsAlive t
  Internal-IsAlive {s} (take_ring p t c _ _ _) a = same-IsAlive s _ refl a
  Internal-IsAlive {s} (publish p t c _ _ _) a = same-IsAlive s _ refl a
  Internal-IsAlive {s} (wake p t _ _) a = same-IsAlive s _ refl a
  Internal-IsAlive {s} (load p c ms _ _) a =
      load-IsAlive p c (record s { validated = ms }) (same-IsAlive s _ refl a)

  on_message-loading :
      (p : Str) (m : Option C) (s : Server C H) → (on_message loader p m s).loading ≡ s.loading
  unfolding on_message pre_load_configuration hand_over
  on_message-loading p none s = refl
  on_message-loading p (some c) s = ground arith

  Step-IsAlive : {s t : Server C H} → Step loader s t → IsAlive s → IsAlive t
  Step-IsAlive (internal m) a = Internal-IsAlive m a
  Step-IsAlive {s} (receive p m _) a = same-IsAlive s _ (on_message-loading p m s) a

  Steps-IsAlive : {s t : Server C H} → Steps loader s t → s.loading ≡ true → IsAlive t
  Steps-IsAlive here runs = inl runs
  Steps-IsAlive (next steps step) runs = Step-IsAlive step (Steps-IsAlive steps runs)

  -- Assume that at the start of a run the goroutine of `listenConfigurations` runs, and that
  -- the newest configuration of every provider that was handed to its throttle is the newest
  -- one that the goroutines hold or have tried. When none of the goroutines behind
  -- `listenProviders` can move, the last configuration of a provider that `loadConfiguration`
  -- has tried is the last one that was handed over, or `loadConfig` has panicked and the
  -- goroutine of `listenConfigurations` is gone.
  pub rest-newest :
      {s t : Server C H} (p : Str)
      → Steps loader s t
      → IsKept s
      → s.loading ≡ true
      → IsAtRest t
      → (last_of p none t.tried ≡ last_of p none t.accepted) ⊎ HasPanicked t
  rest-newest {t} p steps k runs r = elim (Steps-IsAlive steps runs) [
    | inl runs' ↦ inl (
        sym (
          Steps-IsKept loader steps k p
          ∙ rest-throttle t p (last_of p (last_of p none t.tried) t.validated) r runs'
          ∙ ap (last_of p (last_of p none t.tried)) (rest-validated t r runs')))
    | inr panicked ↦ inr panicked
  ]
