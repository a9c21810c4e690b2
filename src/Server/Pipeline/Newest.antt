-- ===== src/Server/Pipeline/Newest.antt =====
-- server/server.go: the newest configuration that a provider's throttle has taken is never lost.
use fabric8_oso_proxy.Base.{
  Option, none, some, List, [], ◌∷◌, ◌++◌, ◌≡◌, inl, inr, refl, sym, ap, ◌∙◌, if◌then◌else◌,
  Bool-cases,
}
use fabric8_oso_proxy.Base.Maps.{lookup, insert, lookup-insert}
use fabric8_oso_proxy.Base.Run.{Outcome-cases}
use fabric8_oso_proxy.Base.Strings.{Str, equal, equal_iff}
use fabric8_oso_proxy.Server.Pipeline.{
  Publisher, idle, publishing, sleeping, Throttle, Loader, Server, throttle_or_new, hand_over,
  with_publisher, is_current, pre_load_configuration, on_message, load_configuration, Internal,
  take_ring, publish, wake, load, internal, receive, Steps, here, next,
}

module _ {C : Type 0} where
  -- The last configuration of a provider, or the one from before.
  abbrev pub last_of : Str → Option C → List (Str × C) → Option C
  last_of p o [] = o
  last_of p o ((q, c) ∷ ms) = last_of p (if equal q p then some c else o) ms

  last_of-append :
      (p : Str) (o : Option C) (ms : List (Str × C)) (q : Str) (c : C)
      → last_of p o (ms ++ (q, c) ∷ []) ≡ (if equal q p then some c else last_of p o ms)
  last_of-append p o [] q c = refl
  last_of-append p o ((r, d) ∷ ms) q c = last_of-append p (if equal r p then some d else o) ms q c

  abbrev pub published_or : Publisher C → Option C → Option C
  published_or (publishing c) o = some c
  published_or _ o = o

  abbrev pub ring_or : Option C → Option C → Option C
  ring_or none o = o
  ring_or (some c) o = some c

  abbrev pub throttled_or : Option (Throttle C) → Option C → Option C
  throttled_or none o = o
  throttled_or (some t) o = ring_or t.ring (published_or t.publisher o)

take_ring-same :
    {C : Type 0} (t : Throttle C) (c : C) (o : Option C)
    → t.publisher ≡ idle
    → t.ring ≡ some c
    → throttled_or (some (record { ring = none; publisher = publishing c })) o
      ≡ throttled_or (some t) o
take_ring-same t c o e h = rw (e, h) refl

wake-same :
    {C : Type 0} (t : Throttle C) (o : Option C)
    → t.publisher ≡ sleeping
    → throttled_or (some (record t { publisher = idle })) o ≡ throttled_or (some t) o
wake-same t o e = rw e refl

module _ {C H : Type 0} where
  -- The newest configuration of a provider that the goroutines hold or have tried to load.
  abbrev pub newest : Str → Server C H → Option C
  newest p s = throttled_or (lookup p s.throttles) (last_of p (last_of p none s.tried) s.validated)

  -- It is the newest one that the throttle was given.
  abbrev pub IsKept : Server C H → Type 0
  IsKept s = (p : Str) → last_of p none s.accepted ≡ newest p s

  -- A write to the throttle of one provider.
  lookup-write :
      (p q : Str) (u : Throttle C) (s : Server C H) (o : Option C)
      → throttled_or (lookup p (with_publisher q u s).throttles) o
        ≡ (if equal q p then throttled_or (some u) o else throttled_or (lookup p s.throttles) o)
  lookup-write p q u s o =
      rw (lookup-insert p q u s.throttles)
        (elim (Bool-cases (equal q p)) [ inl e ↦ rw e refl | inr e ↦ rw e refl ])

  -- Where the throttle's newest is the same behind the write, so is everyone's.
  write-same :
      (p q : Str) (t u : Throttle C) (s : Server C H) (o : Option C)
      → lookup q s.throttles ≡ some t
      → throttled_or (some u) o ≡ throttled_or (some t) o
      → throttled_or (lookup p (with_publisher q u s).throttles) o
        ≡ throttled_or (lookup p s.throttles) o
  write-same p q t u s o e h = lookup-write p q u s o ∙ elim (Bool-cases (equal q p)) [
    | inl same ↦ rw (same, sym ((equal_iff q p).0 same)) (h ∙ ap (λ x. throttled_or x o) (sym e))
    | inr other ↦ rw other refl
  ]

  hand_over-IsKept : (q : Str) (c : C) (s : Server C H) → IsKept s → IsKept (hand_over q c s)
  unfolding hand_over
  hand_over-IsKept q c s k p =
      last_of-append p none s.accepted q c
      ∙ rw
          (lookup-insert p q (record (throttle_or_new (lookup q s.throttles)) { ring = some c })
            s.throttles)
          (elim (Bool-cases (equal q p)) [ inl e ↦ rw e refl | inr e ↦ rw e (k p) ])

  publish-same :
      (p q : Str) (t : Throttle C) (c : C) (s : Server C H) (o : Option C)
      → lookup q s.throttles ≡ some t
      → t.publisher ≡ publishing c
      → throttled_or
          (lookup p (with_publisher q (record t { publisher = sleeping }) s).throttles)
          (if equal q p then some c else o)
        ≡ throttled_or (lookup p s.throttles) o
  publish-same p q t c s o e h =
      lookup-write p q (record t { publisher = sleeping }) s (if equal q p then some c else o)
      ∙ elim (Bool-cases (equal q p)) [
        | inl same ↦
            rw (same, sym ((equal_iff q p).0 same))
              (ap (λ x. ring_or t.ring (published_or x o)) (sym h)
                ∙ ap (λ x. throttled_or x o) (sym e))
        | inr other ↦ rw other refl
      ]

  publish-IsKept :
      (q : Str) (t : Throttle C) (c : C) (s : Server C H)
      → lookup q s.throttles ≡ some t
      → t.publisher ≡ publishing c
      → IsKept s
      → IsKept (
          with_publisher q
            (record t { publisher = sleeping })
            (record s { validated = s.validated ++ (q, c) ∷ [] }))
  publish-IsKept q t c s e h k p =
      let o = last_of p (last_of p none s.tried) s.validated in
      k p
      ∙ sym (publish-same p q t c s o e h)
      ∙ ap
          (throttled_or
            (lookup p (with_publisher q (record t { publisher = sleeping }) s).throttles))
          (sym (last_of-append p (last_of p none s.tried) s.validated q c))

module _ {C H : Type 0} (loader : Loader C H) where
  load-IsKept :
      (q : Str) (c : C) (ms : List (Str × C)) (s : Server C H)
      → s.validated ≡ (q, c) ∷ ms
      → IsKept s
      → IsKept (load_configuration loader q c (record s { validated = ms }))
  unfolding load_configuration
  load-IsKept q c ms s e k p =
      let moved =
        k p
        ∙ ap (λ v. throttled_or (lookup p s.throttles) (last_of p (last_of p none s.tried) v)) e
        ∙ ap (λ o. throttled_or (lookup p s.throttles) (last_of p o ms))
            (sym (last_of-append p none s.tried q c)) in
      elim (Outcome-cases (loader.load_config (insert q c s.current))) [
        | inl (h, e') ↦ rw e' moved
        | inr (inl (x, failed)) ↦ rw failed moved
        | inr (inr crashed) ↦ rw crashed moved
      ]

  pre_load-IsKept :
      (q : Str) (c : C) (s : Server C H) → IsKept s → IsKept (pre_load_configuration loader q c s)
  unfolding pre_load_configuration
  pre_load-IsKept q c s k = elim (Bool-cases (loader.is_empty (loader.defaults c))) [
    | inl empty ↦ rw empty k
    | inr filled ↦
        rw filled (elim (Bool-cases (is_current loader (lookup q s.current) (loader.defaults c))) [
          | inl same ↦ rw same k
          | inr other ↦ rw other (hand_over-IsKept q (loader.defaults c) s k)
        ])
  ]

  on_message-IsKept :
      (q : Str) (m : Option C) (s : Server C H) → IsKept s → IsKept (on_message loader q m s)
  unfolding on_message
  on_message-IsKept q none s k = k
  on_message-IsKept q (some c) s k = pre_load-IsKept q c s k

  pub Internal-IsKept : {s t : Server C H} → Internal loader s t → IsKept s → IsKept t
  Internal-IsKept {s} (take_ring q t c e h r) k p =
      let o = last_of p (last_of p none s.tried) s.validated in
      k p
      ∙ sym (
          write-same p q t (record { ring = none; publisher = publishing c }) s o e
            (take_ring-same t c o h r))
  Internal-IsKept {s} (publish q t c e h _) k p = publish-IsKept q t c s e h k p
  Internal-IsKept {s} (wake q t e h) k p =
      let o = last_of p (last_of p none s.tried) s.validated in
      k p ∙ sym (write-same p q t (record t { publisher = idle }) s o e (wake-same t o h))
  Internal-IsKept {s} (load q c ms _ e) k p = load-IsKept q c ms s e k p

  -- Every step keeps the invariant IsKept.
  pub Steps-IsKept : {s t : Server C H} → Steps loader s t → IsKept s → IsKept t
  Steps-IsKept here k = k
  Steps-IsKept (next steps (internal m)) k = Internal-IsKept m (Steps-IsKept steps k)
  Steps-IsKept (next {t} steps (receive q m _)) k = on_message-IsKept q m t (Steps-IsKept steps k)
