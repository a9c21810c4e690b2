-- ===== src/Server/Pipeline.antt =====
-- server/server.go: the way of a configuration from its provider to the routers, through
-- `listenProviders`, `throttleProviderConfigReload` and `listenConfigurations`. `loadConfig`, the
-- defaults and the comparisons of configurations are parameters; the signals to stop are left out.
-- `preLoadConfiguration` and `loadConfiguration` are one step each.
pub mod Loaded
pub mod Newest
pub mod Stale
pub mod Drained
use fabric8_oso_proxy.Base.{
  ℕ, zero, suc, ◌+◌, ◌<◌, Bool, true, false, Option, none, some, List, [], ◌∷◌, ◌++◌, ◌≡◌,
  if◌then◌else◌, length,
}
use fabric8_oso_proxy.Base.Maps.{lookup, insert}
use fabric8_oso_proxy.Base.Run.{Outcome, ok, err, crash}
use fabric8_oso_proxy.Base.Strings.{Str}

-- What the second goroutine of `throttleProviderConfigReload` does: it waits for the ring, holds a
-- configuration for `publish`, or sleeps.
pub data Publisher (C : Type 0) : Type 0 where
  idle : Publisher C
  publishing : C → Publisher C
  sleeping : Publisher C

-- The goroutines of one provider; the ring channel of size 1 keeps the newest value.
pub record Throttle (C : Type 0) : Type 0 where
  pub ring : Option C
  pub publisher : Publisher C

-- Configurations: the defaults, the two tests of `preLoadConfiguration`, and `loadConfig`, which
-- may also return an error or panic.
pub record Loader (C H : Type 0) : Type 0 where
  pub defaults : C → C
  pub is_empty : C → Bool
  pub deep_equal : C → C → Bool
  pub load_config : List (Str × C) → Outcome H

-- `listening` and `loading` say whether the goroutines of `listenProviders` and of
-- `listenConfigurations` run. `handlers` stands for the routers of all entry points. `validated` is the channel
-- `configurationValidatedChan`. `accepted` and `tried` record what was handed to the throttles and
-- what `loadConfiguration` has been called with, newest last.
pub record Server (C H : Type 0) : Type 0 where
  pub listening : Bool
  pub loading : Bool
  pub current : List (Str × C)
  pub handlers : H
  pub failures : ℕ
  pub listened : List C
  pub throttles : List (Str × Throttle C)
  pub validated : List (Str × C)
  pub accepted : List (Str × C)
  pub tried : List (Str × C)

-- The capacity of `configurationValidatedChan`.
abbrev pub capacity : ℕ
capacity = 100

abbrev pub throttle_or_new : {C : Type 0} → Option (Throttle C) → Throttle C
throttle_or_new none = record { ring = none; publisher = idle }
throttle_or_new (some t) = t

module _ {C H : Type 0} where
  -- `providerConfigUpdateCh <- configMsg`, with the goroutines that it starts, and
  -- `ring.In() <- nextConfig`.
  unfoldable pub hand_over : Str → C → Server C H → Server C H
  hand_over p c s =
      let t = throttle_or_new (lookup p s.throttles) in
      record s {
        throttles = insert p (record t { ring = some c }) s.throttles;
        accepted = s.accepted ++ (p, c) ∷ [];
      }

  abbrev pub with_publisher : Str → Throttle C → Server C H → Server C H
  with_publisher p t s = record s { throttles = insert p t s.throttles }

module _ {C H : Type 0} (loader : Loader C H) where
  abbrev pub is_current : Option C → C → Bool
  is_current none c = false
  is_current (some d) c = loader.deep_equal d c

  -- `preLoadConfiguration`
  unfoldable pub pre_load_configuration : Str → C → Server C H → Server C H
  pre_load_configuration p received s =
      let c = loader.defaults received in
      if loader.is_empty c
      then s
      else if is_current (lookup p s.current) c
      then s
      else hand_over p c s

  -- One message of `listenProviders`; a nil configuration ends the loop.
  unfoldable pub on_message : Str → Option C → Server C H → Server C H
  on_message p none s = record s { listening = false }
  on_message p (some c) s = pre_load_configuration p c s

  -- `safe.Go` recovers from a panic of `loadConfig`, but the goroutine has ended by then.
  abbrev pub loaded : Outcome H → Str → C → List (Str × C) → Server C H → Server C H
  loaded crash p c configs s = record s { loading = false }
  loaded (err e) p c configs s = record s { failures = suc s.failures }
  loaded (ok h) p c configs s = record s {
    current = configs;
    handlers = h;
    listened = s.listened ++ c ∷ [];
  }

  -- `loadConfiguration`
  unfoldable pub load_configuration : Str → C → Server C H → Server C H
  load_configuration p c s =
      let configs = insert p c s.current in
      loaded (loader.load_config configs) p c configs (record s { tried = s.tried ++ (p, c) ∷ [] })

  -- One move of the goroutines behind `listenProviders`.
  pub data Internal (s : Server C H) : Server C H → Type 0 where
    take_ring :
        (p : Str) (t : Throttle C) (c : C)
        → lookup p s.throttles ≡ some t
        → t.publisher ≡ idle
        → t.ring ≡ some c
        → Internal s (with_publisher p (record { ring = none; publisher = publishing c }) s)
    publish :
        (p : Str) (t : Throttle C) (c : C)
        → lookup p s.throttles ≡ some t
        → t.publisher ≡ publishing c
        → length s.validated < capacity
        → Internal s (
            with_publisher p
              (record t { publisher = sleeping })
              (record s { validated = s.validated ++ (p, c) ∷ [] }))
    wake :
        (p : Str) (t : Throttle C)
        → lookup p s.throttles ≡ some t
        → t.publisher ≡ sleeping
        → Internal s (with_publisher p (record t { publisher = idle }) s)
    load :
        (p : Str) (c : C) (ms : List (Str × C))
        → s.loading ≡ true
        → s.validated ≡ (p, c) ∷ ms
        → Internal s (load_configuration p c (record s { validated = ms }))

  -- A move of the goroutines, or a message of a provider.
  pub data Step (s : Server C H) : Server C H → Type 0 where
    internal : {t : Server C H} → Internal s t → Step s t
    receive : (p : Str) (m : Option C) → s.listening ≡ true → Step s (on_message p m s)

  -- A number of moves of the goroutines alone.
  pub data InternalSteps (s : Server C H) : ℕ → Server C H → Type 0 where
    rest : InternalSteps s zero s
    more :
        {n : ℕ} {t u : Server C H} → InternalSteps s n t → Internal t u → InternalSteps s (suc n) u

  pub data Steps (s : Server C H) : Server C H → Type 0 where
    here : Steps s s
    next : {t u : Server C H} → Steps s t → Step t u → Steps s u
