-- ===== src/Tests/Server.antt =====
-- The theorems on the server's configurations, certificates and white lists.
use fabric8_oso_proxy.Base.{
  ℕ, ◌+◌, ◌≤◌, true, none, some, [], ◌∷◌, ◌≡◌, ◌⊎◌, inl, inr, refl, ap, arith, ◌==◌, length,
  Bool-cases,
}
use fabric8_oso_proxy.Base.Maps.{lookup, insert}
use fabric8_oso_proxy.Base.Run.{ok}
use fabric8_oso_proxy.Base.Strings.{Str, codes, equal}
use fabric8_oso_proxy.Server.Pipeline.{
  idle, publishing, sleeping, Throttle, Loader, Server, hand_over, pre_load_configuration,
  on_message, load_configuration, Internal, take_ring, publish, wake, load, Step, internal, receive,
  Steps, here, next, rest, more,
}
use fabric8_oso_proxy.Server.Pipeline.Drained.{
  work, HasPanicked, IsAtRest, InternalSteps-bounded, rest-newest,
}
use fabric8_oso_proxy.Server.Pipeline.Loaded.{IsServing, Steps-IsServing}
use fabric8_oso_proxy.Server.Pipeline.Newest.{last_of, newest, IsKept}
use fabric8_oso_proxy.Server.Pipeline.Stale.{pre_load_configuration-stale}

-- Configurations are numbers, 0 is the empty one, and every set of them loads.
abbrev loader : Loader ℕ ℕ
loader = record {
  defaults = λ c. c;
  is_empty = λ c. c == 0;
  deep_equal = λ c d. c == d;
  load_config = λ configs. ok (length configs);
}

abbrev osio : Str
osio = codes "osio"

abbrev started : Server ℕ ℕ
started = record {
  listening = true;
  loading = true;
  current = [];
  handlers = 0;
  failures = 0;
  listened = [];
  throttles = [];
  validated = [];
  accepted = [];
  tried = [];
}

-- The states behind a message, the ring, the channel, the loading and the pause.
abbrev handed : Server ℕ ℕ
handed = record started {
  throttles = (osio, record { ring = some 5; publisher = idle }) ∷ [];
  accepted = (osio, 5) ∷ [];
}

abbrev taken : Server ℕ ℕ
taken = record handed { throttles = (osio, record { ring = none; publisher = publishing 5 }) ∷ [] }

abbrev published : Server ℕ ℕ
published = record handed {
  throttles = (osio, record { ring = none; publisher = sleeping }) ∷ [];
  validated = (osio, 5) ∷ [];
}

abbrev loaded : Server ℕ ℕ
loaded = record published {
  validated = [];
  current = (osio, 5) ∷ [];
  handlers = 1;
  listened = 5 ∷ [];
  tried = (osio, 5) ∷ [];
}

abbrev rested : Server ℕ ℕ
rested = record loaded { throttles = (osio, record { ring = none; publisher = idle }) ∷ [] }

step_receive : Step loader started handed
unfolding on_message pre_load_configuration hand_over lookup insert
step_receive = receive osio (some 5) refl

step_take : Internal loader handed taken
unfolding lookup insert equal
step_take = take_ring osio (record { ring = some 5; publisher = idle }) 5 refl refl refl

step_publish : Internal loader taken published
unfolding lookup insert equal
step_publish =
    publish osio (record { ring = none; publisher = publishing 5 }) 5 refl refl (omega arith)

step_load : Internal loader published loaded
unfolding load_configuration insert
step_load = load osio 5 [] refl refl

step_wake : Internal loader loaded rested
unfolding lookup insert equal
step_wake = wake osio (record { ring = none; publisher = sleeping }) refl refl

run : Steps loader started rested
run =
    next
      (next (next (next (next here step_receive) (internal step_take)) (internal step_publish))
        (internal step_load))
      (internal step_wake)

Steps-IsServing_example : IsServing loader started rested
Steps-IsServing_example = Steps-IsServing loader started run

InternalSteps-bounded_example : 4 + work rested ≤ work handed
InternalSteps-bounded_example =
    InternalSteps-bounded loader handed 4 rested
      (more (more (more (more rest step_take) step_publish) step_load) step_wake)

started-IsKept : IsKept started
unfolding lookup
started-IsKept p = refl

abbrev resting : Throttle ℕ
resting = record { ring = none; publisher = idle }

found_resting : (p : Str) (t : Throttle ℕ) → lookup p rested.throttles ≡ some t → t ≡ resting
unfolding lookup
found_resting p t e = elim (Bool-cases (equal osio p)) [
  | inl same ↦ let e' : some resting ≡ some t = rw same at e in cc
  | inr other ↦ let e' : none ≡ some t = rw other at e in cc
]

rested-IsAtRest : IsAtRest loader rested
rested-IsAtRest t (take_ring p u c e h r) =
    let same = ap (λ (x : Throttle ℕ). x.ring) (found_resting p u e) in cc
rested-IsAtRest t (publish p u c e h _) =
    let same = ap (λ (x : Throttle ℕ). x.publisher) (found_resting p u e) in cc
rested-IsAtRest t (wake p u e h) =
    let same = ap (λ (x : Throttle ℕ). x.publisher) (found_resting p u e) in cc
rested-IsAtRest t (load p c ms _ e) = cc

rest-newest_example :
    (last_of osio none rested.tried ≡ last_of osio none rested.accepted) ⊎ HasPanicked loader rested
rest-newest_example = rest-newest loader osio run started-IsKept refl rested-IsAtRest

rested_current : lookup osio rested.current ≡ some 5
unfolding lookup equal
rested_current = refl

pre_load_configuration-stale_example :
    newest osio (pre_load_configuration loader osio 5 (pre_load_configuration loader osio 7 rested))
    ≡ some 7
pre_load_configuration-stale_example =
    pre_load_configuration-stale loader osio 5 7 5 rested rested_current refl refl refl
