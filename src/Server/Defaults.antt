-- ===== src/Server/Defaults.antt =====
-- server/server.go and types/types.go: the values that a configuration lacks.
pub mod Stable
use fabric8_oso_proxy.Base.{
  ℕ, ◌+◌, Bool, true, false, not, ◌&&◌, Option, none, some, List, [], ◌∷◌, ◌≡◌, ◌≢◌, ◌⊎◌, inl, inr,
  refl, sym, ap, ◌∙◌, arith, map, leb, if◌then◌else◌, Bool-cases, Option-cases,
}
use fabric8_oso_proxy.Base.Strings.{Str, codes, equal}

-- `Stickiness.CookieName`
pub record Stickiness : Type 0 where
  pub cookie_name : Str

pub record LoadBalancer : Type 0 where
  pub method : Str
  pub sticky : Bool
  pub stickiness : Option Stickiness

-- The fields of `Frontend` and `Backend` that are set; the rest of them is of the types `F` and `B`.
pub record Frontend (F : Type 0) : Type 0 where
  pub entry_points : List Str
  pub others : F

pub record Backend (B : Type 0) : Type 0 where
  pub load_balancer : Option LoadBalancer
  pub others : B

-- `nil` maps are `none`.
pub record Configuration (F B : Type 0) : Type 0 where
  pub frontends : Option (List (Str × Frontend F))
  pub backends : List (Str × Backend B)

pub data LoadBalancerMethod : Type 0 where
  wrr drr : LoadBalancerMethod

-- Lower case, as `strings.EqualFold` sees the letters of the methods' names.
abbrev pub lower : ℕ → ℕ
lower c = if leb b'A' c && leb c b'Z' then c + 32 else c

abbrev pub equal_fold : Str → Str → Bool
equal_fold s t = equal (map lower s) (map lower t)

abbrev pub method_named : Str → Option LoadBalancerMethod
method_named m =
    if equal_fold (codes "Wrr") m
    then some wrr
    else if equal_fold (codes "Drr") m
    then some drr
    else none

-- `NewLoadBalancerMethod`; `none` is an error.
unfoldable pub new_load_balancer_method : Option LoadBalancer → Option LoadBalancerMethod
new_load_balancer_method none = none
new_load_balancer_method (some lb) = if equal lb.method [] then none else method_named lb.method

abbrev pub default_stickiness : Stickiness
default_stickiness = record { cookie_name = codes "_TRAEFIK_BACKEND" }

abbrev pub stickiness_or : Option Stickiness → Bool → Option Stickiness
stickiness_or none sticky = if sticky then some default_stickiness else none
stickiness_or (some s) sticky = some s

-- Behind a valid method.
abbrev pub with_stickiness : Option LoadBalancer → Option LoadBalancer
with_stickiness none = none
with_stickiness (some lb) = some (record lb { stickiness = stickiness_or lb.stickiness lb.sticky })

abbrev pub stickiness_of : Option LoadBalancer → Option Stickiness
stickiness_of none = none
stickiness_of (some lb) = stickiness_or lb.stickiness lb.sticky

abbrev pub by_method : Option LoadBalancerMethod → Option LoadBalancer → Option LoadBalancer
by_method (some m) lb = with_stickiness lb
by_method none lb =
    some (record { method = codes "wrr"; sticky = false; stickiness = stickiness_of lb })

-- The body of the loop of `configureBackends`.
unfoldable pub configure_load_balancer : Option LoadBalancer → Option LoadBalancer
configure_load_balancer lb = by_method (new_load_balancer_method lb) lb

module _ {B : Type 0} where
  unfoldable pub configure_backends : List (Str × Backend B) → List (Str × Backend B)
  configure_backends [] = []
  configure_backends ((name, b) ∷ bs) =
      (name, record b { load_balancer = configure_load_balancer b.load_balancer })
      ∷ configure_backends bs

abbrev pub or_default : List Str → List Str → List Str
or_default defaults [] = defaults
or_default defaults (p ∷ ps) = p ∷ ps

module _ {F : Type 0} where
  unfoldable pub configure_frontends : List Str → List (Str × Frontend F) → List (Str × Frontend F)
  configure_frontends defaults [] = []
  configure_frontends defaults ((name, f) ∷ fs) =
      (name, record f { entry_points = or_default defaults f.entry_points })
      ∷ configure_frontends defaults fs

module _ {F B : Type 0} where
  -- `defaultConfigurationValues` on a configuration that is not nil.
  abbrev pub with_defaults :
      List Str → Option (List (Str × Frontend F)) → Configuration F B → Configuration F B
  with_defaults defaults none c = c
  with_defaults defaults (some fs) c = record {
    frontends = some (configure_frontends defaults fs);
    backends = configure_backends c.backends;
  }

  unfoldable pub default_configuration_values : List Str → Configuration F B → Configuration F B
  default_configuration_values defaults c = with_defaults defaults c.frontends c
