-- ===== src/Server/Defaults/Stable.antt =====
-- server/server.go: what the defaults make of a balancer, and that they are given once.
use fabric8_oso_proxy.Base.{
  Bool, true, false, Option, none, some, List, [], ◌∷◌, ◌≡◌, refl, sym, ap, ◌∙◌,
}
use fabric8_oso_proxy.Base.Strings.{Str, codes, equal}
use fabric8_oso_proxy.Server.Defaults.{
  Stickiness, LoadBalancer, Frontend, Backend, Configuration, LoadBalancerMethod, wrr,
  new_load_balancer_method, stickiness_or, stickiness_of, by_method, configure_load_balancer,
  configure_backends, or_default, configure_frontends, with_defaults, default_configuration_values,
}

-- What a configured balancer is: its method is known, and a sticky one has a cookie.
pub record IsConfigured (lb : LoadBalancer) : Type 0 where
  pub known : (m : LoadBalancerMethod) × (new_load_balancer_method (some lb) ≡ some m)
  pub cookie : lb.stickiness ≡ stickiness_or lb.stickiness lb.sticky

stickiness_twice :
    (o : Option Stickiness) (b : Bool) → stickiness_or o b ≡ stickiness_or (stickiness_or o b) b
stickiness_twice none true = refl
stickiness_twice none false = refl
stickiness_twice (some s) b = refl

stickiness_plain : (o : Option Stickiness) → o ≡ stickiness_or o false
stickiness_plain none = refl
stickiness_plain (some s) = refl

by_method-IsConfigured :
    (m : Option LoadBalancerMethod) (lb : Option LoadBalancer)
    → new_load_balancer_method lb ≡ m
    → (c : LoadBalancer) × (by_method m lb ≡ some c) × IsConfigured c
unfolding new_load_balancer_method equal
by_method-IsConfigured (some m) none e = cc
by_method-IsConfigured (some m) (some lb) e = (
  record lb { stickiness = stickiness_or lb.stickiness lb.sticky },
  refl,
  record { known = (m, e); cookie = stickiness_twice lb.stickiness lb.sticky },
)
by_method-IsConfigured none lb e = (
  record { method = codes "wrr"; sticky = false; stickiness = stickiness_of lb },
  refl,
  record { known = (wrr, refl); cookie = stickiness_plain (stickiness_of lb) },
)

pub configure_load_balancer-IsConfigured :
    (lb : Option LoadBalancer)
    → (c : LoadBalancer) × (configure_load_balancer lb ≡ some c) × IsConfigured c
unfolding configure_load_balancer
configure_load_balancer-IsConfigured lb =
    by_method-IsConfigured (new_load_balancer_method lb) lb refl

-- A configured balancer stays as it is.
configured_stays : (c : LoadBalancer) → IsConfigured c → configure_load_balancer (some c) ≡ some c
unfolding configure_load_balancer
configured_stays c i =
    let (m, e) = i.known in
    ap (λ x. by_method x (some c)) e ∙ (λ j. some (record c { stickiness = sym i.cookie j }))

configure_twice :
    (lb : Option LoadBalancer)
    → configure_load_balancer (configure_load_balancer lb) ≡ configure_load_balancer lb
configure_twice lb =
    let (c, e, i) = configure_load_balancer-IsConfigured lb in
    ap configure_load_balancer e ∙ configured_stays c i ∙ sym e

configure_backends_twice :
    {B : Type 0} (bs : List (Str × Backend B))
    → configure_backends (configure_backends bs) ≡ configure_backends bs
unfolding configure_backends
configure_backends_twice [] = refl
configure_backends_twice ((name, b) ∷ bs) = λ j.
    (name, record b { load_balancer = configure_twice b.load_balancer j })
    ∷ configure_backends_twice bs j

or_default_twice : (d ps : List Str) → or_default d (or_default d ps) ≡ or_default d ps
or_default_twice [] [] = refl
or_default_twice (x ∷ d) [] = refl
or_default_twice d (p ∷ ps) = refl

configure_frontends_twice :
    {F : Type 0} (d : List Str) (fs : List (Str × Frontend F))
    → configure_frontends d (configure_frontends d fs) ≡ configure_frontends d fs
unfolding configure_frontends
configure_frontends_twice d [] = refl
configure_frontends_twice d ((name, f) ∷ fs) = λ j.
    (name, record f { entry_points = or_default_twice d f.entry_points j })
    ∷ configure_frontends_twice d fs j

with_defaults_twice :
    {F B : Type 0} (d : List Str) (o : Option (List (Str × Frontend F))) (c : Configuration F B)
    → c.frontends ≡ o
    → default_configuration_values d (with_defaults d o c) ≡ with_defaults d o c
unfolding default_configuration_values
with_defaults_twice d none c e = ap (λ x. with_defaults d x c) e
with_defaults_twice d (some fs) c e = λ j. record {
  frontends = some (configure_frontends_twice d fs j);
  backends = configure_backends_twice c.backends j;
}

-- A second run of the default values changes nothing.
pub default_configuration_values-idempotent :
    {F B : Type 0} (defaults : List Str) (c : Configuration F B)
    → default_configuration_values defaults (default_configuration_values defaults c)
      ≡ default_configuration_values defaults c
unfolding default_configuration_values
default_configuration_values-idempotent d c = with_defaults_twice d c.frontends c refl

-- The balancer of every backend.
abbrev pub AllConfigured : {B : Type 0} → List (Str × Backend B) → Type 0
AllConfigured [] = Unit
AllConfigured ((_, b) ∷ bs) =
    ((c : LoadBalancer) × (b.load_balancer ≡ some c) × IsConfigured c) × AllConfigured bs

-- Every backend ends with a valid balancer.
pub configure_backends-AllConfigured :
    {B : Type 0} (bs : List (Str × Backend B)) → AllConfigured (configure_backends bs)
unfolding configure_backends
configure_backends-AllConfigured [] = tt
configure_backends-AllConfigured ((name, b) ∷ bs) =
    (configure_load_balancer-IsConfigured b.load_balancer, configure_backends-AllConfigured bs)
