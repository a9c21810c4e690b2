-- ===== src/Server/Wiring/Own.antt =====
-- server/server.go, `loadConfig`: whose middlewares a request for a frontend passes.
use fabric8_oso_proxy.Base.{Option, none, some, List, ◌≡◌, All}
use mathlib.Core.Path.{subst}
use fabric8_oso_proxy.Base.Maps.{lookup}
use fabric8_oso_proxy.Base.Run.{Run, state_of}
use fabric8_oso_proxy.Base.Strings.{Str}
use fabric8_oso_proxy.Middlewares.ErrorPages
use fabric8_oso_proxy.Rules.Routes.{Strings, Mux}
use fabric8_oso_proxy.Server.Wiring.{Configuration, Global, Libraries, Chain, Entry, Loading}
use fabric8_oso_proxy.Server.Wiring.Frontends.{routes_at, load_config}
use fabric8_oso_proxy.Server.Wiring.Guarded.{IsGuarded, made-IsGuarded}
use fabric8_oso_proxy.Server.Wiring.Loaded.{
  Place, IsPlace, key_of, IsBuilt, IsWired, WiredEntry, All-map,
}
use fabric8_oso_proxy.Server.Wiring.Loops.{IsRegistered, load_config-IsEnd}
use fabric8_oso_proxy.Server.Wiring.Made.{IsMadeFor}

-- Places with the same key are the same frontend of the same provider on the same entry point.
abbrev pub HasOwnKeys : {D B : Type 0} → List (Str × Configuration D B) → Type 0
HasOwnKeys {D} {B} configs =
    (x y : Place D B) → IsPlace configs x → IsPlace configs y → key_of x ≡ key_of y → x ≡ y

module _ {R T D B : Type 0} (lib : Libraries R T D B) (global : Global)
    (configs : List (Str × Configuration D B)) (registered : List ErrorPages.Handler) where
  -- A chain is made for a frontend, and has its guards.
  pub record IsChainOf (x : Place D B) (ch : Chain R) : Type 0 where
    pub made : IsMadeFor lib global registered x.provider x.config x.entry_point x.frontend ch
    pub guarded : IsGuarded lib x.frontend ch.links

  -- The chain of a frontend's route has the middlewares of a frontend with the same key.
  pub record IsShared (e name : Str) (ch : Chain R) : Type 0 where
    pub place : Place D B
    pub is_place : IsPlace configs place
    pub entered : place.entry_point ≡ e
    pub named : place.name ≡ name
    pub first : Place D B
    pub is_first : IsPlace configs first
    pub keyed : key_of first ≡ key_of place
    pub chain : IsChainOf first ch

  abbrev pub SharedOrNone : Str → Str → Option (Chain R) → Type 0
  SharedOrNone e name none = Unit
  SharedOrNone e name (some ch) = IsShared e name ch

  shared :
      (backends : List (Str × Chain R)) (e name : Str) (handler : Option (Chain R))
      → ((key : Str) → IsBuilt lib global configs registered key (lookup key backends))
      → IsWired lib global configs backends e name handler
      → SharedOrNone e name handler
  shared backends e name none built w = tt
  shared backends e name (some ch) built w =
      let b =
        subst (IsBuilt lib global configs registered (key_of w.place)) w.found
          (built (key_of w.place)) in
      let x = b.place in
      record {
        place = w.place;
        is_place = w.is_place;
        entered = w.entered;
        named = w.named;
        first = b.place;
        is_first = b.is_place;
        keyed = b.keyed;
        chain = record {
          made = b.made;
          guarded =
              made-IsGuarded lib global registered x.provider x.config x.entry_point x.frontend ch
                b.made;
        };
      }

  -- The chain of a frontend's route has that frontend's middlewares.
  pub record IsOwn (e name : Str) (ch : Chain R) : Type 0 where
    pub place : Place D B
    pub is_place : IsPlace configs place
    pub entered : place.entry_point ≡ e
    pub named : place.name ≡ name
    pub chain : IsChainOf place ch

  abbrev pub OwnOrNone : Str → Str → Option (Chain R) → Type 0
  OwnOrNone e name none = Unit
  OwnOrNone e name (some ch) = IsOwn e name ch

  own :
      (e name : Str) (handler : Option (Chain R))
      → HasOwnKeys configs
      → SharedOrNone e name handler
      → OwnOrNone e name handler
  own e name none keys s = tt
  own e name (some ch) keys s = record {
    place = s.place;
    is_place = s.is_place;
    entered = s.entered;
    named = s.named;
    chain =
        subst (λ x. IsChainOf x ch) (keys s.first s.place s.is_first s.is_place s.keyed) s.chain;
  }

-- The error pages that a run of `loadConfig` registers, with what holds for every route of an
-- entry point.
abbrev pub AllRoutes :
    {R T : Type 0}
    → Str
    → Run (Loading R T) (Unit {0})
    → (List ErrorPages.Handler → Entry R T → Type 0)
    → Type 0
AllRoutes e r P =
    (registered : List ErrorPages.Handler) × IsRegistered r registered
    × All (P registered) (routes_at e (state_of r))

module _ {R T D B : Type 0} (l : Strings) (mux : Mux T) (lib : Libraries R T D B) (global : Global)
    (configs : List (Str × Configuration D B)) where
  -- Whatever the configurations are, in the end of `loadConfig`, also if it panics, every route
  -- of an entry point that has a handler belongs to a frontend of that name on that entry
  -- point, and its chain is made for a frontend, maybe another one, with the same key of a
  -- backend: it has that one's redirect, error pages, links, balancer and limits, with the
  -- white list and the authenticator of that one where they could be built.
  pub load_config-IsShared :
      (e : Str)
      → AllRoutes e
          (load_config l mux lib global configs)
          (λ registered x. SharedOrNone lib global configs registered e x.name x.handler)
  load_config-IsShared e =
      let h = load_config-IsEnd l mux lib global configs in
      let s = state_of (load_config l mux lib global configs) in
      (
        h.registered,
        h.is_registered,
        All-map (WiredEntry lib global configs s.backends e)
            (λ x. SharedOrNone lib global configs h.registered e x.name x.handler) (routes_at e s)
            (λ x w.
              shared lib global configs h.registered s.backends e x.name x.handler h.holds.built w)
            (h.holds.wired e),
      )

  -- If no two places, which are frontends of a provider on one of their entry points, share the
  -- key of a backend, which is the text of the entry point, the provider and the backend one
  -- after the other, then in the end of `loadConfig`, also if it panics, every route of an
  -- entry point that has a handler belongs to a frontend of that name on that entry point, and
  -- its chain is made for that frontend: the entry point's redirect, unless it leads to the
  -- entry point itself, the error pages with the places of their handlers in `errorPages`, and
  -- the frontend's own links stand in front of the balancer of its backend, with the configured
  -- limits of rate and connections, retries, buffer and circuit breaker. Its white list is
  -- among the links if it has one that could be built, and the authenticator of its users, if
  -- it could be built, is the last of them.
  pub load_config-IsOwn :
      HasOwnKeys configs
      → (e : Str)
      → AllRoutes e
          (load_config l mux lib global configs)
          (λ registered x. OwnOrNone lib global configs registered e x.name x.handler)
  load_config-IsOwn keys e =
      let (registered, is_registered, all) = load_config-IsShared e in
      (
        registered,
        is_registered,
        All-map (λ x. SharedOrNone lib global configs registered e x.name x.handler)
            (λ x. OwnOrNone lib global configs registered e x.name x.handler)
            (routes_at e (state_of (load_config l mux lib global configs)))
            (λ x s. own lib global configs registered e x.name x.handler keys s) all,
      )
