-- ===== src/Server/Wiring/Loops.antt =====
-- server/server.go, `loadConfig`: its loops, and what holds in the end.
use fabric8_oso_proxy.Base.{
  Bool, true, false, Bool-cases, if◌then◌else◌, Option, List, [], ◌∷◌, ◌≡◌, inl, inr, refl, All,
  map,
}
use mathlib.Core.List.{Memᴰ}
use fabric8_oso_proxy.Base.Maps.{lookup}
use fabric8_oso_proxy.Base.Run.{M, Run, done, fail, panic, after, state_of}
use fabric8_oso_proxy.Base.Strings.{Str, equal}
use fabric8_oso_proxy.Middlewares.ErrorPages
use fabric8_oso_proxy.Rules.Routes.{Strings, Mux}
use fabric8_oso_proxy.Server.Wiring.{
  Redirect, Frontend, Configuration, Global, Libraries, Loading, state_or_skip,
}
use fabric8_oso_proxy.Server.Wiring.Frontends.{
  or_empty, wire_entry_point, wire_entry_points, is_defined, defined_entry_points, load_frontend,
  load_frontends, load_providers, no_routes, posted, post_load_all, load_config,
}
use fabric8_oso_proxy.Server.Wiring.Found.{wire_entry_point-IsLoaded}
use fabric8_oso_proxy.Server.Wiring.Loaded.{IsPlace, IsLoaded, WiredEntry, Holds}

module _ {R T D B : Type 0} (lib : Libraries R T D B) (global : Global)
    (configs : List (Str × Configuration D B)) where
  then-IsLoaded :
      {A C : Type 0} (r : Run (Loading R T) A) (f : A → M (Loading R T) C)
      → IsLoaded lib global configs (state_of r)
      → ((a : A) (t : Loading R T)
          → IsLoaded lib global configs t
          → IsLoaded lib global configs (state_of (f a t)))
      → IsLoaded lib global configs (state_of (after r f))
  then-IsLoaded (done a t) f h k = k a t h
  then-IsLoaded (fail e t) f h k = h
  then-IsLoaded (panic t) f h k = h

  state_or_skip-IsLoaded :
      {A : Type 0} (r : Run (Loading R T) A)
      → IsLoaded lib global configs (state_of r)
      → IsLoaded lib global configs (state_of (state_or_skip r))
  state_or_skip-IsLoaded (done a t) h = h
  state_or_skip-IsLoaded (fail e t) h = h
  state_or_skip-IsLoaded (panic t) h = h

  -- No entry point has a route yet.
  no_routes_wired :
      (eps : List (Str × Option Redirect)) (e : Str)
      → All
          (WiredEntry lib global configs [] e)
          (or_empty {R = R} {T = T} (lookup e (map (λ ep. (ep.0, [])) eps)))
  unfolding lookup
  no_routes_wired [] e = tt
  no_routes_wired ((d, opt) ∷ eps) e = elim (Bool-cases (equal d e)) [
    | inl same ↦ rw same tt
    | inr other ↦ rw other (no_routes_wired eps e)
  ]

-- The error pages that a run of `loadConfig` registers, as they are before `PostLoad`.
abbrev pub IsRegistered :
    {R T : Type 0} → Run (Loading R T) (Unit {0}) → List ErrorPages.Handler → Type 0
IsRegistered (done _ s) registered = s.error_pages ≡ map (posted s.backends) registered
IsRegistered (fail _ s) registered = s.error_pages ≡ registered
IsRegistered (panic s) registered = s.error_pages ≡ registered

module _ {R T D B : Type 0} (lib : Libraries R T D B) (global : Global)
    (configs : List (Str × Configuration D B)) where
  pub record IsEnd (r : Run (Loading R T) (Unit {0})) : Type 0 where
    pub registered : List ErrorPages.Handler
    pub is_registered : IsRegistered r registered
    pub holds :
        Holds lib global configs
          (state_of r).routers
          (state_of r).backends
          (state_of r).redirect_handlers
          registered

  post_load_all-IsEnd :
      (r : Run (Loading R T) (Unit {0}))
      → IsLoaded lib global configs (state_of r)
      → IsEnd (after r (λ _. post_load_all))
  post_load_all-IsEnd (done _ s) h = record {
    registered = s.error_pages;
    is_registered = refl;
    holds = h;
  }
  post_load_all-IsEnd (fail e s) h = record {
    registered = s.error_pages;
    is_registered = refl;
    holds = h;
  }
  post_load_all-IsEnd (panic s) h = record {
    registered = s.error_pages;
    is_registered = refl;
    holds = h;
  }

defined_entry_points_mem :
    (global : Global) (e : Str) (es : List Str)
    → Memᴰ e (defined_entry_points global es)
    → Memᴰ e es
unfolding defined_entry_points
defined_entry_points_mem global e [] m = m
defined_entry_points_mem global e (d ∷ es) m =
    kept (is_defined (lookup d global.entry_points)) (defined_entry_points_mem global e es) m
  where
    kept :
        (b : Bool)
        → (Memᴰ e (defined_entry_points global es) → Memᴰ e es)
        → Memᴰ e (if b then d ∷ defined_entry_points global es else defined_entry_points global es)
        → Memᴰ e (d ∷ es)
    kept true below (Memᴰ.head same) = Memᴰ.head same
    kept true below (Memᴰ.tail later) = Memᴰ.tail (below later)
    kept false below later = Memᴰ.tail (below later)

module _ {R T D B : Type 0} (l : Strings) (mux : Mux T) (lib : Libraries R T D B) (global : Global)
    (configs : List (Str × Configuration D B)) where
  wire_entry_points-IsLoaded :
      (p : Str) (c : Configuration D B) (name : Str) (f : Frontend D) (es : List Str)
      → ((e : Str)
          → Memᴰ e es
          → IsPlace configs
              (record { provider = p; config = c; name = name; frontend = f; entry_point = e }))
      → (s : Loading R T) → IsLoaded lib global configs s
      → IsLoaded lib global configs (state_of (wire_entry_points l mux lib global p c name f es s))
  unfolding wire_entry_points
  wire_entry_points-IsLoaded p c name f [] places s h = h
  wire_entry_points-IsLoaded p c name f (e ∷ es) places s h =
      then-IsLoaded lib global configs (wire_entry_point l mux lib global p c name f e s)
        (λ _. wire_entry_points l mux lib global p c name f es)
        (wire_entry_point-IsLoaded l mux lib global configs
          (record { provider = p; config = c; name = name; frontend = f; entry_point = e }) s
          (places e (Memᴰ.head refl)) h)
        (λ _ t k. wire_entry_points-IsLoaded p c name f es (λ d m. places d (Memᴰ.tail m)) t k)

  load_frontend-IsLoaded :
      (p : Str) (c : Configuration D B) (name : Str) (f : Frontend D)
      → Memᴰ (p, c) configs
      → Memᴰ (name, f) c.frontends
      → (s : Loading R T) → IsLoaded lib global configs s
      → IsLoaded lib global configs (state_of (load_frontend l mux lib global p c name f s))
  unfolding load_frontend
  load_frontend-IsLoaded p c name f provided listed s h =
      state_or_skip-IsLoaded lib global configs
        (wire_entry_points l mux lib global p c name f (defined_entry_points global f.entry_points)
          s)
        (wire_entry_points-IsLoaded p c name f (defined_entry_points global f.entry_points)
          (λ e m. record {
            provided = provided;
            listed = listed;
            entered = defined_entry_points_mem global e f.entry_points m;
          })
          s h)

  load_frontends-IsLoaded :
      (p : Str) (c : Configuration D B) (fs : List (Str × Frontend D))
      → Memᴰ (p, c) configs
      → ((x : Str × Frontend D) → Memᴰ x fs → Memᴰ x c.frontends)
      → (s : Loading R T) → IsLoaded lib global configs s
      → IsLoaded lib global configs (state_of (load_frontends l mux lib global p c fs s))
  unfolding load_frontends
  load_frontends-IsLoaded p c [] provided listed s h = h
  load_frontends-IsLoaded p c ((name, f) ∷ fs) provided listed s h =
      then-IsLoaded lib global configs (load_frontend l mux lib global p c name f s)
        (λ _. load_frontends l mux lib global p c fs)
        (load_frontend-IsLoaded p c name f provided (listed (name, f) (Memᴰ.head refl)) s h)
        (λ _ t k. load_frontends-IsLoaded p c fs provided (λ x m. listed x (Memᴰ.tail m)) t k)

  load_providers-IsLoaded :
      (cs : List (Str × Configuration D B))
      → ((x : Str × Configuration D B) → Memᴰ x cs → Memᴰ x configs)
      → (s : Loading R T) → IsLoaded lib global configs s
      → IsLoaded lib global configs (state_of (load_providers l mux lib global cs s))
  unfolding load_providers
  load_providers-IsLoaded [] provided s h = h
  load_providers-IsLoaded ((p, c) ∷ cs) provided s h =
      then-IsLoaded lib global configs (load_frontends l mux lib global p c c.frontends s)
        (λ _. load_providers l mux lib global cs)
        (load_frontends-IsLoaded p c c.frontends (provided (p, c) (Memᴰ.head refl)) (λ x m. m) s h)
        (λ _ t k. load_providers-IsLoaded cs (λ x m. provided x (Memᴰ.tail m)) t k)

  -- In the end the routes and the chains of `loadConfig` fit together.
  pub load_config-IsEnd : IsEnd lib global configs (load_config l mux lib global configs)
  unfolding load_config no_routes lookup
  load_config-IsEnd =
      post_load_all-IsEnd lib global configs
        (load_providers l mux lib global configs (no_routes global))
        (load_providers-IsLoaded configs (λ x m. m) (no_routes global)
          (record {
            built = λ key. tt;
            wired = no_routes_wired lib global configs global.entry_points;
            redirected = λ e. tt;
          }))
