-- ===== src/Server/Wiring/Frontends.antt =====
-- server/server.go, `loadConfig`: the loops over providers, frontends and entry points. The order of
-- the routes, the certificates and the start of the health checks at its end are left out.
use fabric8_oso_proxy.Base.{
  ℕ, Bool, true, false, Option, none, some, List, [], ◌∷◌, ◌++◌, map, ◌==◌, if◌then◌else◌,
}
use fabric8_oso_proxy.Base.Maps.{lookup, insert}
use fabric8_oso_proxy.Base.Run.{M, Run, pure, ◌>>=◌, ◌>>◌, done, fail, panic, skipped}
use fabric8_oso_proxy.Base.Strings.{Str, equal}
use fabric8_oso_proxy.Middlewares.ErrorPages
use fabric8_oso_proxy.Middlewares.ErrorPages.{post_load}
use fabric8_oso_proxy.Middlewares.Rewrite.Wired.{new_route}
use fabric8_oso_proxy.Rules.Routes.{Strings, Mux, ServerRoute, get_route}
use fabric8_oso_proxy.Server.Wiring.{
  Middleware, Redirect, Frontend, Configuration, Global, Libraries, Link, fixed, Chain, Entry,
  Loading, state_or_skip,
}
use fabric8_oso_proxy.Server.Wiring.Backends.{build_redirect_handler}
use fabric8_oso_proxy.Server.Wiring.Chains.{backend_key, create_chain}

module _ {R T : Type 0} where
  abbrev pub or_empty : Option (List (Entry R T)) → List (Entry R T)
  or_empty none = []
  or_empty (some es) = es

  -- The routes of an entry point.
  abbrev pub routes_at : Str → Loading R T → List (Entry R T)
  routes_at e s = or_empty (lookup e s.routers)

  -- `NewRoute()`, with what becomes of the route in the rest of the loop's body.
  unfoldable pub add_entry : Str → Entry R T → Loading R T → Loading R T
  add_entry e x s = record s { routers = insert e (routes_at e s ++ x ∷ []) s.routers }

  abbrev pub keep_chain : Str → Chain R → M (Loading R T) (Chain R)
  keep_chain key ch s = done ch (record s { backends = insert key ch s.backends })

  abbrev pub keep_redirect : Str → Option (Middleware R) → M (Loading R T) (List (Link R))
  keep_redirect e none s = fail skipped s
  keep_redirect e (some m) s =
      done (fixed m ∷ []) (record s { redirect_handlers = insert e m s.redirect_handlers })

  abbrev pub known_redirect :
      Str → Option (Middleware R) → Option (Middleware R) → M (Loading R T) (List (Link R))
  known_redirect e (some m) built s = done (fixed m ∷ []) s
  known_redirect e none built s = keep_redirect e built s

  abbrev pub chain_or : Option (Chain R) → M (Loading R T) (Chain R) → M (Loading R T) (Chain R)
  chain_or (some ch) create s = done ch s
  chain_or none create s = create s

module _ {R T D B : Type 0} (lib : Libraries R T D B) (global : Global) where
  -- The redirect of the entry point, made once for all its frontends.
  unfoldable pub entry_redirect : Str → Option Redirect → M (Loading R T) (List (Link R))
  entry_redirect e none s = done [] s
  entry_redirect e (some opt) s =
      if equal e opt.entry_point
      then done [] s
      else known_redirect e (lookup e s.redirect_handlers) (build_redirect_handler lib global opt) s

  abbrev pub entry_redirect_of : Str → Option (Option Redirect) → M (Loading R T) (List (Link R))
  entry_redirect_of e none = pure []
  entry_redirect_of e (some opt) = entry_redirect e opt

  abbrev pub chain_for :
      Str → Configuration D B → Str → Frontend D → List (Link R) → M (Loading R T) (Chain R)
  chain_for p c e f links s =
      let key = backend_key e p f.backend in
      chain_or (lookup key s.backends) (create_chain lib global p c e f links >>= keep_chain key) s

  -- The chain of the backend, made once for an entry point and a provider.
  unfoldable pub backend_chain :
      Str → Configuration D B → Str → Frontend D → M (Loading R T) (Chain R)
  backend_chain p c e f = entry_redirect_of e (lookup e global.entry_points) >>= chain_for p c e f

module _ {T : Type 0} (l : Strings) (mux : Mux T) where
  -- The loop over `frontend.Routes`.
  unfoldable pub add_routes : List (Str × Str) → M (ServerRoute T) (Unit {0})
  add_routes [] = pure tt
  add_routes ((_, rule) ∷ rules) = get_route l mux rule >> add_routes rules

abbrev pub is_defined : Option (Option Redirect) → Bool
is_defined none = false
is_defined (some _) = true

abbrev pub is_built : {R : Type 0} → Option (Chain R) → Bool
is_built none = false
is_built (some _) = true

module _ (global : Global) where
  -- The source also writes this list back into the frontend.
  unfoldable pub defined_entry_points : List Str → List Str
  defined_entry_points [] = []
  defined_entry_points (e ∷ es) =
      if is_defined (lookup e global.entry_points)
      then e ∷ defined_entry_points es
      else defined_entry_points es

module _ {R T : Type 0} (global : Global) where
  -- `buildEntryPoints`, and the empty maps.
  unfoldable pub no_routes : Loading R T
  no_routes = record {
    routers = map (λ ep. (ep.0, [])) global.entry_points;
    redirect_handlers = [];
    backends = [];
    health_checks = [];
    error_pages = [];
  }

abbrev pub posted : {R : Type 0} → List (Str × Chain R) → ErrorPages.Handler → ErrorPages.Handler
posted backends h = post_load (is_built (lookup h.backend_name backends)) h

module _ {R T : Type 0} where
  abbrev pub post_load_all : M (Loading R T) (Unit {0})
  post_load_all s = done tt (record s { error_pages = map (posted s.backends) s.error_pages })

module _ {R T D B : Type 0} (l : Strings) (mux : Mux T) (lib : Libraries R T D B)
    (global : Global) where
  abbrev pub prioritised : ℕ → ServerRoute T → ServerRoute T
  prioritised n r = if n == 0 then r else record r { route = mux.with_priority n r.route }

  abbrev pub handled :
      Str → Str → ℕ → ServerRoute T → Run (Loading R T) (Chain R) → Run (Loading R T) (Unit {0})
  handled e name priority r (done ch s) =
      done tt
        (add_entry e (record { name = name; route = prioritised priority r; handler = some ch }) s)
  handled e name priority r (fail err s) =
      fail err (add_entry e (record { name = name; route = r; handler = none }) s)
  handled e name priority r (panic s) =
      panic (add_entry e (record { name = name; route = r; handler = none }) s)

  -- A route whose rules are read, or a route that is left behind.
  abbrev pub routed :
      Str
      → Str
      → ℕ
      → Run (ServerRoute T) (Unit {0})
      → M (Loading R T) (Chain R)
      → M (Loading R T) (Unit {0})
  routed e name priority (done _ r) chain s = handled e name priority r (chain s)
  routed e name priority (fail err r) chain s =
      fail skipped (add_entry e (record { name = name; route = r; handler = none }) s)
  routed e name priority (panic r) chain s =
      panic (add_entry e (record { name = name; route = r; handler = none }) s)

  -- The body of the loop over the entry points of a frontend.
  unfoldable pub wire_entry_point :
      Str → Configuration D B → Str → Frontend D → Str → M (Loading R T) (Unit {0})
  wire_entry_point p c name f e =
      routed e name f.priority (add_routes l mux f.routes (new_route (lib.new_route name)))
        (backend_chain lib global p c e f)

  unfoldable pub wire_entry_points :
      Str → Configuration D B → Str → Frontend D → List Str → M (Loading R T) (Unit {0})
  wire_entry_points p c name f [] = pure tt
  wire_entry_points p c name f (e ∷ es) =
      wire_entry_point p c name f e >> wire_entry_points p c name f es

  -- The body of the loop over the frontends; one without entry points is skipped.
  unfoldable pub load_frontend :
      Str → Configuration D B → Str → Frontend D → M (Loading R T) (Unit {0})
  load_frontend p c name f s =
      state_or_skip (wire_entry_points p c name f (defined_entry_points global f.entry_points) s)

  unfoldable pub load_frontends :
      Str → Configuration D B → List (Str × Frontend D) → M (Loading R T) (Unit {0})
  load_frontends p c [] = pure tt
  load_frontends p c ((name, f) ∷ fs) = load_frontend p c name f >> load_frontends p c fs

  unfoldable pub load_providers : List (Str × Configuration D B) → M (Loading R T) (Unit {0})
  load_providers [] = pure tt
  load_providers ((p, c) ∷ cs) = load_frontends p c c.frontends >> load_providers cs

  -- `loadConfig`
  unfoldable pub load_config : List (Str × Configuration D B) → Run (Loading R T) (Unit {0})
  load_config configurations = (load_providers configurations >> post_load_all) (no_routes global)
