-- ===== src/Server/Wiring/Reused.antt =====
-- server/server.go, `loadConfig`: frontends that share a backend, and middlewares that are not built.
use fabric8_oso_proxy.Base.{ℕ, none, some, List, [], ◌∷◌, ◌≡◌, refl, sym, ap, ◌∙◌}
use mathlib.Core.Path.{ap₂}
use fabric8_oso_proxy.Base.Maps.{lookup}
use fabric8_oso_proxy.Base.Run.{M, Run, done, fail, panic, after, state_of}
use fabric8_oso_proxy.Base.Strings.{Str}
use fabric8_oso_proxy.Middlewares.Rewrite.Wired.{new_route}
use fabric8_oso_proxy.Rules.Routes.{Strings, Mux, ServerRoute}
use fabric8_oso_proxy.Server.Wiring.{
  Frontend, Configuration, Global, Libraries, Link, Chain, Loading,
}
use fabric8_oso_proxy.Server.Wiring.Backends.{build_ip_white_lister, frontend_links, auth_links}
use fabric8_oso_proxy.Server.Wiring.Chains.{
  backend_key, create_balancer, limited_chain, create_chain,
}
use fabric8_oso_proxy.Server.Wiring.Frontends.{
  entry_redirect_of, chain_for, backend_chain, handled, routed, wire_entry_point, add_routes,
}
use fabric8_oso_proxy.Server.Wiring.Kept.{entry_redirect_of-backends}

module _ {R T D B : Type 0} (lib : Libraries R T D B) (global : Global) (p : Str)
    (c : Configuration D B) where
  chain_for_known :
      (e : Str) (f : Frontend D) (links : List (Link R)) (s : Loading R T) (ch : Chain R)
      → lookup (backend_key e p f.backend) s.backends ≡ some ch
      → chain_for lib global p c e f links s ≡ done ch s
  chain_for_known e f links s ch h = rw h refl

  after_known :
      (e : Str) (f g : Frontend D) (s : Loading R T) (ch : Chain R)
      (r : Run (Loading R T) (List (Link R)))
      → f.backend ≡ g.backend
      → lookup (backend_key e p f.backend) s.backends ≡ some ch
      → (state_of r).backends ≡ s.backends
      → after r (chain_for lib global p c e f) ≡ after r (chain_for lib global p c e g)
  after_known e f g s ch (done links t) same h k =
      let known = ap (lookup (backend_key e p f.backend)) k ∙ h in
      chain_for_known e f links t ch known
      ∙ sym (
          chain_for_known e g links t ch
            (ap (λ b. lookup (backend_key e p b) t.backends) (sym same) ∙ known))
  after_known e f g s ch (fail x t) same h k = refl
  after_known e f g s ch (panic t) same h k = refl

  backend_chain_known :
      (e : Str) (f g : Frontend D) (s : Loading R T) (ch : Chain R)
      → f.backend ≡ g.backend
      → lookup (backend_key e p f.backend) s.backends ≡ some ch
      → backend_chain lib global p c e f s ≡ backend_chain lib global p c e g s
  unfolding backend_chain
  backend_chain_known e f g s ch same h =
      let opt = lookup e global.entry_points in
      after_known e f g s ch (entry_redirect_of lib global e opt s) same h
        (entry_redirect_of-backends lib global e opt s)

  unprotected_links :
      (e : Str) (f : Frontend D)
      → build_ip_white_lister lib f.white_list f.whitelist_source_range ≡ none
      → lib.new_authenticator f.basic_auth ≡ none
      → frontend_links lib global e f
        ≡ frontend_links lib global e
            (record f { white_list = none; whitelist_source_range = []; basic_auth = [] })
  unfolding frontend_links build_ip_white_lister
  unprotected_links e f no_list no_auth = rw (no_list, no_users f.basic_auth no_auth) refl
    where
      no_users : (users : List Str) → lib.new_authenticator users ≡ none → auth_links lib users ≡ []
      no_users [] h = refl
      no_users (u ∷ us) h = rw h refl

  -- If the white list of a frontend cannot be built, and its users neither, then the chain of
  -- its backend is built all the same, with the effect that it has for the frontend without
  -- white list and users.
  pub create_chain-unprotected :
      (e : Str) (f : Frontend D) (entry_links : List (Link R)) (s : Loading R T)
      → build_ip_white_lister lib f.white_list f.whitelist_source_range ≡ none
      → lib.new_authenticator f.basic_auth ≡ none
      → create_chain lib global p c e f entry_links s
        ≡ create_chain lib global p c e
            (record f { white_list = none; whitelist_source_range = []; basic_auth = [] })
            entry_links
            s
  unfolding create_chain create_balancer limited_chain
  create_chain-unprotected e f entry_links s no_list no_auth =
      rw (unprotected_links e f no_list no_auth) refl

module _ {R T D B : Type 0} (l : Strings) (mux : Mux T) (lib : Libraries R T D B)
    (global : Global) where
  routed_same :
      (e name : Str) (priority : ℕ) (r : Run (ServerRoute T) (Unit {0}))
      (chain chain' : M (Loading R T) (Chain R)) (s : Loading R T)
      → chain s ≡ chain' s
      → routed l mux lib global e name priority r chain s
        ≡ routed l mux lib global e name priority r chain' s
  routed_same e name priority (done _ route) chain chain' s same =
      ap (handled l mux lib global e name priority route) same
  routed_same e name priority (fail x route) chain chain' s same = refl
  routed_same e name priority (panic route) chain chain' s same = refl

  -- Once a backend has a chain for an entry point and a provider, a frontend is wired to it
  -- alike whatever else it asks for: two frontends with the same rules, priority and backend
  -- have the same effect, so the white list, the users, the redirect, the headers and the
  -- limits of the later one are not applied.
  pub wire_entry_point-reused :
      (p : Str) (c : Configuration D B) (name e : Str) (f g : Frontend D) (s : Loading R T)
      (ch : Chain R)
      → f.routes ≡ g.routes
      → f.priority ≡ g.priority
      → f.backend ≡ g.backend
      → lookup (backend_key e p f.backend) s.backends ≡ some ch
      → wire_entry_point l mux lib global p c name f e s
        ≡ wire_entry_point l mux lib global p c name g e s
  unfolding wire_entry_point
  wire_entry_point-reused p c name e f g s ch rules priority backend h =
      routed_same e name f.priority (add_routes l mux f.routes (new_route (lib.new_route name)))
        (backend_chain lib global p c e f) (backend_chain lib global p c e g) s
        (backend_chain_known lib global p c e f g s ch backend h)
      ∙ ap₂
          (λ n rs.
            routed l mux lib global e name n (add_routes l mux rs (new_route (lib.new_route name)))
              (backend_chain lib global p c e g) s)
          priority rules
