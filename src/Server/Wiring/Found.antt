-- ===== src/Server/Wiring/Found.antt =====
-- server/server.go, `loadConfig`: the body of the loop over the entry points.
use fabric8_oso_proxy.Base.{
  none, some, List, [], ◌++◌, ◌≡◌, ◌≢◌, inl, inr, refl, sym, ap, ◌∙◌, Option, Option-cases,
  Bool-cases,
}
use mathlib.Core.List.{append-nil}
use fabric8_oso_proxy.Base.Maps.{lookup, lookup-insert_self}
use fabric8_oso_proxy.Base.Run.{Run, done, fail, panic, after, state_of}
use fabric8_oso_proxy.Base.Strings.{Str, equal, equal_iff}
use fabric8_oso_proxy.Rules.Routes.{Strings, Mux, ServerRoute}
use fabric8_oso_proxy.Server.Wiring.{
  Middleware, Redirect, Configuration, Global, Libraries, Link, Chain, Loading,
}
use fabric8_oso_proxy.Server.Wiring.Chains.{create_chain}
use fabric8_oso_proxy.Server.Wiring.Frontends.{
  keep_chain, known_redirect, entry_redirect, entry_redirect_of, chain_for, backend_chain, handled,
  routed, wire_entry_point,
}
use fabric8_oso_proxy.Server.Wiring.Backends.{build_redirect_handler}
use fabric8_oso_proxy.Server.Wiring.Created.{IsCreated, create_chain-IsCreated}
use fabric8_oso_proxy.Server.Wiring.Kept.{IsSame, create_chain-Leaves}
use fabric8_oso_proxy.Server.Wiring.Loaded.{
  Place, IsPlace, key_of, IsLoaded, IsRedirectOf, same-IsLoaded, insert-Holds, redirect-IsLoaded,
  add_entry-IsLoaded,
}
use fabric8_oso_proxy.Server.Wiring.Made.{IsEntryRedirect}

module _ {R T D B : Type 0} (lib : Libraries R T D B) (global : Global)
    (configs : List (Str × Configuration D B)) where
  -- How a search for the chain under a key ends.
  abbrev ChainFound : Str → Run (Loading R T) (Chain R) → Type 0
  ChainFound key (done ch s) = IsLoaded lib global configs s × (lookup key s.backends ≡ some ch)
  ChainFound key (fail e s) = IsLoaded lib global configs s
  ChainFound key (panic s) = IsLoaded lib global configs s

  -- The entry point's redirect, in front of a chain.
  abbrev pub IsRedirected : Str → List (Link R) → Type 0
  IsRedirected e links = IsEntryRedirect lib global e (lookup e global.entry_points) links

  created-ChainFound :
      (x : Place D B) (links : List (Link R)) (s : Loading R T) (r : Run (Loading R T) (Chain R))
      → IsPlace configs x
      → IsRedirected x.entry_point links
      → lookup (key_of x) s.backends ≡ none
      → IsLoaded lib global configs s
      → IsSame s (state_of r)
      → ((ch : Chain R) (t : Loading R T)
          → r ≡ done ch t
          → IsCreated lib global x.provider x.config x.entry_point x.frontend links ch s t)
      → ChainFound (key_of x) (after r (keep_chain (key_of x)))
  created-ChainFound x links s (done ch t) place redirect free h same created =
      let made = created ch t refl in
      (
        insert-Holds lib global configs t.routers t.backends t.redirect_handlers t.error_pages
            (key_of x) ch (ap (lookup (key_of x)) same.backends ∙ free)
            (record {
              place = x;
              is_place = place;
              keyed = refl;
              made = record {
                entry_links = links;
                is_redirect = redirect;
                before = s.error_pages;
                after = [];
                placed = made.pages ∙ ap (λ ps. s.error_pages ++ ps) (sym (append-nil _));
                links = made.links;
                is_last = made.is_last;
              };
            })
            (same-IsLoaded lib global configs same h),
        lookup-insert_self (key_of x) ch t.backends,
      )
  created-ChainFound x links s (fail e t) place redirect free h same created =
      same-IsLoaded lib global configs same h
  created-ChainFound x links s (panic t) place redirect free h same created =
      same-IsLoaded lib global configs same h

  chain_for-ChainFound :
      (x : Place D B) (links : List (Link R)) (s : Loading R T)
      → IsPlace configs x
      → IsRedirected x.entry_point links
      → IsLoaded lib global configs s
      → ChainFound
          (key_of x)
          (chain_for lib global x.provider x.config x.entry_point x.frontend links s)
  chain_for-ChainFound x links s place redirect h =
      let create = create_chain lib global x.provider x.config x.entry_point x.frontend links in
      elim (Option-cases (lookup (key_of x) s.backends)) [
        | inl free ↦ rw free (
            created-ChainFound x links s (create s) place redirect free h
              ((create_chain-Leaves lib global x.provider x.config x.entry_point x.frontend
                  links).same
                s)
              (λ ch t made.
                create_chain-IsCreated lib global x.provider x.config x.entry_point x.frontend links
                  ch s t made))
        | inr (ch, known) ↦ rw known (h, known)
      ]

  -- How making the redirect of an entry point ends.
  abbrev RedirectFound : Str → Run (Loading R T) (List (Link R)) → Type 0
  RedirectFound e (done links s) = IsLoaded lib global configs s × IsRedirected e links
  RedirectFound e (fail x s) = IsLoaded lib global configs s
  RedirectFound e (panic s) = IsLoaded lib global configs s

  known-RedirectFound :
      (e : Str) (opt : Redirect) (known built : Option (Middleware R)) (s : Loading R T)
      → lookup e global.entry_points ≡ some (some opt)
      → e ≢ opt.entry_point
      → build_redirect_handler lib global opt ≡ built
      → IsRedirectOf lib global configs e known
      → IsLoaded lib global configs s
      → RedirectFound e (known_redirect e known built s)
  known-RedirectFound e opt (some m) built s defined other made (opt', defined', made') h =
      let same : opt' ≡ opt = cc in
      let made'' : build_redirect_handler lib global opt ≡ some m = cc in
      (h, rw defined (inr (other, (m, made'', refl))))
  known-RedirectFound e opt none none s defined other made r h = h
  known-RedirectFound e opt none (some m) s defined other made r h = (
    redirect-IsLoaded lib global configs e m s (opt, defined, made) h,
    rw defined (inr (other, (m, made, refl))),
  )

  entry_redirect-RedirectFound :
      (e : Str) (o : Option (Option Redirect)) (s : Loading R T)
      → lookup e global.entry_points ≡ o
      → IsLoaded lib global configs s
      → RedirectFound e (entry_redirect_of lib global e o s)
  unfolding entry_redirect
  entry_redirect-RedirectFound e none s defined h = (h, rw defined refl)
  entry_redirect-RedirectFound e (some none) s defined h = (h, rw defined refl)
  entry_redirect-RedirectFound e (some (some opt)) s defined h =
      elim (Bool-cases (equal e opt.entry_point)) [
        | inl same ↦ rw same (h, rw defined (inl ((equal_iff e opt.entry_point).0 same, refl)))
        | inr differs ↦ rw differs (
            let other : e ≢ opt.entry_point =
              λ q. let t = (equal_iff e opt.entry_point).1 q in cc in
            known-RedirectFound e opt (lookup e s.redirect_handlers)
              (build_redirect_handler lib global opt) s defined other refl (h.redirected e) h)
      ]

  redirected-ChainFound :
      (x : Place D B) (r : Run (Loading R T) (List (Link R)))
      → IsPlace configs x
      → RedirectFound x.entry_point r
      → ChainFound
          (key_of x)
          (after r (chain_for lib global x.provider x.config x.entry_point x.frontend))
  redirected-ChainFound x (done links t) place (h, redirect) =
      chain_for-ChainFound x links t place redirect h
  redirected-ChainFound x (fail e t) place h = h
  redirected-ChainFound x (panic t) place h = h

  pub backend_chain-ChainFound :
      (x : Place D B) (s : Loading R T)
      → IsPlace configs x
      → IsLoaded lib global configs s
      → ChainFound
          (key_of x)
          (backend_chain lib global x.provider x.config x.entry_point x.frontend s)
  unfolding backend_chain
  backend_chain-ChainFound x s place h =
      let o = lookup x.entry_point global.entry_points in
      redirected-ChainFound x (entry_redirect_of lib global x.entry_point o s) place
        (entry_redirect-RedirectFound x.entry_point o s refl h)

module _ {R T D B : Type 0} (l : Strings) (mux : Mux T) (lib : Libraries R T D B) (global : Global)
    (configs : List (Str × Configuration D B)) where
  handled-IsLoaded :
      (x : Place D B) (route : ServerRoute T) (r : Run (Loading R T) (Chain R))
      → IsPlace configs x
      → ChainFound lib global configs (key_of x) r
      → IsLoaded lib global configs
          (state_of (handled l mux lib global x.entry_point x.name x.frontend.priority route r))
  handled-IsLoaded x route (done ch s) place (h, found) =
      add_entry-IsLoaded lib global configs x.entry_point _ s
        (record { place = x; is_place = place; entered = refl; named = refl; found = found }) h
  handled-IsLoaded x route (fail e s) place h =
      add_entry-IsLoaded lib global configs x.entry_point _ s tt h
  handled-IsLoaded x route (panic s) place h =
      add_entry-IsLoaded lib global configs x.entry_point _ s tt h

  routed-IsLoaded :
      (x : Place D B) (r : Run (ServerRoute T) (Unit {0})) (s : Loading R T)
      → IsPlace configs x
      → IsLoaded lib global configs s
      → IsLoaded lib global configs (
          state_of (
            routed l mux lib global x.entry_point x.name x.frontend.priority r
              (backend_chain lib global x.provider x.config x.entry_point x.frontend)
              s))
  routed-IsLoaded x (done _ route) s place h =
      handled-IsLoaded x route _ place (backend_chain-ChainFound lib global configs x s place h)
  routed-IsLoaded x (fail e route) s place h =
      add_entry-IsLoaded lib global configs x.entry_point _ s tt h
  routed-IsLoaded x (panic route) s place h =
      add_entry-IsLoaded lib global configs x.entry_point _ s tt h

  pub wire_entry_point-IsLoaded :
      (x : Place D B) (s : Loading R T)
      → IsPlace configs x
      → IsLoaded lib global configs s
      → IsLoaded lib global configs (
          state_of (
            wire_entry_point l mux lib global x.provider x.config x.name x.frontend x.entry_point
              s))
  unfolding wire_entry_point
  wire_entry_point-IsLoaded x s place h = routed-IsLoaded x _ s place h
