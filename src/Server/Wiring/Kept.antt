-- ===== src/Server/Wiring/Kept.antt =====
-- server/server.go, `loadConfig`: what building a chain leaves alone.
use fabric8_oso_proxy.Base.{
  Bool-cases, inl, inr, Option, none, some, List, [], ◌∷◌, ◌++◌, ◌≡◌, refl, sym, ap, ◌∙◌, length,
}
use mathlib.Core.List.{append_assoc, append-nil}
use fabric8_oso_proxy.Base.Maps.{lookup}
use fabric8_oso_proxy.Base.Run.{M, Run, pure, ◌>>=◌, done, fail, panic, after, state_of}
use fabric8_oso_proxy.Base.Strings.{Str, equal}
use fabric8_oso_proxy.Middlewares.ErrorPages
use fabric8_oso_proxy.Middlewares.Rewrite.{Handler}
use fabric8_oso_proxy.Server.Defaults.{new_load_balancer_method}
use fabric8_oso_proxy.Server.Wiring.{
  Middleware, Redirect, ErrorPage, Frontend, Backend, Configuration, Global, Libraries, Link,
  HealthOptions, Loading, or_skip,
}
use fabric8_oso_proxy.Server.Wiring.Backends.{
  build_redirect_handler, configure_lb_servers, frontend_links, with_rate_limit, with_max_conn,
  with_retry, with_buffering, with_circuit_breaker, parse_health_check_options,
}
use fabric8_oso_proxy.Server.Wiring.Chains.{
  error_handler, page_link, error_links, add_health_check, sticky_cookie, create_balancer,
  limited_chain, create_chain,
}
use fabric8_oso_proxy.Server.Wiring.Frontends.{known_redirect, entry_redirect, entry_redirect_of}

-- The routes, the chains and the redirects of two states are the same, and no error page of the
-- first one is moved.
pub record IsSame {R T : Type 0} (s t : Loading R T) : Type 0 where
  pub routers : t.routers ≡ s.routers
  pub backends : t.backends ≡ s.backends
  pub redirects : t.redirect_handlers ≡ s.redirect_handlers
  pub added : List ErrorPages.Handler
  pub grown : t.error_pages ≡ s.error_pages ++ added

module _ {R T : Type 0} where
  IsSame_refl : {s : Loading R T} → IsSame s s
  IsSame_refl {s} = record {
    routers = refl;
    backends = refl;
    redirects = refl;
    added = [];
    grown = sym (append-nil s.error_pages);
  }

  IsSame_trans : {s t u : Loading R T} → IsSame s t → IsSame t u → IsSame s u
  IsSame_trans {s} h k = record {
    routers = k.routers ∙ h.routers;
    backends = k.backends ∙ h.backends;
    redirects = k.redirects ∙ h.redirects;
    added = h.added ++ k.added;
    grown = k.grown ∙ ap (λ ps. ps ++ k.added) h.grown ∙ append_assoc s.error_pages h.added k.added;
  }

  -- A call that changes nothing else.
  pub record Leaves {A : Type 0} (m : M (Loading R T) A) : Type 0 where
    pub same : (s : Loading R T) → IsSame s (state_of (m s))

module _ {R T A B : Type 0} where
  after-Leaves :
      (s : Loading R T) (r : Run (Loading R T) A) (f : A → M (Loading R T) B)
      → IsSame s (state_of r)
      → ((a : A) → Leaves (f a))
      → IsSame s (state_of (after r f))
  after-Leaves s (done a t) f h k = IsSame_trans h ((k a).same t)
  after-Leaves s (fail e t) f h k = h
  after-Leaves s (panic t) f h k = h

  then-Leaves :
      {m : M (Loading R T) A} {f : A → M (Loading R T) B}
      → Leaves m
      → ((a : A) → Leaves (f a))
      → Leaves (m >>= f)
  then-Leaves {m} {f} h k = record { same = λ s. after-Leaves s (m s) f (h.same s) k }

module _ {R T : Type 0} where
  pure-Leaves : {A : Type 0} (a : A) → Leaves {R = R} {T = T} (pure a)
  pure-Leaves a = record { same = λ s. IsSame_refl }

  or_skip-Leaves : {A : Type 0} (o : Option A) → Leaves {R = R} {T = T} (or_skip o)
  or_skip-Leaves none = record { same = λ s. IsSame_refl }
  or_skip-Leaves (some a) = record { same = λ s. IsSame_refl }

  page_link-Leaves : (o : Option ErrorPages.Handler) → Leaves {R = R} {T = T} (page_link o)
  page_link-Leaves none = record { same = λ s. IsSame_refl }
  page_link-Leaves (some h) = record {
    same = λ s. record {
      routers = refl;
      backends = refl;
      redirects = refl;
      added = h ∷ [];
      grown = refl;
    };
  }

  add_health_check-Leaves :
      (key : Str) (o : Option HealthOptions) → Leaves {R = R} {T = T} (add_health_check key o)
  add_health_check-Leaves key none = record { same = λ s. IsSame_refl }
  add_health_check-Leaves key (some o) = record {
    same = λ s. record {
      routers = refl;
      backends = refl;
      redirects = refl;
      added = [];
      grown = sym (append-nil s.error_pages);
    };
  }

  error_links-Leaves :
      {D B : Type 0} (e p : Str) (c : Configuration D B) (backend : Str)
      (pages : List (Str × ErrorPage))
      → Leaves {R = R} {T = T} (error_links e p c backend pages)
  unfolding error_links
  error_links-Leaves e p c backend [] = pure-Leaves []
  error_links-Leaves e p c backend ((_, page) ∷ pages) =
      then-Leaves (page_link-Leaves (error_handler e p c backend page)) (λ link.
        then-Leaves (error_links-Leaves e p c backend pages) (λ links. pure-Leaves (link ++ links)))

module _ {R T D B : Type 0} (lib : Libraries R T D B) (global : Global) (p : Str)
    (c : Configuration D B) where
  create_balancer-Leaves :
      (e : Str) (f : Frontend D) (b : Backend B) (fwd : Handler R)
      → Leaves (create_balancer lib global p c e f b fwd)
  unfolding create_balancer
  create_balancer-Leaves e f b fwd =
      then-Leaves (or_skip-Leaves (new_load_balancer_method b.load_balancer)) (λ method.
        then-Leaves
          (or_skip-Leaves (
            configure_lb_servers lib b.servers (
              lib.new_balancer method (sticky_cookie lib global p c f.backend b.load_balancer)
                fwd)))
          (λ lb.
            then-Leaves
              (add_health_check-Leaves (e ++ f.backend)
                (parse_health_check_options lib f.backend b.health_check global.health_interval))
              (λ _. pure-Leaves (lib.balance lb))))

  limited_chain-Leaves :
      (e : Str) (f : Frontend D) (entry_links : List (Link R)) (b : Backend B)
      (balanced : Handler R) (pages : List (Link R))
      → Leaves (limited_chain lib global p c e f entry_links b balanced pages)
  unfolding limited_chain
  limited_chain-Leaves e f entry_links b balanced pages =
      then-Leaves (or_skip-Leaves (with_rate_limit lib f.rate_limit balanced)) (λ rate_limited.
        then-Leaves (or_skip-Leaves (with_max_conn lib b.max_conn rate_limited)) (λ conn_limited.
          then-Leaves
            (or_skip-Leaves (
              with_circuit_breaker lib b.circuit_breaker (
                with_buffering lib b.buffering
                  (with_retry lib global.retry (length b.servers) conn_limited))))
            (λ last. pure-Leaves (record {
              links = entry_links ++ (pages ++ frontend_links lib global e f);
              last = last;
            }))))

  pub create_chain-Leaves :
      (e : Str) (f : Frontend D) (entry_links : List (Link R))
      → Leaves (create_chain lib global p c e f entry_links)
  unfolding create_chain
  create_chain-Leaves e f entry_links =
      then-Leaves
        (or_skip-Leaves (lib.new_forwarder e f.pass_tls_cert f.pass_host_header f.headers))
        (λ fwd. then-Leaves (or_skip-Leaves (lookup f.backend c.backends)) (λ b.
          then-Leaves (create_balancer-Leaves e f b fwd) (λ balanced.
            then-Leaves (error_links-Leaves e p c f.backend f.errors)
              (λ pages. limited_chain-Leaves e f entry_links b balanced pages))))

module _ {R T D B : Type 0} (lib : Libraries R T D B) (global : Global) where
  known_redirect-backends :
      (e : Str) (known built : Option (Middleware R)) (s : Loading R T)
      → (state_of (known_redirect e known built s)).backends ≡ s.backends
  known_redirect-backends e (some m) built s = refl
  known_redirect-backends e none none s = refl
  known_redirect-backends e none (some m) s = refl

  entry_redirect-backends :
      (e : Str) (opt : Option Redirect) (s : Loading R T)
      → (state_of (entry_redirect lib global e opt s)).backends ≡ s.backends
  unfolding entry_redirect
  entry_redirect-backends e none s = refl
  entry_redirect-backends e (some opt) s = elim (Bool-cases (equal e opt.entry_point)) [
    | inl same ↦ rw same refl
    | inr other ↦ rw other (
        known_redirect-backends e (lookup e s.redirect_handlers)
          (build_redirect_handler lib global opt) s)
  ]

  pub entry_redirect_of-backends :
      (e : Str) (opt : Option (Option Redirect)) (s : Loading R T)
      → (state_of (entry_redirect_of lib global e opt s)).backends ≡ s.backends
  entry_redirect_of-backends e none s = refl
  entry_redirect_of-backends e (some opt) s = entry_redirect-backends e opt s
