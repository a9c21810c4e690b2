-- ===== src/Server/Wiring/Chains.antt =====
-- server/server.go, `loadConfig`: the handler of a backend, behind the middlewares of the frontend
-- for which it is built.
use fabric8_oso_proxy.Base.{Option, none, some, List, [], ◌∷◌, ◌++◌, if◌then◌else◌, length}
use fabric8_oso_proxy.Base.Maps.{lookup, insert}
use fabric8_oso_proxy.Base.Run.{M, pure, ◌>>=◌, ◌>>◌, done}
use fabric8_oso_proxy.Base.Strings.{Str, codes, equal}
use fabric8_oso_proxy.Middlewares.ErrorPages
use fabric8_oso_proxy.Middlewares.ErrorPages.{new_handler}
use fabric8_oso_proxy.Middlewares.Rewrite.{Handler}
use fabric8_oso_proxy.Server.Defaults.{LoadBalancer, new_load_balancer_method}
use fabric8_oso_proxy.Server.Wiring.{
  ErrorPage, Frontend, ServerUrl, Backend, Configuration, Global, Libraries, Link, error_page,
  Chain, HealthOptions, Loading, or_skip,
}
use fabric8_oso_proxy.Server.Wiring.Backends.{
  configure_lb_servers, parse_health_check_options, with_rate_limit, with_max_conn, with_retry,
  with_buffering, with_circuit_breaker, frontend_links,
}

abbrev pub with_fallback : Option ServerUrl → ErrorPages.Handler → ErrorPages.Handler
with_fallback none h = h
with_fallback (some srv) h = record h { fallback_url = srv.url }

-- The key of a backend's handler.
abbrev pub backend_key : Str → Str → Str → Str
backend_key e p backend = e ++ (p ++ backend)

-- The handler of an error page; `none` where the code logs an error instead.
unfoldable pub error_handler :
    {D B : Type 0} → Str → Str → Configuration D B → Str → ErrorPage → Option ErrorPages.Handler
error_handler e p c backend page =
    if equal backend page.backend then none else elim (lookup page.backend c.backends) [
      | none ↦ none
      | some b ↦ elim (new_handler page.status page.query (backend_key e p page.backend)) [
        | none ↦ none
        | some h ↦ some (with_fallback (lookup (codes "error") b.servers) h)
      ]
    ]

module _ {R T : Type 0} where
  abbrev pub page_link : Option ErrorPages.Handler → M (Loading R T) (List (Link R))
  page_link none s = done [] s
  page_link (some h) s =
      done (error_page (length s.error_pages) ∷ [])
        (record s { error_pages = s.error_pages ++ h ∷ [] })

  -- The loop over `frontend.Errors`.
  unfoldable pub error_links :
      {D B : Type 0}
      → Str
      → Str
      → Configuration D B
      → Str
      → List (Str × ErrorPage)
      → M (Loading R T) (List (Link R))
  error_links e p c backend [] = pure []
  error_links e p c backend ((_, page) ∷ pages) = do
    link ← page_link (error_handler e p c backend page)
    links ← error_links e p c backend pages
    pure (link ++ links)

  abbrev pub add_health_check : Str → Option HealthOptions → M (Loading R T) (Unit {0})
  add_health_check key none s = done tt s
  add_health_check key (some o) s =
      done tt (record s { health_checks = insert key o s.health_checks })

module _ {R T D B : Type 0} (lib : Libraries R T D B) (global : Global) (p : Str)
    (c : Configuration D B) where
  abbrev pub sticky_cookie : Str → Option LoadBalancer → Option Str
  sticky_cookie backend none = none
  sticky_cookie backend (some lb) = elim lb.stickiness [
    | none ↦ none
    | some s ↦ some (lib.cookie_name s.cookie_name backend)
  ]

  -- The balancer with its servers, and its health check.
  unfoldable pub create_balancer :
      Str → Frontend D → Backend B → Handler R → M (Loading R T) (Handler R)
  create_balancer e f b fwd = do
    method ← or_skip (new_load_balancer_method b.load_balancer)
    lb ← or_skip (
        configure_lb_servers lib b.servers
          (lib.new_balancer method (sticky_cookie f.backend b.load_balancer) fwd))
    add_health_check (e ++ f.backend)
        (parse_health_check_options lib f.backend b.health_check global.health_interval)
    pure (lib.balance lb)

  -- The limits of the balancer, and the chain.
  unfoldable pub limited_chain :
      Str
      → Frontend D
      → List (Link R)
      → Backend B
      → Handler R
      → List (Link R)
      → M (Loading R T) (Chain R)
  limited_chain e f entry_links b balanced pages = do
    rate_limited ← or_skip (with_rate_limit lib f.rate_limit balanced)
    conn_limited ← or_skip (with_max_conn lib b.max_conn rate_limited)
    last ← or_skip (
        with_circuit_breaker lib b.circuit_breaker (
          with_buffering lib b.buffering
            (with_retry lib global.retry (length b.servers) conn_limited)))
    pure (record { links = entry_links ++ (pages ++ frontend_links lib global e f); last = last })

  -- The chain of a backend that is not yet in `backends`.
  unfoldable pub create_chain : Str → Frontend D → List (Link R) → M (Loading R T) (Chain R)
  create_chain e f entry_links = do
    fwd ← or_skip (lib.new_forwarder e f.pass_tls_cert f.pass_host_header f.headers)
    b ← or_skip (lookup f.backend c.backends)
    balanced ← create_balancer e f b fwd
    pages ← error_links e p c f.backend f.errors
    limited_chain e f entry_links b balanced pages
