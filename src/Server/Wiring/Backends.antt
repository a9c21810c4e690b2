-- ===== src/Server/Wiring/Backends.antt =====
-- server/server.go, `loadConfig`: the parts of a backend's handler, and the middlewares in front of
-- it. None of them changes the variables of `loadConfig`.
use fabric8_oso_proxy.Base.{
  ℕ, Bool, true, false, not, Option, none, some, List, [], ◌∷◌, ◌++◌, ◌==◌, if◌then◌else◌,
}
use fabric8_oso_proxy.Base.Maps.{lookup}
use fabric8_oso_proxy.Base.Strings.{Str, equal}
use fabric8_oso_proxy.Middlewares.Rewrite.{Handler}
use fabric8_oso_proxy.Server.Wiring.{
  Middleware, Redirect, WhiteList, Rate, RateLimit, Frontend, ServerUrl, MaxConn, HealthCheck,
  Global, Libraries, Link, fixed, HealthOptions,
}

module _ {R T D B : Type 0} (lib : Libraries R T D B) where
  abbrev pub upserted :
      Option lib.Balancer → (lib.Balancer → Option lib.Balancer) → Option lib.Balancer
  upserted none rest = none
  upserted (some lb) rest = rest lb

  abbrev pub upsert_parsed : Option lib.Parsed → ℕ → lib.Balancer → Option lib.Balancer
  upsert_parsed none weight lb = none
  upsert_parsed (some u) weight lb = lib.upsert_server u weight lb

  -- `configureLBServers`, less the metrics.
  unfoldable pub configure_lb_servers : List (Str × ServerUrl) → lib.Balancer → Option lib.Balancer
  configure_lb_servers [] lb = some lb
  configure_lb_servers ((_, srv) ∷ srvs) lb =
      upserted (upsert_parsed (lib.parse_url srv.url) srv.weight lb) (configure_lb_servers srvs)

  -- The redirect of an entry point or of a frontend.
  unfoldable pub build_redirect_handler : Global → Redirect → Option (Middleware R)
  build_redirect_handler global opt =
      if not (equal opt.entry_point [])
      then elim (lookup opt.entry_point global.entry_points) [
        | none ↦ none
        | some _ ↦ lib.new_entry_point_redirect opt.entry_point opt.permanent
      ]
      else lib.new_regex_redirect opt.regex opt.replacement opt.permanent

  abbrev pub with_range : List Str → Bool → Option (Option (Middleware R))
  with_range ranges use_xff = elim (lib.new_ip_white_lister ranges use_xff) [
    | none ↦ none
    | some m ↦ some (some m)
  ]

  abbrev pub deprecated_range : List Str → Option (Option (Middleware R))
  deprecated_range [] = some none
  deprecated_range (r ∷ rs) = with_range (r ∷ rs) false

  abbrev pub range_or : List Str → Bool → List Str → Option (Option (Middleware R))
  range_or [] use_xff rs = deprecated_range rs
  range_or (r ∷ rs) use_xff _ = with_range (r ∷ rs) use_xff

  -- `buildIPWhiteLister`: an error, nil, or a middleware.
  unfoldable pub build_ip_white_lister :
      Option WhiteList → List Str → Option (Option (Middleware R))
  build_ip_white_lister none rs = deprecated_range rs
  build_ip_white_lister (some w) rs = range_or w.source_range w.use_x_forwarded_for rs

  -- A duration of 0 stands for every one that is not positive.
  abbrev pub interval_or : ℕ → Option ℕ → ℕ
  interval_or default none = default
  interval_or default (some d) = if d == 0 then default else d

  abbrev pub interval_of : ℕ → Str → ℕ
  interval_of default s = if equal s [] then default else interval_or default (lib.parse_duration s)

  -- `parseHealthCheckOptions`
  unfoldable pub parse_health_check_options :
      Str → Option HealthCheck → Option ℕ → Option HealthOptions
  parse_health_check_options backend none global = none
  parse_health_check_options backend (some hc) none = none
  parse_health_check_options backend (some hc) (some default) =
      if equal hc.path []
      then none
      else some (record {
        path = hc.path;
        port = hc.port;
        interval = interval_of default hc.interval;
        backend = backend;
      })

  unfoldable pub add_rates : List (Str × Rate) → lib.RateSet → Option lib.RateSet
  add_rates [] rates = some rates
  add_rates ((_, rate) ∷ rs) rates = elim (lib.add_rate rate rates) [
    | none ↦ none
    | some rates' ↦ add_rates rs rates'
  ]

  abbrev pub limited : Handler R → Option lib.Extractor → Option lib.RateSet → Option (Handler R)
  limited lb none rates = none
  limited lb (some ex) none = none
  limited lb (some ex) (some rates) = lib.limit_rate lb ex rates

  -- `buildRateLimiter`
  unfoldable pub build_rate_limiter : Handler R → RateLimit → Option (Handler R)
  build_rate_limiter lb limit =
      limited lb (lib.new_extractor limit.extractor_func)
        (add_rates limit.rate_set lib.new_rate_set)

  abbrev pub has_rates : RateLimit → Bool
  has_rates limit = elim limit.rate_set [ [] ↦ false | _ ∷ _ ↦ true ]

  -- The two limits of the balancer; `none` skips the frontend.
  unfoldable pub with_rate_limit : Option RateLimit → Handler R → Option (Handler R)
  with_rate_limit none lb = some lb
  with_rate_limit (some limit) lb =
      let limiter = build_rate_limiter lb limit in if has_rates limit then limiter else some lb

  abbrev pub connections_limited : Handler R → Option lib.Extractor → ℕ → Option (Handler R)
  connections_limited lb none amount = none
  connections_limited lb (some ex) amount = lib.limit_connections lb ex amount

  unfoldable pub with_max_conn : Option MaxConn → Handler R → Option (Handler R)
  with_max_conn none lb = some lb
  with_max_conn (some m) lb =
      if m.amount == 0
      then some lb
      else connections_limited lb (lib.new_extractor m.extractor_func) m.amount

  -- `buildRetryMiddleware`, where retries are configured; attempts of 0 or less are one per server.
  unfoldable pub with_retry : Option ℕ → ℕ → Handler R → Handler R
  with_retry none count_servers lb = lb
  with_retry (some attempts) count_servers lb =
      lib.retry (if attempts == 0 then count_servers else attempts) lb

  -- An error of the buffer is only logged, one of the circuit breaker skips the frontend.
  unfoldable pub with_buffering : Option B → Handler R → Handler R
  with_buffering none lb = lb
  with_buffering (some b) lb = elim (lib.buffer b lb) [ none ↦ lb | some buffered ↦ buffered ]

  unfoldable pub with_circuit_breaker : Option Str → Handler R → Option (Handler R)
  with_circuit_breaker none lb = some lb
  with_circuit_breaker (some expression) lb = lib.break_circuit expression lb

  abbrev pub optional : Option (Middleware R) → List (Link R)
  optional none = []
  optional (some m) = fixed m ∷ []

  -- An error is logged, and the chain has no such link.
  abbrev pub white_list_links : Option (Option (Middleware R)) → List (Link R)
  white_list_links none = []
  white_list_links (some m) = optional m

  -- A redirect does not lead to the entry point that it is for.
  abbrev pub redirect_links : Global → Str → Option Redirect → List (Link R)
  redirect_links global e none = []
  redirect_links global e (some opt) =
      if equal e opt.entry_point then [] else optional (build_redirect_handler global opt)

  abbrev pub auth_links : List Str → List (Link R)
  auth_links [] = []
  auth_links (u ∷ us) = optional (lib.new_authenticator (u ∷ us))

  abbrev pub metrics_links : Str → Option (Str → Middleware R) → List (Link R)
  metrics_links backend none = []
  metrics_links backend (some m) = fixed (m backend) ∷ []

  -- The links behind those of the error pages.
  unfoldable pub frontend_links : Global → Str → Frontend D → List (Link R)
  frontend_links global e f =
      metrics_links f.backend lib.backend_metrics
      ++ (white_list_links (build_ip_white_lister f.white_list f.whitelist_source_range)
          ++ (redirect_links global e f.redirect
              ++ (optional (lib.header f.headers)
                  ++ (optional (lib.secure f.headers) ++ auth_links f.basic_auth))))
