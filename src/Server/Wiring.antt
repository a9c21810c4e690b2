-- ===== src/Server/Wiring.antt =====
-- server/server.go, `loadConfig`: from the configurations of all providers to the routers of the
-- entry points. This file has what it reads and what it builds. Logs, traces and access logs are
-- left out. Go visits a map in any order, and a list stands for the order that it takes.
pub mod Backends
pub mod Chains
pub mod Frontends
pub mod Made
pub mod Built
pub mod Pages
pub mod Created
pub mod Kept
pub mod Loaded
pub mod Found
pub mod Loops
pub mod Guarded
pub mod Own
pub mod Reused
use fabric8_oso_proxy.Base.{ℕ, Bool, Option, none, some, List}
use fabric8_oso_proxy.Base.Run.{Run, M, done, fail, panic, skipped}
use fabric8_oso_proxy.Base.Strings.{Str}
use fabric8_oso_proxy.Middlewares.ErrorPages
use fabric8_oso_proxy.Middlewares.Rewrite.{Handler}
use fabric8_oso_proxy.Rules.Routes.{ServerRoute}
use fabric8_oso_proxy.Server.Defaults.{LoadBalancer, LoadBalancerMethod}

-- A handler of negroni: it may call the next handler.
abbrev pub Middleware : Type 0 → Type 0
Middleware R = Handler R → Handler R

pub record Redirect : Type 0 where
  pub entry_point : Str
  pub regex : Str
  pub replacement : Str
  pub permanent : Bool

pub record WhiteList : Type 0 where
  pub source_range : List Str
  pub use_x_forwarded_for : Bool

pub record ErrorPage : Type 0 where
  pub status : List Str
  pub backend : Str
  pub query : Str

pub record Rate : Type 0 where
  pub period : ℕ
  pub average : ℕ
  pub burst : ℕ

pub record RateLimit : Type 0 where
  pub rate_set : List (Str × Rate)
  pub extractor_func : Str

-- `types.Frontend`. A priority below 0 acts as 0 does; `D` is the type of its `Headers`.
pub record Frontend (D : Type 0) : Type 0 where
  pub entry_points : List Str
  pub backend : Str
  pub routes : List (Str × Str)
  pub pass_host_header : Bool
  pub pass_tls_cert : Bool
  pub priority : ℕ
  pub basic_auth : List Str
  pub whitelist_source_range : List Str
  pub white_list : Option WhiteList
  pub headers : Option D
  pub errors : List (Str × ErrorPage)
  pub rate_limit : Option RateLimit
  pub redirect : Option Redirect

pub record ServerUrl : Type 0 where
  pub url : Str
  pub weight : ℕ

pub record MaxConn : Type 0 where
  pub amount : ℕ
  pub extractor_func : Str

pub record HealthCheck : Type 0 where
  pub path : Str
  pub port : ℕ
  pub interval : Str

-- `types.Backend`; a circuit breaker is its expression, `B` is the type of `Buffering`.
pub record Backend (B : Type 0) : Type 0 where
  pub servers : List (Str × ServerUrl)
  pub circuit_breaker : Option Str
  pub load_balancer : Option LoadBalancer
  pub max_conn : Option MaxConn
  pub health_check : Option HealthCheck
  pub buffering : Option B

-- `types.Configuration`; `frontends` is in the order of `sortedFrontendNamesForConfig`.
pub record Configuration (D B : Type 0) : Type 0 where
  pub frontends : List (Str × Frontend D)
  pub backends : List (Str × Backend B)

-- What `loadConfig` reads of the global configuration: the redirect of each entry point, the
-- interval of `HealthCheck` and the attempts of `Retry`, where they are given.
pub record Global : Type 0 where
  pub entry_points : List (Str × Option Redirect)
  pub health_interval : Option ℕ
  pub retry : Option ℕ

-- What the wiring calls: github.com/vulcand/oxy, the router, net/url, package time, and the other
-- middlewares of the repository. `new_forwarder` stands for `getRoundTripper`, `NewHeaderRewriter`,
-- `buildModifyResponse` and `forward.New`. `none` is an error, for `header` and `secure` nil.
pub record Libraries (R T D B : Type 0) : Type 1 where
  pub Balancer : Type 0
  pub Parsed : Type 0
  pub Extractor : Type 0
  pub RateSet : Type 0
  pub new_route : Str → T
  pub new_forwarder : Str → Bool → Bool → Option D → Option (Handler R)
  pub cookie_name : Str → Str → Str
  pub new_balancer : LoadBalancerMethod → Option Str → Handler R → Balancer
  pub parse_url : Str → Option Parsed
  pub upsert_server : Parsed → ℕ → Balancer → Option Balancer
  pub balance : Balancer → Handler R
  pub parse_duration : Str → Option ℕ
  pub new_extractor : Str → Option Extractor
  pub new_rate_set : RateSet
  pub add_rate : Rate → RateSet → Option RateSet
  pub limit_rate : Handler R → Extractor → RateSet → Option (Handler R)
  pub limit_connections : Handler R → Extractor → ℕ → Option (Handler R)
  pub retry : ℕ → Handler R → Handler R
  pub backend_metrics : Option (Str → Middleware R)
  pub new_ip_white_lister : List Str → Bool → Option (Middleware R)
  pub new_entry_point_redirect : Str → Bool → Option (Middleware R)
  pub new_regex_redirect : Str → Str → Bool → Option (Middleware R)
  pub header : Option D → Option (Middleware R)
  pub secure : Option D → Option (Middleware R)
  pub new_authenticator : List Str → Option (Middleware R)
  pub buffer : B → Handler R → Option (Handler R)
  pub break_circuit : Str → Handler R → Option (Handler R)

-- What a frontend's chain is made of. The handler of an error page gets its backend only at the
-- end of `loadConfig`, so that the chain has its place among `Loading.error_pages`.
pub data Link (R : Type 0) : Type 0 where
  fixed : Middleware R → Link R
  error_page : ℕ → Link R

-- The handlers that are behind `n.Use`, and the one behind `n.UseHandler`.
pub record Chain (R : Type 0) : Type 0 where
  pub links : List (Link R)
  pub last : Handler R

-- `healthcheck.Options` with the name of the backend.
pub record HealthOptions : Type 0 where
  pub path : Str
  pub port : ℕ
  pub interval : ℕ
  pub backend : Str

-- A route of a router: the frontend's name, and where the route has a handler, the chain that
-- `wireFrontendBackend` wraps by what the rules left in `route`.
pub record Entry (R T : Type 0) : Type 0 where
  pub name : Str
  pub route : ServerRoute T
  pub handler : Option (Chain R)

-- The variables of `loadConfig`; each entry point has its routes, oldest first.
pub record Loading (R T : Type 0) : Type 0 where
  pub routers : List (Str × List (Entry R T))
  pub redirect_handlers : List (Str × Middleware R)
  pub backends : List (Str × Chain R)
  pub health_checks : List (Str × HealthOptions)
  pub error_pages : List ErrorPages.Handler

-- A call of which only the state counts.
abbrev pub state_or_skip : {S A : Type 0} → Run S A → Run S (Unit {0})
state_or_skip (done _ s) = done tt s
state_or_skip (fail _ s) = done tt s
state_or_skip (panic s) = panic s

-- `continue frontend`, where a call fails.
abbrev pub or_skip : {S A : Type 0} → Option A → M S A
or_skip none s = fail skipped s
or_skip (some a) s = done a s
