-- ===== src/Server/Wiring/Made.antt =====
-- server/server.go, `loadConfig`: what the chain of a frontend has to be, part by part. The links of
-- the frontend itself, the handler of an error page and the servers of a balancer are those of
-- Wiring.Backends and Wiring.Chains.
use fabric8_oso_proxy.Base.{
  ℕ, zero, suc, Option, none, some, List, [], ◌∷◌, ◌++◌, ◌≡◌, ◌≢◌, ◌⊎◌, length,
}
use fabric8_oso_proxy.Base.Maps.{lookup}
use fabric8_oso_proxy.Base.Strings.{Str}
use fabric8_oso_proxy.Middlewares.ErrorPages
use fabric8_oso_proxy.Middlewares.Rewrite.{Handler}
use fabric8_oso_proxy.Server.Defaults.{LoadBalancerMethod, new_load_balancer_method}
use fabric8_oso_proxy.Server.Wiring.{
  Redirect, ErrorPage, Rate, RateLimit, MaxConn, Frontend, Backend, Configuration, Global,
  Libraries, Link, fixed, error_page, Chain,
}
use fabric8_oso_proxy.Server.Wiring.Backends.{
  build_redirect_handler, configure_lb_servers, frontend_links,
}
use fabric8_oso_proxy.Server.Wiring.Chains.{error_handler, sticky_cookie}

-- The handlers of a frontend's error pages, and the links to them from their first place on.
abbrev pub wanted : Option ErrorPages.Handler → List ErrorPages.Handler → List ErrorPages.Handler
wanted none hs = hs
wanted (some h) hs = h ∷ hs

abbrev pub page_handlers :
    {D B : Type 0}
    → Str
    → Str
    → Configuration D B
    → Str
    → List (Str × ErrorPage)
    → List ErrorPages.Handler
page_handlers e p c backend [] = []
page_handlers e p c backend ((_, page) ∷ pages) =
    wanted (error_handler e p c backend page) (page_handlers e p c backend pages)

abbrev pub page_links : {R : Type 0} → ℕ → List ErrorPages.Handler → List (Link R)
page_links n [] = []
page_links n (h ∷ hs) = error_page n ∷ page_links (suc n) hs

module _ {R T D B : Type 0} (lib : Libraries R T D B) where
  -- All rates are taken, one after the other.
  abbrev pub HasRates : List (Str × Rate) → lib.RateSet → lib.RateSet → Type 0
  HasRates [] before after = after ≡ before
  HasRates ((_, rate) ∷ rs) before after =
      (next : lib.RateSet) × (lib.add_rate rate before ≡ some next) × HasRates rs next after

  abbrev pub IsLimitedBy : Str → List (Str × Rate) → Handler R → Handler R → Type 0
  IsLimitedBy extractor [] lb limited = limited ≡ lb
  IsLimitedBy extractor (r ∷ rs) lb limited =
      (ex : lib.Extractor) × (rates : lib.RateSet) × (lib.new_extractor extractor ≡ some ex)
      × HasRates (r ∷ rs) lib.new_rate_set rates
      × (lib.limit_rate lb ex rates ≡ some limited)

  abbrev pub IsRateLimited : Option RateLimit → Handler R → Handler R → Type 0
  IsRateLimited none lb limited = limited ≡ lb
  IsRateLimited (some limit) lb limited = IsLimitedBy limit.extractor_func limit.rate_set lb limited

  -- Only an amount of 0 sets no limit.
  abbrev pub IsConnLimited : Option MaxConn → Handler R → Handler R → Type 0
  IsConnLimited none lb limited = limited ≡ lb
  IsConnLimited (some m) lb limited =
      ((m.amount ≡ 0) × (limited ≡ lb))
      ⊎ ((m.amount ≢ 0)
          × ((ex : lib.Extractor) × (lib.new_extractor m.extractor_func ≡ some ex)
              × (lib.limit_connections lb ex m.amount ≡ some limited)))

  -- The attempts that are configured, or one for each server.
  abbrev pub IsRetried : Option ℕ → ℕ → Handler R → Handler R → Type 0
  IsRetried none servers lb retried = retried ≡ lb
  IsRetried (some zero) servers lb retried = retried ≡ lib.retry servers lb
  IsRetried (some (suc n)) servers lb retried = retried ≡ lib.retry (suc n) lb

  abbrev pub IsBuffered : Option B → Handler R → Handler R → Type 0
  IsBuffered none lb buffered = buffered ≡ lb
  IsBuffered (some b) lb buffered =
      (lib.buffer b lb ≡ some buffered) ⊎ ((lib.buffer b lb ≡ none) × (buffered ≡ lb))

  abbrev pub IsBroken : Option Str → Handler R → Handler R → Type 0
  IsBroken none lb broken = broken ≡ lb
  IsBroken (some expression) lb broken = lib.break_circuit expression lb ≡ some broken

  -- The redirect of an entry point, unless it leads to the entry point itself.
  abbrev pub IsEntryRedirect : Global → Str → Option (Option Redirect) → List (Link R) → Type 0
  IsEntryRedirect global e none links = links ≡ []
  IsEntryRedirect global e (some none) links = links ≡ []
  IsEntryRedirect global e (some (some opt)) links =
      ((e ≡ opt.entry_point) × (links ≡ []))
      ⊎ ((e ≢ opt.entry_point)
          × ((m : Handler R → Handler R) × (build_redirect_handler lib global opt ≡ some m)
              × (links ≡ fixed m ∷ [])))

-- The last handler of a chain: the backend's balancer with its servers, the limits of rate and
-- connections, the retries, the buffer and the circuit breaker, each where it is configured.
pub record IsLast {R T D B : Type 0} (lib : Libraries R T D B) (global : Global) (p : Str)
    (c : Configuration D B) (e : Str) (f : Frontend D) (last : Handler R) : Type 0 where
  pub forwarder : Handler R
  pub forwards : lib.new_forwarder e f.pass_tls_cert f.pass_host_header f.headers ≡ some forwarder
  pub backend : Backend B
  pub found : lookup f.backend c.backends ≡ some backend
  pub method : LoadBalancerMethod
  pub has_method : new_load_balancer_method backend.load_balancer ≡ some method
  pub balancer : lib.Balancer
  pub balances :
      configure_lb_servers lib backend.servers (
        lib.new_balancer method
          (sticky_cookie lib global p c f.backend backend.load_balancer)
          forwarder)
      ≡ some balancer
  pub rated : Handler R
  pub is_rated : IsRateLimited lib f.rate_limit (lib.balance balancer) rated
  pub limited : Handler R
  pub is_limited : IsConnLimited lib backend.max_conn rated limited
  pub retried : Handler R
  pub is_retried : IsRetried lib global.retry (length backend.servers) limited retried
  pub buffered : Handler R
  pub is_buffered : IsBuffered lib backend.buffering retried buffered
  pub is_broken : IsBroken lib backend.circuit_breaker buffered last

-- A chain is the entry point's redirect, the error pages, whose handlers have their places in
-- `registered`, and the frontend's own links, in front of the last handler.
pub record IsMadeFor {R T D B : Type 0} (lib : Libraries R T D B) (global : Global)
    (registered : List ErrorPages.Handler) (p : Str) (c : Configuration D B) (e : Str)
    (f : Frontend D) (ch : Chain R) : Type 0 where
  pub entry_links : List (Link R)
  pub is_redirect : IsEntryRedirect lib global e (lookup e global.entry_points) entry_links
  pub before : List ErrorPages.Handler
  pub after : List ErrorPages.Handler
  pub placed : registered ≡ before ++ (page_handlers e p c f.backend f.errors ++ after)
  pub links :
      ch.links
      ≡ entry_links
        ++ (page_links (length before) (page_handlers e p c f.backend f.errors)
            ++ frontend_links lib global e f)
  pub is_last : IsLast lib global p c e f ch.last
