-- ===== src/Tests/Wiring.antt =====
-- The theorems on the wiring of frontends, at two configurations.
use fabric8_oso_proxy.Base.{
  ℕ, true, false, none, some, List, [], ◌∷◌, if◌then◌else◌, ◌≡◌, refl, sym, ap, ◌∙◌, map, length,
  Option,
}
use mathlib.Core.List.{Memᴰ}
use mathlib.Core.List.Memᴰ
use mathlib.Core.Path.{subst}
use fabric8_oso_proxy.Base.Fields.{fields_func, fields_rest, join}
use fabric8_oso_proxy.Base.Maps.{lookup, insert}
use fabric8_oso_proxy.Base.Run.{state_of}
use fabric8_oso_proxy.Base.Strings.{Str, codes, equal}
use fabric8_oso_proxy.Base.Trim.{
  trim_space, trim_left, trim_right, drop_while_found, space_len, space_len_back,
}
use fabric8_oso_proxy.Middlewares.ErrorPages.{new_handler, post_load}
use fabric8_oso_proxy.Middlewares.Rewrite.{Handler}
use fabric8_oso_proxy.Types.StatusCodes.{new_http_code_ranges}
use fabric8_oso_proxy.Rules.{parse_rules, apply_rules, read_rule}
use fabric8_oso_proxy.Rules.Routes.{get_route, parse, on_rule, call, returns_route}
use fabric8_oso_proxy.Server.Defaults.{new_load_balancer_method}
use fabric8_oso_proxy.Server.Wiring.{
  Frontend, Backend, Configuration, Global, Libraries, Chain, Loading,
}
use fabric8_oso_proxy.Server.Wiring.Backends.{
  build_redirect_handler, add_rates, build_rate_limiter, with_retry, with_buffering, frontend_links,
  build_ip_white_lister, configure_lb_servers, with_rate_limit, with_max_conn, with_circuit_breaker,
  parse_health_check_options,
}
use fabric8_oso_proxy.Server.Wiring.Chains.{
  create_chain, create_balancer, limited_chain, error_links, error_handler,
}
use fabric8_oso_proxy.Server.Wiring.Frontends.{
  routes_at, load_config, load_providers, load_frontends, load_frontend, wire_entry_points,
  wire_entry_point, defined_entry_points, no_routes, add_entry, add_routes, entry_redirect,
  backend_chain,
}
use fabric8_oso_proxy.Server.Wiring.Loaded.{Place, IsPlace}
use fabric8_oso_proxy.Server.Wiring.Own.{
  SharedOrNone, OwnOrNone, AllRoutes, HasOwnKeys, load_config-IsShared, load_config-IsOwn,
}
use fabric8_oso_proxy.Server.Wiring.Reused.{create_chain-unprotected, wire_entry_point-reused}
use fabric8_oso_proxy.Tests.Rules.{counting, plain}

abbrev seen : Handler Str
seen r = r.url.path

-- Every part is built, except white lists and the authenticator of a user "bad".
abbrev parts : Libraries Str ℕ (Unit {0}) (Unit {0})
parts = record {
  Balancer = Handler Str;
  Parsed = Str;
  Extractor = Unit {0};
  RateSet = Unit {0};
  new_route = λ name. 0;
  new_forwarder = λ e tls host headers. some seen;
  cookie_name = λ name backend. name;
  new_balancer = λ m cookie h. h;
  parse_url = λ u. some u;
  upsert_server = λ u w lb. some lb;
  balance = λ lb. lb;
  parse_duration = λ s. none;
  new_extractor = λ s. some tt;
  new_rate_set = tt;
  add_rate = λ r rates. some rates;
  limit_rate = λ h ex rates. some h;
  limit_connections = λ h ex n. some h;
  retry = λ n h. h;
  backend_metrics = none;
  new_ip_white_lister = λ rs xff. none;
  new_entry_point_redirect = λ e p. some (λ h. h);
  new_regex_redirect = λ re s p. none;
  header = λ d. none;
  secure = λ d. none;
  new_authenticator = λ users. elim users [
    | [] ↦ none
    | u ∷ us ↦ if equal u (codes "bad") then none else some (λ h. h)
  ];
  buffer = λ b h. some h;
  break_circuit = λ s h. some h;
}

abbrev http : Str
http = codes "http"

abbrev global : Global
global = record {
  entry_points =
      (
        http,
        some (record {
          entry_point = codes "https";
          regex = [];
          replacement = [];
          permanent = false;
        }),
      )
      ∷ (codes "https", none)
      ∷ [];
  health_interval = none;
  retry = some 2;
}

abbrev guarded : Frontend (Unit {0})
guarded = record {
  entry_points = http ∷ codes "missing" ∷ [];
  backend = codes "b";
  routes = (codes "r", codes "Host:x") ∷ [];
  pass_host_header = true;
  pass_tls_cert = false;
  priority = 0;
  basic_auth = codes "user" ∷ [];
  whitelist_source_range = [];
  white_list = none;
  headers = none;
  errors = (codes "all", record { status = []; backend = codes "pages"; query = [] }) ∷ [];
  rate_limit = some (record {
    rate_set = (codes "r", record { period = 1; average = 2; burst = 3 }) ∷ [];
    extractor_func = codes "client.ip";
  });
  redirect = none;
}

abbrev backend : Backend (Unit {0})
backend = record {
  servers = (codes "s", record { url = codes "http://s"; weight = 1 }) ∷ [];
  circuit_breaker = none;
  load_balancer = some (record { method = codes "wrr"; sticky = false; stickiness = none });
  max_conn = some (record { amount = 4; extractor_func = codes "client.ip" });
  health_check = none;
  buffering = none;
}

abbrev only : Frontend (Unit {0}) → Configuration (Unit {0}) (Unit {0})
only f = record {
  frontends = (codes "f", f) ∷ [];
  backends = (codes "b", backend) ∷ (codes "pages", backend) ∷ [];
}

abbrev configs : List (Str × Configuration (Unit {0}) (Unit {0}))
configs = (codes "osio", only (record guarded { entry_points = http ∷ [] })) ∷ []

load_config-IsShared_example :
    AllRoutes http
      (load_config plain counting parts global configs)
      (λ registered x. SharedOrNone parts global configs registered http x.name x.handler)
load_config-IsShared_example = load_config-IsShared plain counting parts global configs http

abbrev links_of : Option (Chain Str) → ℕ
links_of none = 0
links_of (some ch) = length ch.links

-- The frontend's route gets a handler, with the redirect, the error page and the authenticator.
one_handled :
    map
      (λ x. links_of x.handler)
      (routes_at http (state_of (load_config plain counting parts global configs)))
    ≡ 3 ∷ []
unfolding load_config load_providers load_frontends load_frontend wire_entry_points wire_entry_point
    defined_entry_points no_routes add_entry add_routes entry_redirect backend_chain create_chain
    create_balancer limited_chain error_links configure_lb_servers with_rate_limit with_max_conn
    with_circuit_breaker parse_health_check_options new_load_balancer_method get_route parse on_rule
    call returns_route parse_rules apply_rules read_rule fields_func fields_rest join lookup insert
    equal trim_space trim_left trim_right drop_while_found space_len space_len_back error_handler
    new_handler build_redirect_handler add_rates build_rate_limiter frontend_links
    build_ip_white_lister new_http_code_ranges with_retry with_buffering post_load
one_handled = refl

-- The only place of the configuration.
abbrev the_place : Place (Unit {0}) (Unit {0})
the_place = record {
  provider = codes "osio";
  config = only (record guarded { entry_points = http ∷ [] });
  name = codes "f";
  frontend = record guarded { entry_points = http ∷ [] };
  entry_point = http;
}

is_the_place : (x : Place (Unit {0}) (Unit {0})) → IsPlace configs x → x ≡ the_place
is_the_place x place =
    let provided = Memᴰ.eq_of_singleton place.provided in
    let config = ap (λ z. z.1) provided in
    let listed = Memᴰ.eq_of_singleton (
      subst (λ (c : Configuration _ _). Memᴰ (x.name, x.frontend) c.frontends) config
        place.listed) in
    let entered = Memᴰ.eq_of_singleton (
      subst (λ (f : Frontend _). Memᴰ x.entry_point f.entry_points) (ap (λ z. z.1) listed)
        place.entered) in
    λ i. record {
      provider = (provided i).0;
      config = (provided i).1;
      name = (listed i).0;
      frontend = (listed i).1;
      entry_point = entered i;
    }

configs-HasOwnKeys : HasOwnKeys configs
configs-HasOwnKeys x y at_x at_y e = is_the_place x at_x ∙ sym (is_the_place y at_y)

load_config-IsOwn_example :
    AllRoutes http
      (load_config plain counting parts global configs)
      (λ registered x. OwnOrNone parts global configs registered http x.name x.handler)
load_config-IsOwn_example =
    load_config-IsOwn plain counting parts global configs configs-HasOwnKeys http

-- A white list and a user that the parts do not take.
abbrev unguarded : Frontend (Unit {0})
unguarded = record guarded {
  basic_auth = codes "bad" ∷ [];
  whitelist_source_range = codes "10.0.0.0/33" ∷ [];
}

abbrev nothing_loaded : Loading Str ℕ
nothing_loaded = record {
  routers = (http, []) ∷ [];
  redirect_handlers = [];
  backends = [];
  health_checks = [];
  error_pages = [];
}

create_chain-unprotected_example :
    create_chain parts global (codes "osio") (only unguarded) http unguarded [] nothing_loaded
    ≡ create_chain parts global
        (codes "osio")
        (only unguarded)
        http
        (record unguarded { white_list = none; whitelist_source_range = []; basic_auth = [] })
        []
        nothing_loaded
unfolding equal build_ip_white_lister
create_chain-unprotected_example =
    create_chain-unprotected parts global (codes "osio") (only unguarded) http unguarded []
      nothing_loaded refl refl

abbrev one_chain : Loading Str ℕ
one_chain = record nothing_loaded {
  backends = (codes "httposiob", record { links = []; last = seen }) ∷ [];
}

wire_entry_point-reused_example :
    wire_entry_point plain counting parts global
      (codes "osio")
      (only guarded)
      (codes "f")
      guarded
      http
      one_chain
    ≡ wire_entry_point plain counting parts global
        (codes "osio")
        (only guarded)
        (codes "f")
        (record guarded { basic_auth = [] })
        http
        one_chain
unfolding lookup equal
wire_entry_point-reused_example =
    wire_entry_point-reused plain counting parts global (codes "osio") (only guarded) (codes "f")
      http guarded (record guarded { basic_auth = [] }) one_chain
      (record { links = []; last = seen }) refl refl refl refl
