-- ===== src/Rules/Routes.antt =====
-- rules/rules.go: the methods behind the functions of the table, and `Parse`; `getRoute` of
-- server/server.go. The router, the sort,
-- `net.SplitHostPort` and `strings.ToLower` are parameters.
use fabric8_oso_proxy.Base.{
  ℕ, ◌+◌, Bool, true, false, not, ◌||◌, Option, none, some, List, [], ◌∷◌, ◌++◌, map, length,
  if◌then◌else◌,
}
use fabric8_oso_proxy.Base.Run.{Error, parse_failed, Run, done, fail, panic, M}
use fabric8_oso_proxy.Base.Strings.{Str, codes, equal, has_prefix, index, split}
use fabric8_oso_proxy.Base.Trim.{trim_space}
use fabric8_oso_proxy.Rules.{
  Function, host, host_regexp, path, path_strip, path_strip_regex, path_prefix, path_prefix_strip,
  path_prefix_strip_regex, methods, headers, headers_regexp, add_prefix, replace_path,
  replace_path_regex, query, parse_rules, canonical_domain,
}

-- What a matcher reads of a request: `req.Host` and `req.URL.Path`.
pub record MatchedRequest : Type 0 where
  pub host_name : Str
  pub url_path : Str

-- The part of github.com/containous/mux that the rules call. Each call changes the route, and
-- `subrouter` gives it a router with one new route for each template. `with_queries` also says
-- whether `Queries` returns the route, or nil.
pub data Template : Type 0 where
  of_host of_path of_path_prefix : Str → Template
  of_matcher : (MatchedRequest → Bool) → Template

pub record Mux (R : Type 0) : Type 0 where
  pub matcher_func : (MatchedRequest → Bool) → R → R
  pub subrouter : List Template → R → R
  pub with_methods : List Str → R → R
  pub with_headers : List Str → R → R
  pub with_headers_regexp : List Str → R → R
  pub with_queries : List Str → R → R × Bool
  pub get_error : R → Option Error
  pub priority : R → ℕ
  pub with_priority : ℕ → R → R

-- `none` is an error of `net.SplitHostPort`.
pub record Strings : Type 0 where
  pub split_host_port : Str → Option Str
  pub to_lower : Str → Str
  pub by_size : List Str → List Str

-- `types.ServerRoute`
pub record ServerRoute (R : Type 0) : Type 0 where
  pub route : R
  pub strip_prefixes : List Str
  pub strip_prefixes_regex : List Str
  pub add_prefix_of : Str
  pub replace_path_of : Str
  pub replace_path_regex_of : Str

-- The variable that a loop over the arguments leaves behind.
abbrev pub last_or : Str → List Str → Str
last_or s [] = s
last_or s (p ∷ ps) = last_or p ps

abbrev pub or_whole : Str → Option Str → Str
or_whole h none = h
or_whole h (some s) = s

unfoldable pub is_any_domain : (Str → Str) → Str → List Str → Bool
is_any_domain to_lower d [] = false
is_any_domain to_lower d (h ∷ hs) =
    equal (canonical_domain to_lower d) (canonical_domain to_lower h) || is_any_domain to_lower d hs

-- The matcher of `Rules.host`.
unfoldable pub matches_host : Strings → List Str → MatchedRequest → Bool
matches_host l hosts req =
    is_any_domain l.to_lower (or_whole req.host_name (l.split_host_port req.host_name)) hosts

-- `prefixMatcher.Match`
unfoldable pub matches_prefix : Str → MatchedRequest → Bool
matches_prefix p req = has_prefix req.url_path p || has_prefix req.url_path (p ++ codes "/")

abbrev pub is_found : Option ℕ → Bool
is_found none = false
is_found (some _) = true

-- `buildPath`
unfoldable pub build_path : Str → Template
build_path p =
    let clean = trim_space p in
    if is_found (index clean (codes "{"))
    then of_path_prefix clean
    else of_matcher (matches_prefix clean)

abbrev pub split_pairs : List Str → List Str
split_pairs [] = []
split_pairs (q ∷ qs) = split q b'=' ++ split_pairs qs

abbrev pub is_query : Function → Bool
is_query query = true
is_query _ = false

module _ {R : Type 0} (l : Strings) (mux : Mux R) where
  -- One method of `Rules`: what it leaves in the server route.
  unfoldable pub call : Function → List Str → ServerRoute R → ServerRoute R
  call host hosts r = record r { route = mux.matcher_func (matches_host l hosts) r.route }
  call host_regexp hosts r = record r {
    route = mux.subrouter (map (λ h. of_host (canonical_domain l.to_lower h)) hosts) r.route;
  }
  call path paths r = record r {
    route = mux.subrouter (map (λ p. of_path (trim_space p)) paths) r.route;
  }
  call path_strip paths r = record r {
    strip_prefixes = l.by_size paths;
    route = mux.subrouter (map (λ p. of_path (trim_space p)) (l.by_size paths)) r.route;
  }
  call path_strip_regex paths r = record r {
    strip_prefixes_regex = l.by_size paths;
    route = mux.subrouter (map (λ p. of_path (trim_space p)) (l.by_size paths)) r.route;
  }
  call path_prefix paths r = record r { route = mux.subrouter (map build_path paths) r.route }
  call path_prefix_strip paths r = record r {
    strip_prefixes = l.by_size paths;
    route = mux.subrouter (map build_path (l.by_size paths)) r.route;
  }
  call path_prefix_strip_regex paths r = record r {
    strip_prefixes_regex = l.by_size paths;
    route = mux.subrouter (map (λ p. of_path_prefix (trim_space p)) (l.by_size paths)) r.route;
  }
  call methods ms r = record r { route = mux.with_methods ms r.route }
  call headers hs r = record r { route = mux.with_headers hs r.route }
  call headers_regexp hs r = record r { route = mux.with_headers_regexp hs r.route }
  call add_prefix paths r = record r { add_prefix_of = last_or r.add_prefix_of paths }
  call replace_path paths r = record r { replace_path_of = last_or r.replace_path_of paths }
  call replace_path_regex paths r = record r {
    replace_path_regex_of = last_or r.replace_path_regex_of paths;
  }
  call query qs r = record r { route = (mux.with_queries (split_pairs qs) r.route).0 }

  -- The state of `Parse`: the server route, and `resultRoute`, where `none` is nil.
  abbrev pub Parsing : Type 0
  Parsing = ServerRoute R × Option R

  -- `resultRoute.GetError()`
  abbrev pub checked_route : Option Error → M Parsing (Unit {0})
  checked_route none p = done tt p
  checked_route (some e) p = fail e p

  -- Whether a method returns the route that it leaves in the server route, or nil.
  unfoldable pub returns_route : Function → List Str → ServerRoute R → Bool
  returns_route f args r = not (is_query f) || (mux.with_queries (split_pairs args) r.route).1

  -- The closure of `Parse`; `resultRoute.GetError()` panics on nil.
  unfoldable pub on_rule : Function → List Str → M Parsing (Unit {0})
  on_rule f args (r, _) =
      let r' = call f args r in
      if returns_route f args r
      then checked_route (mux.get_error r'.route) (r', some r'.route)
      else panic (r', none)

  abbrev pub parsed : Run Parsing (Unit {0}) → Run (ServerRoute R) (Option R)
  parsed (done _ (r, result)) = done result r
  parsed (fail e (r, result)) = fail (parse_failed e) r
  parsed (panic (r, result)) = panic r

  -- `Rules.Parse`
  unfoldable pub parse : Str → M (ServerRoute R) (Option R)
  parse expression r = parsed (parse_rules on_rule expression (r, none))

  -- `newRoute.Priority(…)` panics on a nil route.
  abbrev pub with_priority : Str → Run (ServerRoute R) (Option R) → Run (ServerRoute R) (Unit {0})
  with_priority rule (done none r) = panic r
  with_priority rule (done (some t) r) =
      done tt (record r { route = mux.with_priority (mux.priority r.route + length rule) t })
  with_priority rule (fail e r) = fail e r
  with_priority rule (panic r) = panic r

  -- `getRoute` of server/server.go
  unfoldable pub get_route : Str → M (ServerRoute R) (Unit {0})
  get_route rule r = with_priority rule (parse rule r)
