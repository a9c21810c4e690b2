-- ===== src/Tests/Rules.antt =====
-- The theorems on rules, at concrete expressions.
use fabric8_oso_proxy.Base.{ℕ, suc, true, none, List, [], ◌∷◌, ◌++◌, ◌≡◌, ◌≢◌, ◌↔◌, refl}
use fabric8_oso_proxy.Base.Fields.{fields_func, fields_rest, join}
use fabric8_oso_proxy.Base.Maps.{lookup}
use fabric8_oso_proxy.Base.Run.{done, panic, M, ok}
use fabric8_oso_proxy.Base.Strings.{split, cons_first, Str, codes, has_suffix, trim_suffix, equal}
use fabric8_oso_proxy.Base.Trim.{
  IsTrimmed, space_len, space_len_back, trim_space, trim_left, trim_right, drop_while_found,
}
use fabric8_oso_proxy.Cluster.Rules.{create_frontend, normalize_url}
use fabric8_oso_proxy.Cluster.Rules.Parsed.{header_args, first_rule, parse_rules-create_frontend}
use fabric8_oso_proxy.Middlewares.Rewrite.Wired.{new_route}
use fabric8_oso_proxy.Rules.{
  Function, host, headers, path_prefix_strip, add_prefix, is_comma, is_semicolon, Rule, parse_rules,
  parse_domains, apply_rules, read_rule,
}
use fabric8_oso_proxy.Rules.Domains.{
  contains, request_domain, parse_domains-print_rules, matches_host-parse_domains,
}
use fabric8_oso_proxy.Rules.Nil.{IsFatal, get_route-eq-panic_iff}
use fabric8_oso_proxy.Rules.Odd.{is_even, WantsPairs}
use fabric8_oso_proxy.Rules.Parsed.{run_rules, parse_rules-print_rules}
use fabric8_oso_proxy.Rules.Printed.{
  IsArgument, KeepsColons, IsRule, print_args, print_rules, lacks, lacks_sound,
}
use fabric8_oso_proxy.Rules.Routes.{
  Mux, Strings, MatchedRequest, ServerRoute, matches_host, get_route, parse, on_rule, call,
  returns_route,
}

-- Each rule that is called.
abbrev log : Function → List Str → M (List Rule) (Unit {0})
log f args s = done tt (s ++ (f, args) ∷ [])

-- A router that counts its matchers, and a sort that has nothing to do.
abbrev pub counting : Mux ℕ
counting = record {
  matcher_func = λ m r. suc r;
  subrouter = λ ts r. suc r;
  with_methods = λ ms r. suc r;
  with_headers = λ hs r. suc r;
  with_headers_regexp = λ hs r. suc r;
  with_queries = λ qs r. (suc r, is_even qs);
  get_error = λ r. none;
  priority = λ r. 0;
  with_priority = λ n r. r;
}

abbrev pub plain : Strings
plain = record { split_host_port = λ h. none; to_lower = λ s. s; by_size = λ ps. ps }

IsArgument-of :
    (s : Str)
    → lacks is_comma s ≡ true
    → lacks is_semicolon s ≡ true
    → s ≢ []
    → IsTrimmed s
    → IsArgument s
IsArgument-of s commas semicolons filled trimmed =
    ((lacks_sound is_comma s commas, filled), lacks_sound is_semicolon s semicolons, trimmed)

pub IsRule-of : (f : Function) (a : Str) → IsArgument a → KeepsColons a → IsRule (f, a ∷ [])
unfolding join
IsRule-of f a i k = record { has_args = λ e. cc; args = (i, tt); colons = k }

pub api_IsRule : IsRule (path_prefix_strip, codes "/api" ∷ [])
unfolding lacks space_len space_len_back join fields_func fields_rest
api_IsRule =
    IsRule-of path_prefix_strip (codes "/api")
      (IsArgument-of (codes "/api") refl refl (λ e. cc) (refl, refl)) refl

pub v2_IsRule : IsRule (add_prefix, codes "/v2" ∷ [])
unfolding lacks space_len space_len_back join fields_func fields_rest
v2_IsRule =
    IsRule-of add_prefix (codes "/v2")
      (IsArgument-of (codes "/v2") refl refl (λ e. cc) (refl, refl)) refl

host_IsRule : IsRule (host, codes "example.org" ∷ [])
unfolding lacks space_len space_len_back join fields_func fields_rest
host_IsRule =
    IsRule-of host (codes "example.org")
      (IsArgument-of (codes "example.org") refl refl (λ e. cc) (refl, refl)) refl

parse_rules-print_rules_example :
    parse_rules log
      (print_rules ((path_prefix_strip, codes "/api" ∷ []) ∷ (add_prefix, codes "/v2" ∷ []) ∷ []))
      []
    ≡ run_rules log
        ((path_prefix_strip, codes "/api" ∷ []) ∷ (add_prefix, codes "/v2" ∷ []) ∷ [])
        []
parse_rules-print_rules_example =
    parse_rules-print_rules log (path_prefix_strip, codes "/api" ∷ [])
      ((add_prefix, codes "/v2" ∷ []) ∷ []) [] (api_IsRule, (v2_IsRule, tt))

abbrev no_route : ServerRoute ℕ
no_route = new_route 0

counting-WantsPairs : WantsPairs counting
counting-WantsPairs qs t = refl

-- The second query has one part.
abbrev odd_rule : Str
odd_rule = codes "Query:a=b;Query:foo"

abbrev behind_odd : ServerRoute ℕ
behind_odd = record no_route { route = 2 }

get_route-eq-panic_iff_example :
    (get_route plain counting odd_rule no_route ≡ panic behind_odd)
    ↔ IsFatal plain counting odd_rule no_route behind_odd
get_route-eq-panic_iff_example =
    get_route-eq-panic_iff plain counting odd_rule no_route behind_odd counting-WantsPairs

odd_rule_run : get_route plain counting odd_rule no_route ≡ panic behind_odd
unfolding get_route parse on_rule call returns_route parse_rules apply_rules read_rule fields_func
    fields_rest join lookup equal trim_space trim_left trim_right drop_while_found space_len
    space_len_back split cons_first
odd_rule_run = refl

abbrev asked : MatchedRequest
asked = record { host_name = codes "example.org"; url_path = codes "/" }

example_domains :
    parse_domains plain.to_lower (print_rules ((host, codes "example.org" ∷ []) ∷ []))
    ≡ ok (codes "example.org" ∷ [])
unfolding trim_space trim_left trim_right drop_while_found space_len space_len_back
example_domains =
    parse_domains-print_rules plain.to_lower (host, codes "example.org" ∷ []) [] (host_IsRule, tt)

matches_host-parse_domains_example :
    matches_host plain (codes "example.org" ∷ []) asked
    ≡ contains (request_domain plain asked) (codes "example.org" ∷ [])
matches_host-parse_domains_example =
    matches_host-parse_domains plain (codes "example.org" ∷ []) asked (codes "example.org" ∷ [])
      host_IsRule example_domains

abbrev api_url : Str
api_url = codes "https://api.example.org/"

api_url_IsArgument : IsArgument (normalize_url api_url)
unfolding normalize_url trim_suffix has_suffix equal lacks space_len space_len_back
api_url_IsArgument =
    IsArgument-of (codes "https://api.example.org") refl refl (λ e. cc) (refl, refl)

api_url_KeepsColons : KeepsColons (print_args (header_args api_url))
unfolding normalize_url trim_suffix has_suffix equal join fields_func fields_rest
api_url_KeepsColons = refl

parse_rules-create_frontend_example :
    parse_rules log (first_rule (create_frontend api_url (codes "api1")).routes) []
    ≡ run_rules log ((headers, header_args api_url) ∷ []) []
parse_rules-create_frontend_example =
    parse_rules-create_frontend log api_url (codes "api1") [] api_url_IsArgument api_url_KeepsColons
