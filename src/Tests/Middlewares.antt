-- ===== src/Tests/Middlewares.antt =====
-- The theorems on the handlers that change, repeat or answer requests, at concrete requests.
use fabric8_oso_proxy.Base.{
  ℕ, zero, suc, true, false, none, some, List, [], ◌∷◌, ◌≡◌, ◌⊎◌, inl, inr, refl, ap, arith, map,
  length,
}
use fabric8_oso_proxy.Base.Strings.{Str, codes, equal, has_prefix, index}
use fabric8_oso_proxy.Base.Trim.{
  trim_space, trim_left, trim_right, drop_while_found, space_len, space_len_back,
}
use fabric8_oso_proxy.Middlewares.ErrorPages
use fabric8_oso_proxy.Middlewares.ErrorPages.Answered
use fabric8_oso_proxy.Middlewares.ErrorPages.Answered.{serve-new_handler}
use fabric8_oso_proxy.Middlewares.Retry
use fabric8_oso_proxy.Middlewares.Retry.Bounds.{IsServed, last_calls, serve_total}
use fabric8_oso_proxy.Middlewares.Retry.Shown.{IsEarly, all_shown, serve_shows_last}
use fabric8_oso_proxy.Middlewares.Rewrite.{
  Replies, Patterns, unmatched, forwarded_prefix_header, with_uri, with_added, serve_strip_prefix,
  serve_add_prefix, wire_frontend_backend,
}
use fabric8_oso_proxy.Middlewares.Rewrite.Stripped.{
  Has, StripsLongest, serve_add_prefix-serve_strip_prefix, serve_strip_prefix-IsLongest,
}
use fabric8_oso_proxy.Middlewares.Rewrite.Wired.{
  IsRewritten, new_route, wire_frontend_backend-get_route,
}
use fabric8_oso_proxy.Net.Request.{Request}
use fabric8_oso_proxy.Rules.Routes.{
  ServerRoute, build_path, call, returns_route, get_route, parse, on_rule,
}
use fabric8_oso_proxy.Base.Fields.{fields_func, fields_rest, join}
use fabric8_oso_proxy.Base.Maps.{lookup}
use fabric8_oso_proxy.Base.Run.{done}
use fabric8_oso_proxy.Rules.{
  path_prefix_strip, add_prefix, Rule, parse_rules, apply_rules, read_rule,
}
use fabric8_oso_proxy.Rules.Printed.{print_rules}
use fabric8_oso_proxy.Types.StatusCodes.{
  Block, IsWithin, print_block, new_http_code_ranges-print_block,
}
use fabric8_oso_proxy.Tests.Fixtures.{request}
use fabric8_oso_proxy.Tests.Rules.{counting, plain, api_IsRule, v2_IsRule}

-- A handler's answer is the path that it sees.
abbrev replies : Replies Str
replies = record { not_found = codes "404"; nothing = []; panicked = codes "panic" }

abbrev seen : Request → Str
seen r = r.url.path

abbrev ask : Request
ask = request [] (codes "/api/users")

serve_add_prefix-serve_strip_prefix_example :
    serve_add_prefix (codes "/v2") (serve_strip_prefix replies (codes "/v2" ∷ []) seen) ask
    ≡ seen (with_uri (with_added ask forwarded_prefix_header (trim_space (codes "/v2"))))
serve_add_prefix-serve_strip_prefix_example =
    serve_add_prefix-serve_strip_prefix replies (codes "/v2") [] seen ask
      ((codes "api/users", refl), inl refl)

abbrev prefixes : List Str
prefixes = codes "/api/v1" ∷ codes "/api" ∷ codes "/web" ∷ []

abbrev reordered : List Str
reordered = codes "/api/v1" ∷ codes "/web" ∷ codes "/api" ∷ []

serve_strip_prefix-IsLongest_example : StripsLongest replies prefixes seen ask
serve_strip_prefix-IsLongest_example =
    serve_strip_prefix-IsLongest replies prefixes seen ask (omega arith)

to_reordered : (p : Str) → Has p prefixes → Has p reordered
to_reordered p (inl e) = inl e
to_reordered p (inr (inl e)) = inr (inr (inl e))
to_reordered p (inr (inr (inl e))) = inr (inl e)
to_reordered p (inr (inr (inr m))) = absurd m

from_reordered : (p : Str) → Has p reordered → Has p prefixes
from_reordered p (inl e) = inl e
from_reordered p (inr (inl e)) = inr (inr (inl e))
from_reordered p (inr (inr (inl e))) = inr (inl e)
from_reordered p (inr (inr (inr m))) = absurd m

abbrev no_patterns : Patterns
no_patterns = record { compile = λ s. none; match_prefix = λ ps r. unmatched }

abbrev before_rules : ServerRoute ℕ
before_rules = new_route 0

-- What the two rules of the test leave.
abbrev after_rules : ServerRoute ℕ
after_rules = record before_rules {
  route = 1;
  strip_prefixes = codes "/api" ∷ [];
  add_prefix_of = codes "/v2";
}

abbrev two_rules : List Rule
two_rules = (path_prefix_strip, codes "/api" ∷ []) ∷ (add_prefix, codes "/v2" ∷ []) ∷ []

two_rules_route :
    get_route plain counting (print_rules two_rules) before_rules ≡ done tt after_rules
unfolding get_route parse on_rule call returns_route parse_rules apply_rules read_rule fields_func
    fields_rest join lookup equal trim_space trim_left trim_right drop_while_found space_len
    space_len_back build_path index has_prefix
two_rules_route = refl

wire_frontend_backend-get_route_example :
    ((req' : Request) × (wire_frontend_backend no_patterns replies after_rules seen ask ≡ seen req')
      × IsRewritten (codes "/api") (codes "/v2") ask req')
    ⊎ ((has_prefix ask.url.path (codes "/api") ≡ false)
        × (wire_frontend_backend no_patterns replies after_rules seen ask ≡ replies.not_found))
wire_frontend_backend-get_route_example =
    wire_frontend_backend-get_route plain counting no_patterns replies (codes "/api") (codes "/v2")
      0 after_rules seen ask api_IsRule v2_IsRule refl two_rules_route

-- The first attempt meets a network error.
abbrev backends : ℕ → List Retry.Call × ℕ
backends zero = (Retry.record_error ∷ Retry.write_header 502 ∷ [], 1)
backends (suc n) = (Retry.write_header 200 ∷ Retry.write (codes "ok") ∷ [], suc (suc n))

serve_total_example :
    (r : Retry.Served ℕ) × (Retry.serve 3 backends 0 ≡ some r) × IsServed 3 backends 1 0 r
serve_total_example = serve_total 3 backends 0

backends-IsEarly : (n : ℕ) → IsEarly (backends n).0
backends-IsEarly zero = inr (Retry.write_header 502 ∷ [], refl, (refl, tt))
backends-IsEarly (suc n) = inl (refl, (refl, tt))

abbrev served_twice : Retry.Served ℕ
served_twice = record {
  state = 2;
  effects = Retry.header_written 200 ∷ Retry.written (codes "ok") ∷ [];
  retried = 2 ∷ [];
}

backends_served : Retry.serve 3 backends 0 ≡ some served_twice
unfolding Retry.serve Retry.serve_from Retry.attempt
backends_served = refl

serve_shows_last_example :
    served_twice.effects ≡ all_shown (last_calls 3 backends (length served_twice.retried) 0)
serve_shows_last_example =
    serve_shows_last 3 backends 0 served_twice backends-IsEarly backends_served

abbrev pages : ErrorPages.Pages
pages = record {
  replace_status = λ s code. s;
  status_text = λ code. [];
  request_fails = λ url. false;
}

abbrev never : ErrorPages.Writer
never effects = false

abbrev down : List ErrorPages.Call
down = ErrorPages.write_header 503 ∷ ErrorPages.write (codes "down") ∷ []

abbrev sorry : Str → List ErrorPages.Call
sorry url = ErrorPages.write (codes "sorry") ∷ []

abbrev server_errors : List Block
server_errors = (500, 599) ∷ []

abbrev error_pages : ErrorPages.Handler
error_pages = record {
  backend_name = codes "errors";
  has_backend = false;
  ranges = server_errors;
  backend_url = codes "http://0.0.0.0";
  backend_query = [];
  fallback_url = [];
}

error_pages_made :
    ErrorPages.new_handler (map print_block server_errors) [] (codes "errors") ≡ some error_pages
unfolding ErrorPages.new_handler equal
error_pages_made =
    ap (ErrorPages.with_ranges (codes "errors") [])
      (new_http_code_ranges-print_block server_errors ((omega arith, omega arith), tt))

serve-new_handler_example :
    (IsWithin (Answered.status_of 200 down) server_errors
      × (ErrorPages.serve pages never down sorry (ErrorPages.post_load true error_pages)
          ≡ Answered.page_response
              (sorry
                (Answered.page_url pages never down sorry (ErrorPages.post_load true error_pages)))
              (Answered.status_of 200 down)))
    ⊎ ((¬ IsWithin (Answered.status_of 200 down) server_errors)
        × (ErrorPages.serve pages never down sorry (ErrorPages.post_load true error_pages)
            ≡ Answered.response down))
serve-new_handler_example =
    serve-new_handler pages never down sorry server_errors [] (codes "errors") true error_pages
      ((omega arith, omega arith), tt) error_pages_made (refl, (refl, tt)) (λ url. (refl, tt)) refl
