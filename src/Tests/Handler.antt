-- ===== src/Tests/Handler.antt =====
-- The theorems on the handler of middlewares/osio/osio.go, at concrete requests.
use fabric8_oso_proxy.Base.{some, [], ◌∷◌, ◌≡◌, ◌≢◌, ◌↔◌, refl}
use fabric8_oso_proxy.Base.Run.{Run, done, state_of}
use fabric8_oso_proxy.Base.Strings.{codes, equal, ne_of_equal}
use fabric8_oso_proxy.Net.Request.{Request}
use fabric8_oso_proxy.Osio.Cache.{empty}
use fabric8_oso_proxy.Osio.Cache.Invariant.{empty-IsValid}
use fabric8_oso_proxy.Osio.Handler.{
  Action, next, redirect, status, options, temporary_redirect, serve_http,
}
use fabric8_oso_proxy.Osio.Handler.Answers.{IsRedirect, serve_http-Rejected, serve_http-IsRedirect}
use fabric8_oso_proxy.Osio.Handler.Invariant.{serve_http-Valid}
use fabric8_oso_proxy.Osio.Handler.Safety.{IsForwarded, serve_http-IsForwarded}
use fabric8_oso_proxy.Osio.Handler.Served.{Served, Rejected}
use fabric8_oso_proxy.Osio.Handler.Total.{serve_http-total}
use fabric8_oso_proxy.Osio.Resolve.{Auth}
use fabric8_oso_proxy.Osio.Resolve.Isolation.{IsKeyed, Answers, Valid}
use fabric8_oso_proxy.Tests.Fixtures.{
  handling, locators, quiet, digest, no_cache, request, forwarded_of,
}

abbrev run : Request → Run (Auth (Unit {0})) Action
run r = serve_http digest (some locators) r no_cache

-- A service's request for pods, behind the prefix of the API.
abbrev pods : Request
pods = request (codes "#svc") (codes "/api/api/v1/namespaces/alice/pods")

abbrev logs_page : Request
logs_page = request (codes "token") (codes "/logs/app")

get_is_not_options : codes "GET" ≢ options
unfolding equal
get_is_not_options = ne_of_equal (codes "GET") options refl

pods-run : run pods ≡ done (next (forwarded_of (run pods))) (state_of (run pods))
unfolding handling
pods-run = refl

serve_http-IsForwarded_example :
    (v : Served digest locators pods no_cache
      (state_of (run pods))
      (next (forwarded_of (run pods))))
    × IsForwarded pods (forwarded_of (run pods)) v.token_type v.cached
serve_http-IsForwarded_example =
    serve_http-IsForwarded digest locators pods no_cache (state_of (run pods))
      (forwarded_of (run pods)) get_is_not_options pods-run

-- The same request without a user for the service.
abbrev no_user : Request
no_user = record pods { header = (codes "Authorization", codes "Bearer #svc" ∷ []) ∷ [] }

serve_http-Rejected_example :
    (serve_http digest (some locators) no_user no_cache ≡ done (status 401) no_cache)
    ↔ Rejected digest locators no_user no_cache no_cache
serve_http-Rejected_example =
    serve_http-Rejected digest locators no_user no_cache no_cache get_is_not_options

no_user_run : serve_http digest (some locators) no_user no_cache ≡ done (status 401) no_cache
unfolding handling
no_user_run = refl

logs_run :
    run logs_page
    ≡ done (redirect (codes "https://logs.one/app?a=b") 307) (state_of (run logs_page))
unfolding handling
logs_run = refl

serve_http-IsRedirect_example :
    (v : Served digest locators logs_page no_cache
      (state_of (run logs_page))
      (redirect (codes "https://logs.one/app?a=b") 307))
    × (temporary_redirect ≡ 307)
    × IsRedirect logs_page v.cached (codes "https://logs.one/app?a=b")
serve_http-IsRedirect_example =
    serve_http-IsRedirect digest locators logs_page no_cache (state_of (run logs_page))
      (codes "https://logs.one/app?a=b") 307 get_is_not_options logs_run

no_cache-Valid : Valid digest locators empty
no_cache-Valid = empty-IsValid (IsKeyed digest locators) (Answers digest locators)

serve_http-total_example :
    (act : Action) × (a' : Auth (Unit {0})) × (serve_http digest (some locators) pods no_cache
      ≡ done act a')
serve_http-total_example = serve_http-total locators quiet digest pods no_cache no_cache-Valid

serve_http-Valid_example : Valid digest locators (state_of (run pods)).cache
serve_http-Valid_example = serve_http-Valid digest locators pods no_cache no_cache-Valid

-- A token in the query of a request.
abbrev with_param : Request
with_param = record pods { url = record pods.url { raw_query = codes "access_token=a%20b&a=b" } }
