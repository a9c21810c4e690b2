-- ===== src/Osio/Handler/Answers.antt =====
-- The other answers of the handler: the redirect, 401, and when it is neither.
use fabric8_oso_proxy.Base.{
  ℕ, true, not, some, [], ◌∷◌, ◌++◌, ◌≡◌, ◌≢◌, refl, sym, ap, ◌∙◌, ◌⊎◌, ◌↔◌, inl, inr,
  if◌then◌else◌, Bool-cases,
}
use fabric8_oso_proxy.Base.Strings.{Str, codes, equal, equal_ne, equal_refl}
use fabric8_oso_proxy.Base.Run.{Error, done}
use fabric8_oso_proxy.Net.Request.{Request}
use fabric8_oso_proxy.Osio.Handler.{
  status, redirect, unauthorized, options, route_as, route, serve_token, serve, serve_http,
}
use fabric8_oso_proxy.Osio.Handler.Served.{
  Served, Fails, Rejected, no_token, bad_token, no_user, no_data, serve-Verdict,
}
use fabric8_oso_proxy.Osio.Handler.Safety.{serve_http-serve}
use fabric8_oso_proxy.Osio.Paths.{
  extract_user_id, get_request_type, strip_path_prefix, normalize_url, get_target_url,
  is_redirect_request, get_redirect_url,
}
use fabric8_oso_proxy.Osio.Resolve.{Auth}
use fabric8_oso_proxy.Osio.Types.{
  TokenType, user_token, CacheData, Locators, RequestType, console, logs,
}

abbrev with_query : Str → Str → Str
with_query u [] = u
with_query u (c ∷ q) = u ++ b'?' ∷ c ∷ q

-- Where a redirect leads: the console of the cluster, or its logging with the query.
pub data IsRedirect (r : Request) (d : CacheData) (url : Str) : Type 0 where
  to_console :
      get_request_type r.url.path ≡ console
      → url
        ≡ normalize_url d.namespace.cluster_console_url ++ (strip_path_prefix console r).url.path
      → IsRedirect r d url
  to_logs :
      get_request_type r.url.path ≡ logs
      → url
        ≡ with_query
            (normalize_url d.namespace.cluster_logging_url ++ (strip_path_prefix logs r).url.path)
            (strip_path_prefix logs r).url.raw_query
      → IsRedirect r d url

get_redirect_url_logs :
    (u : Str) (r : Request)
    → get_redirect_url logs u r ≡ with_query (u ++ r.url.path) r.url.raw_query
unfolding get_redirect_url equal
get_redirect_url_logs u r = by_query r.url.raw_query
  where
    by_query :
        (q : Str)
        → (if not (equal q []) then (u ++ r.url.path) ++ (codes "?" ++ q) else u ++ r.url.path)
          ≡ with_query (u ++ r.url.path) q
    by_query [] = refl
    by_query (c ∷ q) = refl

get_redirect_url_console : (u : Str) (r : Request) → get_redirect_url console u r ≡ u ++ r.url.path
unfolding get_redirect_url
get_redirect_url_console u r = refl

route_as-redirect :
    (t : RequestType) (tt : TokenType) (d : CacheData) (r : Request) (url : Str) (code : ℕ)
    → route_as t tt d r ≡ redirect url code
    → (is_redirect_request t ≡ true)
      × (code ≡ 307)
      × (url
          ≡ get_redirect_url t
              (normalize_url (get_target_url t d.namespace))
              (strip_path_prefix t r))
unfolding route_as
route_as-redirect t tt d r url code h = elim (Bool-cases (is_redirect_request t)) [
  | inl away ↦ let k = rw away at h in (away, sym (cc k), sym (cc k))
  | inr stays ↦ absurd (cc (rw stays at h))
]

route-IsRedirect :
    (tt : TokenType) (d : CacheData) (r : Request) (url : Str) (code : ℕ) (t : RequestType)
    → get_request_type r.url.path ≡ t
    → (is_redirect_request t ≡ true)
      × (code ≡ 307)
      × (url
          ≡ get_redirect_url t
              (normalize_url (get_target_url t d.namespace))
              (strip_path_prefix t r))
    → (code ≡ 307) × IsRedirect r d url
unfolding is_redirect_request get_target_url
route-IsRedirect tt d r url code console e (_, c, u) =
    (c, to_console e (u ∙ get_redirect_url_console _ _))
route-IsRedirect tt d r url code logs e (_, c, u) = (c, to_logs e (u ∙ get_redirect_url_logs _ _))
route-IsRedirect tt d r url code _ e (no_redirect, _, _) = cc

route-ne-status :
    (tt : TokenType) (d : CacheData) (t : RequestType) (r : Request) {code : ℕ}
    → route_as t tt d r ≢ status code
unfolding route_as
route-ne-status tt d t r h = elim (Bool-cases (is_redirect_request t)) [
  | inl away ↦ cc (rw away at h)
  | inr stays ↦ cc (rw stays at h)
]

module _ {S : Type 0} (digest : Str → Str) (l : Locators S) (r : Request) (a a' : Auth S) where
  -- If the handler redirects a request that is not an OPTIONS request, then with the code 307,
  -- after a token, its type and a lookup as for a forwarded request, and with the stripped path
  -- either to the console of the cluster for a console path, or to its logging for a logs path,
  -- there with the query.
  pub serve_http-IsRedirect :
      (url : Str) (code : ℕ)
      → r.method ≢ options
      → serve_http digest (some l) r a ≡ done (redirect url code) a'
      → (v : Served digest l r a a' (redirect url code)) × (code ≡ 307) × IsRedirect r v.cached url
  unfolding route
  serve_http-IsRedirect url code m h =
      elim (serve-Verdict digest l r a a' (redirect url code)
        (serve_http-serve digest l r a a' (redirect url code) m h)) [
          | inl refused ↦ absurd (cc refused.0)
          | inr v ↦
              let (c, i) =
                route-IsRedirect v.token_type v.cached r url code (get_request_type r.url.path) refl
                  (route_as-redirect _ v.token_type v.cached r url code v.routed) in
              (v, c, i)
        ]

  serve_token-Fails :
      (token : Str) (tt : TokenType) (b : Auth S) (e : Error)
      → Fails digest l r token tt b e a'
      → serve_token digest l r token tt b ≡ done (status unauthorized) a'
  unfolding serve_token
  serve_token-Fails token tt b e (inl (user, ran)) =
      rw (ap (λ x. equal x user_token) user ∙ equal_refl user_token) (rw ran refl)
  serve_token-Fails token tt b e (inr (service, present, ran)) =
      rw (equal_ne tt user_token service, equal_ne (extract_user_id r) [] present) (rw ran refl)

  serve-Rejected : Rejected digest l r a a' → serve digest l r a ≡ done (status unauthorized) a'
  unfolding serve serve_token
  serve-Rejected (no_token e h same) = rw (h, same) refl
  serve-Rejected (bad_token token e s h k same) = rw (h, k, same) refl
  serve-Rejected (no_user token tt s h k service missing same) =
      rw (h, k, same, equal_ne tt user_token service, missing) (rw (equal_refl []) refl)
  serve-Rejected (no_data token tt s e h k fails) =
      rw (h, k) (serve_token-Fails token tt (record a { services = s }) e fails)

  -- For a request that is not an OPTIONS request, the handler answers 401 and leaves the state
  -- `a'` exactly if one of these holds and leads to `a'`: there is no token, the token gets no
  -- type, a token that is not a user's comes without a user, or the lookup fails.
  pub serve_http-Rejected :
      r.method ≢ options
      → (serve_http digest (some l) r a ≡ done (status 401) a') ↔ Rejected digest l r a a'
  unfolding serve_http route
  serve_http-Rejected m = (
    λ h.
        rejected
          (serve-Verdict digest l r a a' (status 401) (rw (equal_ne r.method options m) at h)),
    λ h. rw (equal_ne r.method options m) (serve-Rejected h),
  )
    where
      rejected :
          (status 401 ≡ status unauthorized) × Rejected digest l r a a'
            ⊎ Served digest l r a a' (status 401)
          → Rejected digest l r a a'
      rejected (inl (_, h)) = h
      rejected (inr v) =
          absurd (route-ne-status v.token_type v.cached (get_request_type r.url.path) r v.routed)
