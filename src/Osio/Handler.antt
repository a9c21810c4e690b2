-- ===== src/Osio/Handler.antt =====
-- middlewares/osio/osio.go: `OSIOAuth.ServeHTTP`.
pub mod Served
pub mod Safety
pub mod Answers
pub mod Total
pub mod Invariant
use fabric8_oso_proxy.Base.{
  ℕ, Bool, true, false, not, Option, none, some, List, [], ◌∷◌, ◌++◌, if◌then◌else◌,
}
use fabric8_oso_proxy.Base.Strings.{Str, codes, equal}
use fabric8_oso_proxy.Base.Run.{Run, done, fail, panic, M, pure, throw, Outcome, ok, err, crash}
use fabric8_oso_proxy.Net.Header
use fabric8_oso_proxy.Net.Request.{Request}
use fabric8_oso_proxy.Osio.Paths.{
  get_token, extract_user_id, get_namespace_name, get_request_type, strip_path_prefix,
  normalize_url, get_target_url, is_redirect_request, get_redirect_url, remove_user_id,
}
use fabric8_oso_proxy.Osio.Resolve.{
  Auth, resolve_by_token, resolve_by_id, resolve_by_id_without_cache,
}
use fabric8_oso_proxy.Osio.Types.{
  TokenType, user_token, authorization, CacheData, Locators, RequestType,
}

-- What the handler does: it writes a status, redirects, or hands the request to the next handler.
pub data Action : Type 0 where
  status : ℕ → Action
  redirect : Str → ℕ → Action
  next : Request → Action

abbrev pub unauthorized : ℕ
unauthorized = 401

abbrev pub temporary_redirect : ℕ
temporary_redirect = 307

abbrev pub options : Str
options = codes "OPTIONS"

abbrev pub target : Str
target = codes "Target"

abbrev pub bearer : Str → Str
bearer token = codes "Bearer " ++ token

module _ {S : Type 0} where
  abbrev pub unless_failed : {A : Type 0} → Run S A → (A → M S Action) → Run S Action
  unless_failed (done a s) f = f a s
  unless_failed (fail e s) f = done (status unauthorized) s
  unless_failed (panic s) f = panic s

  -- `if err != nil { rw.WriteHeader(http.StatusUnauthorized); return }`
  abbrev pub or_unauthorized : {A : Type 0} → M S A → (A → M S Action) → M S Action
  or_unauthorized m f s = unless_failed (m s) f

  abbrev pub from_outcome : {A : Type 0} → Outcome A → M S A
  from_outcome (ok a) s = done a s
  from_outcome (err e) s = fail e s
  from_outcome crash s = panic s

  abbrev pub with_services : {A : Type 0} → Auth S → Run S A → Run (Auth S) A
  with_services a (done x s) = done x (record a { services = s })
  with_services a (fail e s) = fail e (record a { services = s })
  with_services a (panic s) = panic (record a { services = s })

  abbrev pub on_services : {A : Type 0} → M S A → M (Auth S) A
  on_services m a = with_services a (m a.services)

abbrev pub with_header : Request → Str → Str → Request
with_header r k v = record r { header = Header.set r.header k v }

-- The last part of the handler, on a request whose path is already stripped.
unfoldable pub forward : TokenType → CacheData → Str → Request → Request
forward tt cached target_url r =
    let r' = with_header (with_header r target target_url) authorization (bearer cached.token) in
    if not (equal tt user_token) then remove_user_id r' else r'

unfoldable pub route_as : RequestType → TokenType → CacheData → Request → Action
route_as req_type tt cached r =
    let stripped = strip_path_prefix req_type r in
    let target_url = normalize_url (get_target_url req_type cached.namespace) in
    if is_redirect_request req_type
    then redirect (get_redirect_url req_type target_url stripped) temporary_redirect
    else next (forward tt cached target_url stripped)

unfoldable pub route : TokenType → Request → CacheData → Action
route tt r cached = route_as (get_request_type r.url.path) tt cached r

module _ {S : Type 0} (digest : Str → Str) where
  -- The lookup for a service's token, behind the test of the user's identity.
  unfoldable pub locate_by_id : Locators S → Str → Str → TokenType → Str → M (Auth S) CacheData
  locate_by_id l user_id token tt name =
      if equal name []
      then resolve_by_id_without_cache digest l user_id token tt name
      else resolve_by_id digest l user_id token tt name

  unfoldable pub serve_token : Locators S → Request → Str → TokenType → M (Auth S) Action
  serve_token l r token tt =
      if not (equal tt user_token)
      then if equal (extract_user_id r) []
        then pure (status unauthorized)
        else or_unauthorized
            (locate_by_id l (extract_user_id r) token tt (get_namespace_name r.url.path))
            (λ cached. pure (route tt r cached))
      else or_unauthorized (resolve_by_token digest l token tt) (λ cached. pure (route tt r cached))

  unfoldable pub serve : Locators S → Request → M (Auth S) Action
  serve l r =
      or_unauthorized (from_outcome (get_token r))
        λ token. or_unauthorized (on_services (l.token_type token)) λ tt. serve_token l r token tt

  -- `none` is a nil `RequestTenantLocation`.
  unfoldable pub serve_http : Option (Locators S) → Request → M (Auth S) Action
  serve_http none r = pure (next r)
  serve_http (some l) r =
      if not (equal r.method options)
      then serve l r
      else pure (next (with_header r target (codes "default")))
