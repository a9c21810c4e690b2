-- ===== src/Osio/AuthParam/Moved.antt =====
-- What the middleware of middlewares/osio/osio_request.go hands to the next handler.
use fabric8_oso_proxy.Base.{none, [], ◌≡◌, ◌≢◌, ◌⊎◌, if◌then◌else◌}
use fabric8_oso_proxy.Base.Maps.{lookup}
use fabric8_oso_proxy.Base.Strings.{Str, equal}
use fabric8_oso_proxy.Net.Header
use fabric8_oso_proxy.Net.Query.{parse_query}
use fabric8_oso_proxy.Net.Request.{Request}
use fabric8_oso_proxy.Net.Url
use fabric8_oso_proxy.Osio.AuthParam.{access_token, get_param}
use fabric8_oso_proxy.Osio.Handler.{options, bearer}
use fabric8_oso_proxy.Osio.Types.{authorization}

-- The token has moved from the query to the header.
pub record IsMoved (r r' : Request) : Type 0 where
  pub headers :
      (k : Str)
      → Header.get r'.header k ≡ (
          if equal authorization k
          then bearer (get_param r access_token)
          else Header.get r.header k)
  pub params :
      (k : Str)
      → lookup k (parse_query r'.url.raw_query)
        ≡ (if equal access_token k then none else lookup k (parse_query r.url.raw_query))
  pub method : r'.method ≡ r.method
  pub path : r'.url.path ≡ r.url.path
  pub uri : r'.uri ≡ Url.request_uri r'.url

pub data Passed (r r' : Request) : Type 0 where
  kept : (r.method ≡ options) ⊎ (get_param r access_token ≡ []) → r' ≡ r → Passed r r'
  moved : r.method ≢ options → get_param r access_token ≢ [] → IsMoved r r' → Passed r r'
