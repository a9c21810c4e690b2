-- ===== src/Net/Request.antt =====
-- The fields of `http.Request` that the components read or write.
use fabric8_oso_proxy.Base.Strings.{Str}
use fabric8_oso_proxy.Net.Header.{Header}
use fabric8_oso_proxy.Net.Url.{Url}

pub record Request : Type 0 where
  pub method : Str
  pub url : Url
  pub uri : Str
  pub header : Header
