-- ===== src/Tests/Paths.antt =====
-- The theorems on paths, headers and targets of middlewares/osio/osio.go, at concrete requests.
use fabric8_oso_proxy.Base.Strings.{Str, codes}
use fabric8_oso_proxy.Net.Request.{Request}
use fabric8_oso_proxy.Tests.Fixtures.{request}

abbrev pods_path : Str
pods_path = codes "/api/api/v1/namespaces/alice/pods"

abbrev ask : Request
ask = request (codes "#svc") pods_path
