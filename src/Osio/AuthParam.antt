-- ===== src/Osio/AuthParam.antt =====
-- middlewares/osio/osio_request.go: a token in the query, which moves to the header.
pub mod Moved
use fabric8_oso_proxy.Base.{Bool, true, false, not, [], if◌then◌else◌}
use fabric8_oso_proxy.Base.Maps.{lookup, delete}
use fabric8_oso_proxy.Base.Strings.{Str, codes, equal}
use fabric8_oso_proxy.Net.Header.{first_value}
use fabric8_oso_proxy.Net.Query.{Values, parse_query, encode}
use fabric8_oso_proxy.Net.Request.{Request}
use fabric8_oso_proxy.Net.Url
use fabric8_oso_proxy.Osio.Handler.{Action, next, options, bearer, with_header}
use fabric8_oso_proxy.Osio.Paths.{with_url}
use fabric8_oso_proxy.Osio.Types.{authorization}

abbrev pub access_token : Str
access_token = codes "access_token"

-- `URL.Query().Get(key)`
abbrev pub get_param : Request → Str → Str
get_param r key = first_value (lookup key (parse_query r.url.raw_query))

unfoldable pub add_auth_header : Request → Str → Request
add_auth_header r token = with_header r authorization (bearer token)

unfoldable pub remove_auth_param : Request → Request
remove_auth_param r =
    let q = delete access_token (parse_query r.url.raw_query) in
    with_url r (record r.url { raw_query = encode q })

unfoldable pub process_auth_param : Request → Request
process_auth_param r =
    let token = get_param r access_token in
    if not (equal token []) then remove_auth_param (add_auth_header r token) else r

unfoldable pub serve_request : Request → Action
serve_request r = next (if not (equal r.method options) then process_auth_param r else r)
