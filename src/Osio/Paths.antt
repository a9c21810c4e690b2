-- ===== src/Osio/Paths.antt =====
-- middlewares/osio/osio.go: the functions on a request's path, target and headers.
pub mod Strip
pub mod Target
pub mod Names
use fabric8_oso_proxy.Base.{
  ℕ, ◌+◌, ◌-◌, ◌<◌, Bool, true, false, not, ◌&&◌, ◌||◌, Option, none, some, List, [], ◌∷◌, ◌++◌,
  leb, ◌==◌, if◌then◌else◌, length, take, drop, get_elem?,
}
use fabric8_oso_proxy.Base.Strings.{
  Str, codes, equal, has_prefix, trim_prefix, trim_suffix, index, split,
}
use fabric8_oso_proxy.Base.Run.{Error, invalid_auth, missing_auth, Outcome, ok, err, crash}
use fabric8_oso_proxy.Net.Header
use fabric8_oso_proxy.Net.Url
use fabric8_oso_proxy.Net.Url.{Url}
use fabric8_oso_proxy.Net.Request.{Request}
use fabric8_oso_proxy.Osio.Types.{
  authorization, impersonate_group_header, user_id_header, RequestType, api, metrics, console, logs,
  undefine, path, api_prefix, oapi_prefix, Namespace,
}

unfoldable pub ensure_leading_slash : Str → Str
ensure_leading_slash s = b'/' ∷ trim_prefix s (codes "/")

unfoldable pub strip_prefix : Str → Str → Str
strip_prefix s prefix = ensure_leading_slash (trim_prefix s prefix)

unfoldable pub normalize_url : Str → Str
normalize_url url = trim_suffix url (codes "/")

unfoldable pub get_request_type : Str → RequestType
get_request_type req_path =
    if has_prefix req_path (path api ++ codes "/")
    then api
    else if has_prefix req_path (path metrics)
    then metrics
    else if has_prefix req_path (path console)
    then console
    else if has_prefix req_path (path logs)
    then logs
    else undefine

unfoldable pub get_target_url : RequestType → Namespace → Str
get_target_url api ns = ns.cluster_url
get_target_url metrics ns = ns.cluster_metrics_url
get_target_url console ns = ns.cluster_console_url
get_target_url logs ns = ns.cluster_logging_url
get_target_url undefine ns = ns.cluster_url

-- `req.RequestURI = req.URL.RequestURI()`, after a write to `req.URL`.
abbrev pub with_url : Request → Url → Request
with_url r u = record r { url = u; uri = Url.request_uri u }

unfoldable pub strip_request_path_prefix : Request → Str → Str → Request
strip_request_path_prefix r path_prefix strip_path =
    if has_prefix r.url.path path_prefix
    then with_url r (record r.url { path = strip_prefix r.url.path strip_path })
    else r

-- `RequestType.stripPathPrefix`
unfoldable pub strip_path_prefix : RequestType → Request → Request
strip_path_prefix api r =
    let prefix = if has_prefix r.url.path oapi_prefix then oapi_prefix else api_prefix in
    strip_request_path_prefix r prefix (path api)
strip_path_prefix metrics r = strip_request_path_prefix r (path metrics) (path metrics)
strip_path_prefix console r = strip_request_path_prefix r (path console) (path console)
strip_path_prefix logs r = strip_request_path_prefix r (path logs) (path logs)
strip_path_prefix undefine r = r

unfoldable pub is_redirect_request : RequestType → Bool
is_redirect_request console = true
is_redirect_request logs = true
is_redirect_request _ = false

abbrev is_logs : RequestType → Bool
is_logs logs = true
is_logs _ = false

unfoldable pub get_redirect_url : RequestType → Str → Request → Str
get_redirect_url rt target_url r =
    let redirect_url = target_url ++ r.url.path in
    if is_logs rt && not (equal r.url.raw_query [])
    then redirect_url ++ (codes "?" ++ r.url.raw_query)
    else redirect_url

abbrev at_last : List Str → Outcome Str
at_last [] = err invalid_auth
at_last (p ∷ []) = ok p
at_last (p ∷ q ∷ ps) = at_last (q ∷ ps)

unfoldable pub extract_token : Str → Outcome Str
extract_token auth = at_last (split auth b' ')

abbrev non_empty : Outcome Str → Outcome Str
non_empty (ok []) = err missing_auth
non_empty r = r

unfoldable pub get_token : Request → Outcome Str
get_token r = non_empty (extract_token (Header.get r.header authorization))

abbrev pub ns_path : Str
ns_path = codes "/namespaces/"

-- `path[startInd:endInd]` from the start on, by the next slash.
abbrev until_slash : Str → Option ℕ → Str
until_slash rest none = rest
until_slash rest (some n) = take n rest

abbrev after_ns_path : Str → Option ℕ → Str
after_ns_path p none = []
after_ns_path p (some n) =
    let rest = drop (n + length ns_path) p in until_slash rest (index rest (codes "/"))

unfoldable pub get_namespace_name : Str → Str
get_namespace_name p = if equal p [] then [] else after_ns_path p (index p ns_path)

unfoldable pub extract_user_id : Request → Str
extract_user_id r =
    if not (equal (Header.get r.header user_id_header) [])
    then Header.get r.header user_id_header
    else []

abbrev del_if_set : Header.Header → Str → Header.Header
del_if_set h k = if not (equal (Header.get h k) []) then Header.del h k else h

unfoldable pub remove_user_id : Request → Request
remove_user_id r =
    let h = del_if_set r.header user_id_header in
    record r { header = del_if_set h impersonate_group_header }
