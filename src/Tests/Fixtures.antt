-- ===== src/Tests/Fixtures.antt =====
-- One user, one tenant and one cluster, and locators that know no others.
use fabric8_oso_proxy.Base.{false, [], ◌∷◌, ◌++◌, if◌then◌else◌, ◌==◌}
use fabric8_oso_proxy.Base.Run.{Run, done, with_value}
use fabric8_oso_proxy.Net.Request.{Request}
use fabric8_oso_proxy.Osio.Cache.{empty, force, get_value}
use fabric8_oso_proxy.Base.Strings.{
  equal, split, cons_first, index, has_prefix, has_suffix, trim_prefix, trim_suffix, Str, codes,
}
use fabric8_oso_proxy.Osio.Handler.{
  serve_http, serve, serve_token, locate_by_id, forward, route, route_as, Action, next, redirect,
}
use fabric8_oso_proxy.Osio.Paths.{
  get_token, extract_token, extract_user_id, get_namespace_name, ensure_leading_slash,
  get_redirect_url, get_request_type, get_target_url, is_redirect_request, normalize_url,
  remove_user_id, strip_path_prefix, strip_prefix, strip_request_path_prefix,
}
use fabric8_oso_proxy.Net.Header
use fabric8_oso_proxy.Base.Maps.{lookup, delete, insert}
use fabric8_oso_proxy.Osio.Resolve.{
  resolve_by_id, resolve_cached, cache_key, call, hex_encode, resolve_by_id_without_cache,
  resolve_by_token, resolve_with_id, resolve_with_token, secret_of, secret_with, Auth,
}
use fabric8_oso_proxy.Osio.Cache
use fabric8_oso_proxy.Net.Url
use fabric8_oso_proxy.Osio.Resolve.Ends.{NeverPanics}
use fabric8_oso_proxy.Osio.Types.{
  authorization, user_id_header, che_token, user_token, TokenType, Namespace, Locators,
}

abbrev pub alice : Namespace
alice = record {
  name = codes "alice";
  kind = codes "user";
  cluster_url = codes "https://one/";
  cluster_metrics_url = codes "https://metrics.one";
  cluster_console_url = codes "https://console.one/";
  cluster_logging_url = codes "https://logs.one";
}

abbrev pub type_of : Str → TokenType
type_of [] = user_token
type_of (c ∷ token) = if c == b'#' then che_token else user_token

-- The state counts nothing; every call succeeds.
abbrev pub locators : Locators (Unit {0})
locators = record {
  get_tenant = λ t k s. done alice s;
  get_tenant_by_id = λ t k u s. done alice s;
  get_token_with_user_token = λ t u s. done (codes "os") s;
  get_token_with_sa_token = λ t u s. done (codes "cluster") s;
  srv_acc_token = λ s. done (codes "sa") s;
  get_name = λ c t n k s. done (codes "che-token-1") s;
  get_secret = λ c t n k s. done (codes "secret") s;
  token_type = λ t s. done (type_of t) s;
}

pub quiet : NeverPanics locators
quiet = record {
  get_tenant = λ t k s. with_value alice s;
  get_tenant_by_id = λ t k u s. with_value alice s;
  get_token_with_user_token = λ t u s. with_value (codes "os") s;
  get_token_with_sa_token = λ t u s. with_value (codes "cluster") s;
  srv_acc_token = λ s. with_value (codes "sa") s;
  get_name = λ c t n k s. with_value (codes "che-token-1") s;
  get_secret = λ c t n k s. with_value (codes "secret") s;
  token_type = λ t s. with_value (type_of t) s;
}

-- A hash without collisions.
abbrev pub digest : Str → Str
digest s = s

abbrev pub no_cache : Auth (Unit {0})
no_cache = record { cache = empty; services = tt }

abbrev pub request : Str → Str → Request
request token path = record {
  method = codes "GET";
  url = record {
    scheme = [];
    opaque = [];
    path = path;
    raw_path = [];
    force_query = false;
    raw_query = codes "a=b";
  };
  uri = path;
  header =
      (authorization, (codes "Bearer " ++ token) ∷ []) ∷ (user_id_header, codes "bob" ∷ []) ∷ [];
}

abbrev pub forwarded_of : Run (Auth (Unit {0})) Action → Request
forwarded_of (done (next r) a) = r
forwarded_of _ = request [] []

abbrev pub redirect_of : Run (Auth (Unit {0})) Action → Str
redirect_of (done (redirect u c) a) = u
redirect_of _ = []

-- Everything that a run of the handler computes.
unfoldable pub handling : Unit {0}
unfolding equal split cons_first index has_prefix has_suffix trim_prefix trim_suffix serve_http
    serve serve_token locate_by_id forward route route_as get_token extract_token extract_user_id
    get_namespace_name ensure_leading_slash get_redirect_url get_request_type get_target_url
    is_redirect_request normalize_url remove_user_id strip_path_prefix strip_prefix
    strip_request_path_prefix Header.get Header.del Header.set lookup delete insert resolve_by_id
    resolve_cached cache_key call hex_encode resolve_by_id_without_cache resolve_by_token
    resolve_with_id resolve_with_token secret_of secret_with Cache.get force get_value Url.escape
    Url.escape_byte Url.escaped_path Url.from_hex Url.hex_digit Url.request_uri Url.should_escape
    Url.unescape Url.valid_encoded_path
handling = tt
