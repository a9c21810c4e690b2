-- ===== src/Middlewares/Rewrite.antt =====
-- middlewares/stripPrefix.go, stripPrefixRegex.go, addPrefix.go, replace_path.go,
-- replace_path_regex.go and `wireFrontendBackend` of server/server.go. What a handler does to the
-- response is a value of `R`. Regular expressions and the router of `NewStripPrefixRegex` are
-- parameters.
pub mod Stripped
pub mod Wired
use fabric8_oso_proxy.Base.{
  ℕ, Bool, true, false, not, ◌&&◌, Option, none, some, List, [], ◌∷◌, ◌++◌, leb, if◌then◌else◌,
  length, drop,
}
use fabric8_oso_proxy.Base.Strings.{Str, codes, equal, has_prefix, trim_prefix, split}
use fabric8_oso_proxy.Base.Trim.{trim_space}
use fabric8_oso_proxy.Net.Header
use fabric8_oso_proxy.Net.Request.{Request}
use fabric8_oso_proxy.Net.Url.{Url, request_uri}
use fabric8_oso_proxy.Rules.Routes.{ServerRoute}

abbrev pub forwarded_prefix_header : Str
forwarded_prefix_header = codes "X-Forwarded-Prefix"

abbrev pub replaced_path_header : Str
replaced_path_header = codes "X-Replaced-Path"

-- What a handler makes of a request.
abbrev pub Handler : Type 0 → Type 0
Handler R = Request → R

-- `r.RequestURI = r.URL.RequestURI()`
abbrev pub with_uri : Request → Request
with_uri r = record r { uri = request_uri r.url }

unfoldable pub ensure_leading_slash : Str → Str
ensure_leading_slash s = codes "/" ++ trim_prefix s (codes "/")

unfoldable pub strip_prefix : Str → Str → Str
strip_prefix s p = ensure_leading_slash (trim_prefix s p)

-- A change of the path, and of the raw path where there is one.
abbrev pub map_paths : (Str → Str) → Url → Url
map_paths f u = record u {
  path = f u.path;
  raw_path = if not (equal u.raw_path []) then f u.raw_path else u.raw_path;
}

abbrev pub with_added : Request → Str → Str → Request
with_added r k v = record r { header = Header.add r.header k v }

-- `serveRequest`, up to the call of the handler.
unfoldable pub stripped_request : Str → Request → Request
stripped_request p r = with_uri (
    with_added (record r { url = map_paths (λ s. strip_prefix s p) r.url }) forwarded_prefix_header
      (trim_space p))

unfoldable pub prefixed_request : Str → Request → Request
prefixed_request p r = with_uri (record r { url = map_paths (λ s. p ++ s) r.url })

unfoldable pub replaced_request : Str → Request → Request
replaced_request p r =
    let marked = with_added r replaced_path_header r.url.path in
    with_uri (record marked { url = record marked.url { path = p } })

-- What the handlers answer by themselves: `http.NotFound`, nothing at all, and a panic.
pub record Replies (R : Type 0) : Type 0 where
  pub not_found : R
  pub nothing : R
  pub panicked : R

-- What the router of `NewStripPrefixRegex` finds: the path that `match.Route.URL` makes of the
-- prefix, or `none` for its error.
pub data PrefixMatch : Type 0 where
  unmatched : PrefixMatch
  matched : Option Str → PrefixMatch

-- Package regexp and the router. A compiled expression is what it matches and how it replaces.
pub record Regexp : Type 0 where
  pub match_string : Str → Bool
  pub replace_all_string : Str → Str → Str

pub record Patterns : Type 0 where
  pub compile : Str → Option Regexp
  pub match_prefix : List Str → Request → PrefixMatch

-- Behind the test of the path's length; `u.RawPath[n:]` panics on a shorter raw path.
abbrev pub cut_request : Str → Request → Request
cut_request p r =
    with_uri
      (with_added (record r { url = map_paths (drop (length p)) r.url }) forwarded_prefix_header p)

module _ {R : Type 0} (replies : Replies R) where
  -- `StripPrefix.ServeHTTP`
  unfoldable pub serve_strip_prefix : List Str → Handler R → Handler R
  serve_strip_prefix [] next r = replies.not_found
  serve_strip_prefix (p ∷ ps) next r =
      if has_prefix r.url.path p then next (stripped_request p r) else serve_strip_prefix ps next r

  abbrev pub serve_match : Handler R → Request → PrefixMatch → R
  serve_match next r unmatched = replies.not_found
  serve_match next r (matched none) = replies.nothing
  serve_match next r (matched (some p)) =
      if not (leb (length p) (length r.url.path))
      then replies.nothing
      else if not (equal r.url.raw_path []) && not (leb (length p) (length r.url.raw_path))
      then replies.panicked
      else next (cut_request p r)

  -- `StripPrefixRegex.ServeHTTP`
  unfoldable pub serve_strip_prefix_regex : Patterns → List Str → Handler R → Handler R
  serve_strip_prefix_regex patterns ps next r = serve_match next r (patterns.match_prefix ps r)

-- `AddPrefix.ServeHTTP`
unfoldable pub serve_add_prefix : {R : Type 0} → Str → Handler R → Handler R
serve_add_prefix p next r = next (prefixed_request p r)

-- `ReplacePath.ServeHTTP`
unfoldable pub serve_replace_path : {R : Type 0} → Str → Handler R → Handler R
serve_replace_path p next r = next (replaced_request p r)

abbrev pub regex_request : Option Regexp → Str → Request → Request
regex_request none replacement r = r
regex_request (some e) replacement r =
    if not (equal replacement []) && e.match_string r.url.path
    then replaced_request (e.replace_all_string r.url.path replacement) r
    else r

-- `NewReplacePathRegexHandler` and `ReplacePathRegex.ServeHTTP`
unfoldable pub serve_replace_path_regex :
    {R : Type 0} → Patterns → Str → Str → Handler R → Handler R
serve_replace_path_regex patterns regex replacement next r =
    next (regex_request (patterns.compile (trim_space regex)) (trim_space replacement) r)

abbrev pub regex_pair : {R : Type 0} → Patterns → List Str → Handler R → Handler R
regex_pair patterns (regex ∷ replacement ∷ []) next =
    serve_replace_path_regex patterns regex replacement next
regex_pair patterns _ next = next

abbrev pub is_set : Str → Bool
is_set s = not (equal s [])

abbrev pub is_some_list : List Str → Bool
is_some_list [] = false
is_some_list (_ ∷ _) = true

module _ {R T : Type 0} (patterns : Patterns) (replies : Replies R) (s : ServerRoute T) where
  abbrev pub with_replace_path : Handler R → Handler R
  with_replace_path next =
      if is_set s.replace_path_of then serve_replace_path s.replace_path_of next else next

  abbrev pub with_replace_path_regex : Handler R → Handler R
  with_replace_path_regex next =
      if is_set s.replace_path_regex_of
      then regex_pair patterns (split s.replace_path_regex_of b' ') next
      else next

  abbrev pub with_add_prefix : Handler R → Handler R
  with_add_prefix next =
      if is_set s.add_prefix_of then serve_add_prefix s.add_prefix_of next else next

  abbrev pub with_strip_prefix : Handler R → Handler R
  with_strip_prefix next =
      if is_some_list s.strip_prefixes
      then serve_strip_prefix replies s.strip_prefixes next
      else next

  abbrev pub with_strip_prefix_regex : Handler R → Handler R
  with_strip_prefix_regex next =
      if is_some_list s.strip_prefixes_regex
      then serve_strip_prefix_regex replies patterns s.strip_prefixes_regex next
      else next

  -- `Server.wireFrontendBackend`: the handler that it gives to the route.
  unfoldable pub wire_frontend_backend : Handler R → Handler R
  wire_frontend_backend next =
      with_strip_prefix_regex
        (with_strip_prefix (with_add_prefix (with_replace_path_regex (with_replace_path next))))
