-- ===== src/Net/Url.antt =====
-- `url.URL` and the escaping of package net/url (Go 1.10), for paths and query components.
pub mod Escape
use fabric8_oso_proxy.Base.{
  ℕ, ◌+◌, ◌-◌, ◌*◌, ◌/◌, ◌%◌, Bool, true, false, not, ◌&&◌, ◌||◌, Option, none, some, [], ◌∷◌, ◌++◌,
  leb, ◌==◌, if◌then◌else◌,
}
use fabric8_oso_proxy.Base.Strings.{Str, codes, equal, has_prefix}

pub data Encoding : Type 0 where
  path query_component : Encoding

pub record Url : Type 0 where
  pub scheme : Str
  pub opaque : Str
  pub path : Str
  pub raw_path : Str
  pub force_query : Bool
  pub raw_query : Str

abbrev within : ℕ → ℕ → ℕ → Bool
within lo hi c = leb lo c && leb c hi

abbrev is_alnum : ℕ → Bool
is_alnum c = within b'A' b'Z' c || within b'a' b'z' c || within b'0' b'9' c

abbrev is_mark : ℕ → Bool
is_mark c = c == b'-' || c == b'_' || c == b'.' || c == b'~'

-- `$ & + , / : ; = @`, which a path keeps and a query component escapes.
abbrev is_reserved : ℕ → Bool
is_reserved c =
    c == b'$'
    || c == b'&'
    || c == b'+'
    || c == b','
    || c == b'/'
    || c == b':'
    || c == b';'
    || c == b'='
    || c == b'@'

unfoldable pub should_escape : Encoding → ℕ → Bool
should_escape path c = not (is_alnum c || is_mark c || is_reserved c)
should_escape query_component c = not (is_alnum c || is_mark c)

unfoldable pub hex_digit : ℕ → ℕ
hex_digit n = if leb n 9 then b'0' + n else b'A' + n - 10

unfoldable pub from_hex : ℕ → Option ℕ
from_hex c =
    if within b'0' b'9' c
    then some (c - b'0')
    else if within b'a' b'f' c
    then some (c - b'a' + 10)
    else if within b'A' b'F' c
    then some (c - b'A' + 10)
    else none

unfoldable pub escape_byte : Encoding → ℕ → Str
escape_byte path c =
    if should_escape path c then b'%' ∷ hex_digit (c / 16) ∷ hex_digit (c % 16) ∷ [] else c ∷ []
escape_byte query_component c =
    if c == b' '
    then b'+' ∷ []
    else if should_escape query_component c
    then b'%' ∷ hex_digit (c / 16) ∷ hex_digit (c % 16) ∷ []
    else c ∷ []

unfoldable pub escape : Encoding → Str → Str
escape m [] = []
escape m (c ∷ s) = escape_byte m c ++ escape m s

abbrev from_plus : Encoding → ℕ → ℕ
from_plus path c = c
from_plus query_component c = if c == b'+' then b' ' else c

abbrev hex_pair : Option ℕ → Option ℕ → Option ℕ
hex_pair (some a) (some b) = some (16 * a + b)
hex_pair _ _ = none

abbrev cons_both : Option ℕ → Option Str → Option Str
cons_both (some c) (some s) = some (c ∷ s)
cons_both _ _ = none

-- `none` is an `EscapeError`.
unfoldable pub unescape : Encoding → Str → Option Str
unescape m [] = some []
unescape m (c ∷ []) = if c == b'%' then none else some (from_plus m c ∷ [])
unescape m (c ∷ d ∷ []) =
    if c == b'%' then none else cons_both (some (from_plus m c)) (unescape m (d ∷ []))
unescape m (c ∷ d ∷ e ∷ s) =
    let escaped = cons_both (hex_pair (from_hex d) (from_hex e)) (unescape m s) in
    let plain = cons_both (some (from_plus m c)) (unescape m (d ∷ e ∷ s)) in
    if c == b'%' then escaped else plain

-- Beyond what `should_escape` leaves, `validEncodedPath` accepts these.
abbrev is_sub_delim : ℕ → Bool
is_sub_delim c =
    c == b'!'
    || c == b'\''
    || c == b'('
    || c == b')'
    || c == b'*'
    || c == b'['
    || c == b']'
    || c == b'%'

unfoldable pub valid_encoded_path : Str → Bool
valid_encoded_path [] = true
valid_encoded_path (c ∷ s) = (is_sub_delim c || not (should_escape path c)) && valid_encoded_path s

abbrev is_some_of : Option Str → Str → Bool
is_some_of none s = false
is_some_of (some t) s = equal t s

-- `URL.EscapedPath`
unfoldable pub escaped_path : Url → Str
escaped_path u =
    if not (equal u.raw_path [])
      && (valid_encoded_path u.raw_path && is_some_of (unescape path u.raw_path) u.path)
    then u.raw_path
    else if equal u.path (codes "*")
    then codes "*"
    else escape path u.path

-- `URL.RequestURI`
unfoldable pub request_uri : Url → Str
request_uri u =
    let escaped = escaped_path u in
    let result =
      if equal u.opaque []
      then if equal escaped [] then codes "/" else escaped
      else if has_prefix u.opaque (codes "//")
      then u.scheme ++ (codes ":" ++ u.opaque)
      else u.opaque in
    if u.force_query || not (equal u.raw_query []) then result ++ (b'?' ∷ u.raw_query) else result
