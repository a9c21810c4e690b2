-- ===== src/Net/Query.antt =====
-- `url.Values`: a query parsed, changed and written again (Go 1.10: `&` and `;` both separate).
pub mod Settings
pub mod RoundTrip
pub mod Parsed
use fabric8_oso_proxy.Base.{
  ℕ, Bool, true, false, ◌||◌, Option, none, some, List, [], ◌∷◌, ◌++◌, leb, ◌==◌, if◌then◌else◌,
}
use fabric8_oso_proxy.Base.Strings.{Str}
use fabric8_oso_proxy.Base.Maps.{lookup, insert}
use fabric8_oso_proxy.Net.Url.{query_component, escape, unescape}

abbrev pub Values : Type 0
Values = List (Str × List Str)

abbrev pub is_separator : ℕ → Bool
is_separator c = c == b'&' || c == b';'

abbrev pub extend : ℕ → List Str → List Str
extend c [] = (c ∷ []) ∷ []
extend c (p ∷ ps) = (c ∷ p) ∷ ps

-- The settings of a query, empty ones included.
unfoldable pub settings : Str → List Str
settings [] = [] ∷ []
settings (c ∷ s) = let rest = settings s in if is_separator c then [] ∷ rest else extend c rest

-- A setting cut at its first `=`; with no `=` the value is empty.
unfoldable pub cut : Str → Str × Str
cut [] = ([], [])
cut (c ∷ s) = let (k, v) = cut s in if c == b'=' then ([], s) else (c ∷ k, v)

abbrev pub values_of : Option (List Str) → List Str
values_of none = []
values_of (some vs) = vs

-- `m[key] = append(m[key], value)`
unfoldable pub add_value : Str → Str → Values → Values
add_value k v m = insert k (values_of (lookup k m) ++ v ∷ []) m

abbrev pub add_unescaped : Option Str → Option Str → Values → Values
add_unescaped (some k) (some v) m = add_value k v m
add_unescaped _ _ m = m

-- One round of `parseQuery`; a setting that cannot be unescaped is dropped.
unfoldable pub add_setting : Str → Values → Values
add_setting [] m = m
add_setting (c ∷ s) m =
    let (k, v) = cut (c ∷ s) in
    add_unescaped (unescape query_component k) (unescape query_component v) m

unfoldable pub add_settings : List Str → Values → Values
add_settings [] m = m
add_settings (s ∷ ss) m = add_settings ss (add_setting s m)

-- `URL.Query`
unfoldable pub parse_query : Str → Values
parse_query q = add_settings (settings q) []

-- The order of `sort.Strings`.
unfoldable pub str_leb : Str → Str → Bool
str_leb [] t = true
str_leb (c ∷ s) [] = false
str_leb (c ∷ s) (d ∷ t) = let rest = str_leb s t in if c == d then rest else leb c d

unfoldable pub insert_sorted : Str × List Str → Values → Values
insert_sorted e [] = e ∷ []
insert_sorted e (f ∷ m) = if str_leb e.0 f.0 then e ∷ f ∷ m else f ∷ insert_sorted e m

unfoldable pub sort_keys : Values → Values
sort_keys [] = []
sort_keys (e ∷ m) = insert_sorted e (sort_keys m)

abbrev pub setting_of : Str → Str → Str
setting_of k v = escape query_component k ++ (b'=' ∷ escape query_component v)

abbrev pub settings_of_key : Str → List Str → List Str
settings_of_key k [] = []
settings_of_key k (v ∷ vs) = setting_of k v ∷ settings_of_key k vs

-- The settings that `Values.Encode` writes, in order.
unfoldable pub written : Values → List Str
written [] = []
written ((k, vs) ∷ m) = settings_of_key k vs ++ written m

unfoldable pub join_settings : List Str → Str
join_settings [] = []
join_settings (s ∷ []) = s
join_settings (s ∷ t ∷ ss) = s ++ (b'&' ∷ join_settings (t ∷ ss))

-- `Values.Encode`
unfoldable pub encode : Values → Str
encode m = join_settings (written (sort_keys m))
