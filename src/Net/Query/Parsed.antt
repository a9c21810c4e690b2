-- ===== src/Net/Query/Parsed.antt =====
-- What `parseQuery` makes of a query is a map that can be written and read back.
use fabric8_oso_proxy.Base.{
  ℕ, Option, none, some, List, [], ◌∷◌, ◌++◌, ◌≡◌, ◌≢◌, inl, inr, refl, sym, ap, ◌∙◌, arith, ◌==◌,
  Bool-cases, All,
}
use fabric8_oso_proxy.Base.Strings.{Str, equal, equal_iff}
use fabric8_oso_proxy.Base.Maps.{lookup, insert, delete, lookup-insert, lookup-delete}
use fabric8_oso_proxy.Net.Query.{
  Values, values_of, is_separator, extend, settings, cut, add_value, add_unescaped, add_setting,
  add_settings, parse_query,
}
use fabric8_oso_proxy.Net.Query.RoundTrip.{IsText, IsValues}
use fabric8_oso_proxy.Net.Url.{query_component, unescape}
use fabric8_oso_proxy.Net.Url.Escape.{IsByte, AreBytes, unescape-AreBytes, All-append}

extend-IsText : (c : ℕ) (ps : List Str) → IsByte c → All IsText ps → All IsText (extend c ps)
extend-IsText c [] b h = ((b, tt), tt)
extend-IsText c (p ∷ ps) b (t, h) = ((b, t), h)

settings-IsText : (s : Str) → IsText s → All IsText (settings s)
unfolding settings
settings-IsText [] h = (tt, tt)
settings-IsText (c ∷ s) (b, h) = elim (Bool-cases (is_separator c)) [
  | inl ends ↦ rw ends (tt, settings-IsText s h)
  | inr inside ↦ rw inside (extend-IsText c (settings s) b (settings-IsText s h))
]

cut-IsText : (s : Str) → IsText s → IsText (cut s).0 × IsText (cut s).1
unfolding cut
cut-IsText [] h = (tt, tt)
cut-IsText (c ∷ s) (b, h) = elim (Bool-cases (c == b'=')) [
  | inl here ↦ rw here (tt, h)
  | inr later ↦ let (k, v) = cut-IsText s h in rw later ((b, k), v)
]

insert-IsValues :
    (k : Str) (vs : List Str) (m : Values)
    → IsText k
    → All IsText vs
    → vs ≢ []
    → IsValues m
    → IsValues (insert k vs m)
unfolding insert lookup
insert-IsValues k vs [] t u n h = ((t, u), (n, refl), tt)
insert-IsValues k vs ((i, ws) ∷ m) t u n (w, (o, fresh), h) = elim (Bool-cases (equal i k)) [
  | inl same ↦
      let is : i ≡ k = (equal_iff i k).0 same in
      rw same ((t, u), (n, ap (λ j. lookup j m) (sym is) ∙ fresh), h)
  | inr other ↦
      let apart = lookup-insert i k vs m in
      rw other (
        w,
        (o, apart ∙ ground (arith, equal_iff i k, equal_iff k i)),
        insert-IsValues k vs m t u n h,
      )
]

lookup-IsText : (k : Str) (m : Values) → IsValues m → All IsText (values_of (lookup k m))
unfolding lookup
lookup-IsText k [] h = tt
lookup-IsText k ((i, ws) ∷ m) ((t, u), (o, fresh), h) = elim (Bool-cases (equal i k)) [
  | inl same ↦ rw same u
  | inr other ↦ rw other (lookup-IsText k m h)
]

append-ne : (vs : List Str) (v : Str) → vs ++ v ∷ [] ≢ []
append-ne [] v e = cc
append-ne (w ∷ vs) v e = cc

add_unescaped-IsValues :
    (k v : Option Str) (m : Values)
    → AreBytes k
    → AreBytes v
    → IsValues m
    → IsValues (add_unescaped k v m)
unfolding add_value
add_unescaped-IsValues none v m t u h = h
add_unescaped-IsValues (some k) none m t u h = h
add_unescaped-IsValues (some k) (some v) m t u h =
    insert-IsValues k (values_of (lookup k m) ++ v ∷ []) m t
      (All-append IsText (values_of (lookup k m)) (v ∷ []) (lookup-IsText k m h) (u, tt))
      (append-ne (values_of (lookup k m)) v) h

add_setting-IsValues : (s : Str) (m : Values) → IsText s → IsValues m → IsValues (add_setting s m)
unfolding add_setting
add_setting-IsValues [] m t h = h
add_setting-IsValues (c ∷ s) m t h =
    let (k, v) = cut-IsText (c ∷ s) t in
    add_unescaped-IsValues (unescape query_component (cut (c ∷ s)).0)
      (unescape query_component (cut (c ∷ s)).1) m (unescape-AreBytes (cut (c ∷ s)).0 k)
      (unescape-AreBytes (cut (c ∷ s)).1 v) h

add_settings-IsValues :
    (ss : List Str) (m : Values) → All IsText ss → IsValues m → IsValues (add_settings ss m)
unfolding add_settings
add_settings-IsValues [] m t h = h
add_settings-IsValues (s ∷ ss) m (t, ts) h =
    add_settings-IsValues ss (add_setting s m) ts (add_setting-IsValues s m t h)

pub parse_query-IsValues : (q : Str) → IsText q → IsValues (parse_query q)
unfolding parse_query
parse_query-IsValues q h = add_settings-IsValues (settings q) [] (settings-IsText q h) tt

pub delete-IsValues : (k : Str) (m : Values) → IsValues m → IsValues (delete k m)
unfolding delete
delete-IsValues k [] h = tt
delete-IsValues k ((i, ws) ∷ m) (w, (o, fresh), h) = elim (Bool-cases (equal i k)) [
  | inl same ↦ rw same (delete-IsValues k m h)
  | inr other ↦ rw other (w, (o, lookup-delete i k m ∙ ground arith), delete-IsValues k m h)
]
