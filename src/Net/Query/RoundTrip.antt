-- ===== src/Net/Query/RoundTrip.antt =====
-- `Values.Encode` and `parseQuery`: what is written is read back.
use fabric8_oso_proxy.Base.{
  Option, none, some, List, [], ◌∷◌, ◌++◌, ◌≡◌, ◌≢◌, ◌⊎◌, inl, inr, refl, sym, ap, ◌∙◌, arith,
  if◌then◌else◌, Bool-cases, All,
}
use mathlib.Core.List.{append_assoc}
use fabric8_oso_proxy.Base.Strings.{Str, equal, equal_iff, equal_refl}
use fabric8_oso_proxy.Base.Maps.{lookup, lookup-insert}
use fabric8_oso_proxy.Net.Query.{
  Values, values_of, settings, add_value, add_setting, add_settings, parse_query, str_leb,
  insert_sorted, sort_keys, settings_of_key, written, join_settings, encode,
}
use fabric8_oso_proxy.Net.Query.Settings.{
  IsInside, settings-join_settings, setting_of-IsInside, add_setting-setting_of,
}
use fabric8_oso_proxy.Net.Url.Escape.{IsByte, All-append}

abbrev pub IsText : Str → Type 0
IsText s = All IsByte s

-- Keys and values are texts of bytes, every key has a value, and no key occurs twice.
abbrev pub IsValues : Values → Type 0
IsValues [] = Unit
IsValues ((k, vs) ∷ m) = (IsText k × All IsText vs) × ((vs ≢ []) × (lookup k m ≡ none)) × IsValues m

add_values : Str → List Str → Values → Values
add_values k [] m = m
add_values k (v ∷ vs) m = add_values k vs (add_value k v m)

lookup-add_value :
    (j k v : Str) (m : Values)
    → lookup j (add_value k v m)
      ≡ (if equal k j then some (values_of (lookup k m) ++ v ∷ []) else lookup j m)
unfolding add_value
lookup-add_value j k v m = lookup-insert j k (values_of (lookup k m) ++ v ∷ []) m

lookup-add_values :
    (j k v : Str) (vs : List Str) (m : Values)
    → lookup j (add_values k (v ∷ vs) m)
      ≡ (if equal k j then some (values_of (lookup k m) ++ v ∷ vs) else lookup j m)
unfolding add_values
lookup-add_values j k v [] m = lookup-add_value j k v m
lookup-add_values j k v (w ∷ vs) m =
    let later = lookup-add_values j k w vs (add_value k v m) in
    let here = lookup-add_value j k v m in
    let own = lookup-add_value k k v m in
    elim (Bool-cases (equal k j)) [
      | inl same ↦
          later
          ∙ rw (same, own, equal_refl k)
              (ap some (append_assoc (values_of (lookup k m)) (v ∷ []) (w ∷ vs)))
      | inr other ↦ later ∙ rw other (here ∙ rw other refl)
    ]

add_settings-settings_of_key :
    (k : Str) (vs : List Str) (rest : List Str) (m : Values)
    → IsText k
    → All IsText vs
    → add_settings (settings_of_key k vs ++ rest) m ≡ add_settings rest (add_values k vs m)
unfolding add_settings add_values
add_settings-settings_of_key k [] rest m h i = refl
add_settings-settings_of_key k (v ∷ vs) rest m h (i, is) =
    ap (add_settings (settings_of_key k vs ++ rest)) (add_setting-setting_of k v m h i)
    ∙ add_settings-settings_of_key k vs rest (add_value k v m) h is

abbrev or_else : Option (List Str) → Option (List Str) → Option (List Str)
or_else none p = p
or_else (some x) p = some x

abbrev Disjoint : Values → Values → Type 0
Disjoint m n = (j : Str) → (lookup j m ≡ none) ⊎ (lookup j n ≡ none)

-- The values of a key behind those of the maps that are read first.
lookup-step :
    (j k : Str) (vs : List Str) (m acc : Values)
    → vs ≢ []
    → lookup k m ≡ none
    → lookup k acc ≡ none
    → or_else (lookup j m) (lookup j (add_values k vs acc))
      ≡ or_else (lookup j ((k, vs) ∷ m)) (lookup j acc)
unfolding lookup
lookup-step j k [] m acc n fresh free = absurd (n refl)
lookup-step j k (v ∷ vs) m acc n fresh free = elim (Bool-cases (equal k j)) [
  | inl same ↦
      let is : k ≡ j = (equal_iff k j).0 same in
      let gone : lookup j m ≡ none = ap (λ i. lookup i m) (sym is) ∙ fresh in
      rw (lookup-add_values j k v vs acc, same, gone, free) refl
  | inr other ↦ rw (lookup-add_values j k v vs acc, other) refl
]

Disjoint-step :
    (k : Str) (vs : List Str) (m acc : Values)
    → lookup k m ≡ none
    → Disjoint ((k, vs) ∷ m) acc
    → Disjoint m (add_values k vs acc)
unfolding lookup add_values
Disjoint-step k [] m acc fresh d j = elim (d j) [ inl e ↦ ground arith | inr e ↦ inr e ]
Disjoint-step k (v ∷ vs) m acc fresh d j = elim (Bool-cases (equal k j)) [
  | inl same ↦ inl (ap (λ i. lookup i m) (sym ((equal_iff k j).0 same)) ∙ fresh)
  | inr other ↦ elim (d j) [
    | inl e ↦ inl (rw other at e)
    | inr e ↦ inr (lookup-add_values j k v vs acc ∙ rw other e)
  ]
]

free_head :
    (k : Str) (vs : List Str) (m acc : Values) → Disjoint ((k, vs) ∷ m) acc → lookup k acc ≡ none
unfolding lookup
free_head k vs m acc d = elim (d k) [ inl e ↦ absurd (cc (rw (equal_refl k) at e)) | inr e ↦ e ]

lookup-add_settings :
    (j : Str) (m acc : Values)
    → IsValues m
    → Disjoint m acc
    → lookup j (add_settings (written m) acc) ≡ or_else (lookup j m) (lookup j acc)
unfolding lookup add_settings written
lookup-add_settings j [] acc h d = refl
lookup-add_settings j ((k, vs) ∷ m) acc ((kt, vt), (n, fresh), h) d =
    ap (lookup j) (add_settings-settings_of_key k vs (written m) acc kt vt)
    ∙ lookup-add_settings j m (add_values k vs acc) h (Disjoint-step k vs m acc fresh d)
    ∙ lookup-step j k vs m acc n fresh (free_head k vs m acc d)

-- Sorting the keys.

lookup-insert_sorted :
    (j k : Str) (vs : List Str) (m : Values)
    → lookup k m ≡ none
    → lookup j (insert_sorted (k, vs) m) ≡ lookup j ((k, vs) ∷ m)
unfolding lookup insert_sorted
lookup-insert_sorted j k vs [] fresh = refl
lookup-insert_sorted j k vs ((i, ws) ∷ m) fresh =
    let tail = lookup-insert_sorted j k vs m (ground arith) in
    ground (arith, tail, equal_iff i k, equal_iff i j, equal_iff k j)

insert_sorted-IsValues :
    (k : Str) (vs : List Str) (m : Values)
    → IsValues ((k, vs) ∷ m)
    → IsValues (insert_sorted (k, vs) m)
unfolding lookup insert_sorted
insert_sorted-IsValues k vs [] h = h
insert_sorted-IsValues k vs ((i, ws) ∷ m) (t, (n, fresh), (u, (o, rest), h)) =
    elim (Bool-cases (str_leb k i)) [
      | inl first ↦ rw first (t, (n, fresh), (u, (o, rest), h))
      | inr later ↦
          let ih = insert_sorted-IsValues k vs m (t, (n, ground arith), h) in
          let apart = lookup-insert_sorted i k vs m (ground arith) in
          rw later (u, (o, apart ∙ ground (arith, equal_iff i k, equal_iff k i)), ih)
    ]

sort_keys_lem :
    (m : Values)
    → IsValues m
    → IsValues (sort_keys m) × ((j : Str) → lookup j (sort_keys m) ≡ lookup j m)
unfolding lookup sort_keys
sort_keys_lem [] h = (tt, λ j. refl)
sort_keys_lem ((k, vs) ∷ m) (t, (n, fresh), h) =
    let (ih, same) = sort_keys_lem m h in
    let free = same k ∙ fresh in
    (
      insert_sorted-IsValues k vs (sort_keys m) (t, (n, free), ih),
      λ j.
          lookup-insert_sorted j k vs (sort_keys m) free
          ∙ ap (λ o. if equal k j then some vs else o) (same j),
    )

-- Reading what was written.

settings_of_key-IsInside :
    (k : Str) (vs : List Str)
    → IsText k
    → All IsText vs
    → All (λ s. All IsInside s) (settings_of_key k vs)
settings_of_key-IsInside k [] h i = tt
settings_of_key-IsInside k (v ∷ vs) h (i, is) =
    (setting_of-IsInside k v h i, settings_of_key-IsInside k vs h is)

written-IsInside : (m : Values) → IsValues m → All (λ s. All IsInside s) (written m)
unfolding written
written-IsInside [] h = tt
written-IsInside ((k, vs) ∷ m) ((t, u), _, h) =
    All-append (λ s. All IsInside s) (settings_of_key k vs) (written m)
      (settings_of_key-IsInside k vs t u) (written-IsInside m h)

parse_empty : add_settings (settings (join_settings [])) [] ≡ add_settings [] []
unfolding add_settings settings join_settings add_setting
parse_empty = refl

parse_joined :
    (ss : List Str)
    → All (λ s. All IsInside s) ss
    → parse_query (join_settings ss) ≡ add_settings ss []
unfolding parse_query
parse_joined [] h = parse_empty
parse_joined (s ∷ ss) h = ap (λ l. add_settings l []) (settings-join_settings s ss h)

or_else-none : (o : Option (List Str)) → or_else o none ≡ o
or_else-none none = refl
or_else-none (some x) = refl

-- A map whose keys and values are texts of bytes, where every key has a value and none occurs
-- twice, is read back from its encoding: every key has the same values, in the same order.
pub lookup-parse_query-encode :
    (j : Str) (m : Values) → IsValues m → lookup j (parse_query (encode m)) ≡ lookup j m
unfolding encode lookup
lookup-parse_query-encode j m h =
    let (sorted, same) = sort_keys_lem m h in
    ap (lookup j) (parse_joined (written (sort_keys m)) (written-IsInside (sort_keys m) sorted))
    ∙ lookup-add_settings j (sort_keys m) [] sorted (λ i. inr refl)
    ∙ or_else-none (lookup j (sort_keys m))
    ∙ same j
