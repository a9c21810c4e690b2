-- ===== src/Net/Header.antt =====
-- `http.Header`: every key that the components use is in canonical form, and the server stores the
-- client's keys in that form, so a key is found by comparing it.
use fabric8_oso_proxy.Base.{
  Bool, true, false, List, [], ◌∷◌, ◌++◌, Option, none, some, ◌≡◌, refl, if◌then◌else◌,
}
use fabric8_oso_proxy.Base.Strings.{Str, equal}
use fabric8_oso_proxy.Base.Maps.{lookup, insert, delete, lookup-insert, lookup-delete}

abbrev pub Header : Type 0
Header = List (Str × List Str)

-- `h[k][0]`, or the empty string.
abbrev pub first_value : Option (List Str) → Str
first_value none = []
first_value (some []) = []
first_value (some (v ∷ _)) = v

unfoldable pub get : Header → Str → Str
get h k = first_value (lookup k h)

unfoldable pub set : Header → Str → Str → Header
set h k v = insert k (v ∷ []) h

unfoldable pub del : Header → Str → Header
del h k = delete k h

-- What a read sees does not depend on how the map is stored, so the laws speak of `get`.
first_value-if :
    (b : Bool) (o p : Option (List Str))
    → first_value (if b then o else p) ≡ (if b then first_value o else first_value p)
first_value-if true o p = refl
first_value-if false o p = refl

pub get-set : (h : Header) (k v j : Str) → get (set h k v) j ≡ (if equal k j then v else get h j)
unfolding get set
get-set h k v j = rw (lookup-insert j k (v ∷ []) h) (first_value-if (equal k j) _ _)

pub get-del : (h : Header) (k j : Str) → get (del h k) j ≡ (if equal k j then [] else get h j)
unfolding get del
get-del h k j = rw (lookup-delete j k h) (first_value-if (equal k j) _ _)

abbrev pub values : Option (List Str) → List Str
values none = []
values (some vs) = vs

-- `h[k]`
unfoldable pub all_values : Header → Str → List Str
all_values h k = values (lookup k h)

unfoldable pub add : Header → Str → Str → Header
add h k v = insert k (all_values h k ++ v ∷ []) h

values-if :
    (b : Bool) (o p : Option (List Str))
    → values (if b then o else p) ≡ (if b then values o else values p)
values-if true o p = refl
values-if false o p = refl

pub all_values-add :
    (h : Header) (k v j : Str)
    → all_values (add h k v) j ≡ (if equal k j then all_values h k ++ v ∷ [] else all_values h j)
unfolding all_values add
all_values-add h k v j =
    rw (lookup-insert j k (all_values h k ++ v ∷ []) h) (values-if (equal k j) _ _)

pub all_values-set :
    (h : Header) (k v j : Str)
    → all_values (set h k v) j ≡ (if equal k j then v ∷ [] else all_values h j)
unfolding all_values set
all_values-set h k v j = rw (lookup-insert j k (v ∷ []) h) (values-if (equal k j) _ _)

pub all_values-del :
    (h : Header) (k j : Str) → all_values (del h k) j ≡ (if equal k j then [] else all_values h j)
unfolding all_values del
all_values-del h k j = rw (lookup-delete j k h) (values-if (equal k j) _ _)
