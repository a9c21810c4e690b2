-- ===== src/Types/Constraints/Parsing.antt =====
-- types/types.go: which expressions `NewConstraint` accepts, and what it makes of them.
use fabric8_oso_proxy.Base.{
  ℕ, ◌+◌, Bool, true, false, none, some, ◌++◌, ◌≡◌, ◌↔◌, inl, inr, refl, sym, arith, length, take,
  drop, Bool-cases, Option-cases,
}
use mathlib.Core.Path.{subst}
use fabric8_oso_proxy.Base.Run.{ok}
use fabric8_oso_proxy.Base.Strings.{Str, equal, equal_iff, index, has_prefix}
use fabric8_oso_proxy.Base.Strings.Index.{IsFirstAt, Found, index-Found, splits_at}
use fabric8_oso_proxy.Types.Constraints.{
  Constraint, must_operator, must_not_operator, tag, split_two, from_parts, new_constraint,
  to_string,
}

-- An expression is the text of a constraint on tags; behind "!=" there is no "==" anywhere.
pub data IsWritten (exp : Str) (c : Constraint) : Type 0 where
  must : c.must_match ≡ true → c.key ≡ tag → exp ≡ to_string c → IsWritten exp c
  must_not :
      c.must_match ≡ false
      → c.key ≡ tag
      → exp ≡ to_string c
      → index exp must_operator ≡ none
      → IsWritten exp c

from_parts-eq-ok :
    (exp op : Str) (m : Bool) (n : ℕ) (c : Constraint)
    → from_parts exp m (split_two exp op (some n)) ≡ ok c
    → (take n exp ≡ tag)
      × (c ≡ record { key = take n exp; must_match = m; regex = drop (n + length op) exp })
from_parts-eq-ok exp op m n c h = elim (Bool-cases (equal (take n exp) tag)) [
  | inl same ↦ ((equal_iff (take n exp) tag).0 same, sym (cc (rw same at h)))
  | inr other ↦ absurd (cc (rw other at h))
]

first_at : (exp op : Str) (n : ℕ) → index exp op ≡ some n → IsFirstAt exp op n
first_at exp op n h = subst (Found exp op) h (index-Found exp op)

IsWritten-must :
    (exp : Str) (n : ℕ) (c : Constraint)
    → index exp must_operator ≡ some n
    → from_parts exp true (split_two exp must_operator (some n)) ≡ ok c
    → IsWritten exp c
unfolding to_string
IsWritten-must exp n c at_n h =
    let (key, is) = from_parts-eq-ok exp must_operator true n c h in
    rw is (must refl key (splits_at exp must_operator n (first_at exp must_operator n at_n)))

IsWritten-must_not :
    (exp : Str) (n : ℕ) (c : Constraint)
    → index exp must_operator ≡ none
    → index exp must_not_operator ≡ some n
    → from_parts exp false (split_two exp must_not_operator (some n)) ≡ ok c
    → IsWritten exp c
unfolding to_string
IsWritten-must_not exp n c none_there at_n h =
    let (key, is) = from_parts-eq-ok exp must_not_operator false n c h in
    rw is (
      must_not refl key (splits_at exp must_not_operator n (first_at exp must_not_operator n at_n))
        none_there)

new_constraint-IsWritten :
    (exp : Str) (c : Constraint) → new_constraint exp ≡ ok c → IsWritten exp c
unfolding new_constraint
new_constraint-IsWritten exp c h = elim (Option-cases (index exp must_operator)) [
  | inr (n, at_n) ↦ IsWritten-must exp n c at_n (rw at_n at h)
  | inl none_there ↦ elim (Option-cases (index exp must_not_operator)) [
    | inr (n, at_n) ↦ IsWritten-must_not exp n c none_there at_n (rw (none_there, at_n) at h)
    | inl nowhere ↦ absurd (cc (rw (none_there, nowhere) at h))
  ]
]

parse_must :
    (r : Str)
    → new_constraint (tag ++ (must_operator ++ r))
      ≡ ok (record { key = tag; must_match = true; regex = r })
unfolding new_constraint index has_prefix equal
parse_must r = refl

index_must_not : (r : Str) → index (tag ++ (must_not_operator ++ r)) must_not_operator ≡ some 3
unfolding index has_prefix
index_must_not r = refl

parse_must_not :
    (r : Str)
    → index (tag ++ (must_not_operator ++ r)) must_operator ≡ none
    → new_constraint (tag ++ (must_not_operator ++ r))
      ≡ ok (record { key = tag; must_match = false; regex = r })
unfolding new_constraint equal
parse_must_not r h = rw (h, index_must_not r) refl

IsWritten-new_constraint :
    (exp : Str) (c : Constraint) → IsWritten exp c → new_constraint exp ≡ ok c
unfolding to_string
IsWritten-new_constraint exp c (must m k e) = ground (arith, parse_must c.regex)
IsWritten-new_constraint exp c (must_not m k e n) = ground (arith, parse_must_not c.regex)

-- An expression is accepted as the constraint `c` exactly if `c` is on tags and the expression
-- is the text that `String` gives for `c`, where an expression for "!=" contains no "==".
pub new_constraint_iff :
    (exp : Str) (c : Constraint) → (new_constraint exp ≡ ok c) ↔ IsWritten exp c
new_constraint_iff exp c = (new_constraint-IsWritten exp c, IsWritten-new_constraint exp c)
