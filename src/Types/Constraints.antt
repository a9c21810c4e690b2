-- ===== src/Types/Constraints.antt =====
-- types/types.go: constraint expressions on the tags of a service.
pub mod Parsing
pub mod Setting
use fabric8_oso_proxy.Base.{
  ℕ, ◌+◌, Bool, true, false, not, Option, none, some, List, [], ◌∷◌, ◌++◌, if◌then◌else◌, length,
  take, drop,
}
use fabric8_oso_proxy.Base.Run.{
  Error, no_operator, not_tag_based, bad_constraint, Run, done, fail, panic, M, Outcome, ok, err,
  crash,
}
use fabric8_oso_proxy.Base.Strings.{Str, codes, equal, index, split}

pub record Constraint : Type 0 where
  pub key : Str
  pub must_match : Bool
  pub regex : Str

abbrev pub must_operator : Str
must_operator = codes "=="

abbrev pub must_not_operator : Str
must_not_operator = codes "!="

abbrev pub operator : Bool → Str
operator true = must_operator
operator false = must_not_operator

abbrev pub tag : Str
tag = codes "tag"

-- `strings.SplitN(exp, sep, 2)`, by where `sep` is first.
abbrev pub split_two : Str → Str → Option ℕ → List Str
split_two exp sep none = exp ∷ []
split_two exp sep (some n) = take n exp ∷ drop (n + length sep) exp ∷ []

abbrev pub from_parts : Str → Bool → List Str → Outcome Constraint
from_parts exp must (k ∷ v ∷ []) =
    if not (equal k tag)
    then err not_tag_based
    else ok (record { key = k; must_match = must; regex = v })
from_parts exp must _ = err (bad_constraint exp)

-- `strings.Contains`
abbrev pub is_found : Option ℕ → Bool
is_found none = false
is_found (some n) = true

unfoldable pub new_constraint : Str → Outcome Constraint
new_constraint exp =
    if is_found (index exp must_operator)
    then from_parts exp true (split_two exp must_operator (index exp must_operator))
    else if is_found (index exp must_not_operator)
    then from_parts exp false (split_two exp must_not_operator (index exp must_not_operator))
    else err no_operator

-- `Constraint.String`, and the text of `MarshalText`.
unfoldable pub to_string : Constraint → Str
to_string c =
    if c.must_match
    then c.key ++ (must_operator ++ c.regex)
    else c.key ++ (must_not_operator ++ c.regex)

abbrev pub assign : Outcome Constraint → M Constraint (Unit {0})
assign (ok d) c = done tt d
assign (err e) c = fail e c
assign crash c = panic c

-- `UnmarshalText`: a failure leaves the constraint as it is.
unfoldable pub unmarshal_text : Str → M Constraint (Unit {0})
unmarshal_text exp = assign (new_constraint exp)

-- `MatchConstraintWithAtLeastOneTag`; `glob` is the match of package glob.
unfoldable pub matches_at_least_one : (Str → Str → Bool) → Constraint → List Str → Bool
matches_at_least_one glob c [] = false
matches_at_least_one glob c (t ∷ ts) =
    if glob c.regex t then true else matches_at_least_one glob c ts

-- The loop of `Constraints.Set`, which appends each constraint before it reads the next one.
abbrev pub append_parsed :
    Outcome Constraint
    → List Constraint
    → M (List Constraint) (Unit {0})
    → Run (List Constraint) (Unit {0})
append_parsed (ok c) cs rest = rest (cs ++ c ∷ [])
append_parsed (err e) cs rest = fail e cs
append_parsed crash cs rest = panic cs

unfoldable pub append_all : List Str → M (List Constraint) (Unit {0})
append_all [] cs = done tt cs
append_all (e ∷ es) cs = append_parsed (new_constraint e) cs (append_all es)

-- `Constraints.Set`; `strings.Split` returns at least one part.
unfoldable pub set : Str → M (List Constraint) (Unit {0})
set str = append_all (split str b',')
