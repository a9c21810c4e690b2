-- ===== src/Types/Constraints/Setting.antt =====
-- types/types.go: what `Constraints.Set` appends.
use fabric8_oso_proxy.Base.{
  Bool, true, false, some, List, [], ◌∷◌, ◌++◌, ◌≡◌, ◌≢◌, refl, ap, inl, inr, Bool-cases,
  Option-cases,
}
use mathlib.Core.List.{append_assoc, append-nil}
use mathlib.Core.Path.{subst}
use fabric8_oso_proxy.Base.Run.{Error, Run, done, fail, Outcome, ok, err, crash}
use fabric8_oso_proxy.Base.Strings.{Str, equal, index, split}
use fabric8_oso_proxy.Types.Constraints.{
  Constraint, must_operator, must_not_operator, tag, split_two, from_parts, new_constraint,
  append_parsed, append_all, set,
}
use fabric8_oso_proxy.Types.Constraints.Parsing.{IsWritten, new_constraint_iff}

-- Expressions and their constraints, one by one.
abbrev pub AreWritten : List Str → List Constraint → Type 0
AreWritten [] [] = Unit
AreWritten (e ∷ es) (c ∷ cs) = IsWritten e c × AreWritten es cs
AreWritten _ _ = ⊥

-- All expressions are accepted, or the ones before the first that is not.
pub data Added (es : List Str) (old : List Constraint)
    : Run (List Constraint) (Unit {0}) → Type 0 where
  whole : (cs : List Constraint) → AreWritten es cs → Added es old (done tt (old ++ cs))
  part :
      (before after : List Str) (e : Str) (x : Error) (cs : List Constraint)
      → es ≡ before ++ e ∷ after
      → AreWritten before cs
      → new_constraint e ≡ err x
      → Added es old (fail x (old ++ cs))

Added-cons :
    (e : Str) (c : Constraint) {es : List Str} {old : List Constraint}
    {r : Run (List Constraint) (Unit {0})}
    → IsWritten e c
    → Added es (old ++ c ∷ []) r
    → Added (e ∷ es) old r
Added-cons e c {old = old} w (whole cs ws) =
    rw (append_assoc old (c ∷ []) cs) (whole (c ∷ cs) (w, ws))
Added-cons e c {old = old} w (part before after f x cs splits ws bad) =
    rw (append_assoc old (c ∷ []) cs)
      (part (e ∷ before) after f x (c ∷ cs) (ap (◌∷◌ e) splits) (w, ws) bad)

from_parts-ne-crash : (exp : Str) (m : Bool) (ps : List Str) → from_parts exp m ps ≢ crash
from_parts-ne-crash exp m [] h = cc
from_parts-ne-crash exp m (k ∷ []) h = cc
from_parts-ne-crash exp m (k ∷ v ∷ []) h = elim (Bool-cases (equal k tag)) [
  | inl same ↦ cc (rw same at h)
  | inr other ↦ cc (rw other at h)
]
from_parts-ne-crash exp m (k ∷ v ∷ w ∷ ps) h = cc

new_constraint-ne-crash : (exp : Str) → new_constraint exp ≢ crash
unfolding new_constraint
new_constraint-ne-crash exp h = elim (Option-cases (index exp must_operator)) [
  | inr (n, at_n) ↦
      from_parts-ne-crash exp true (split_two exp must_operator (some n)) (rw at_n at h)
  | inl none_there ↦ elim (Option-cases (index exp must_not_operator)) [
    | inr (n, at_n) ↦
        from_parts-ne-crash exp false (split_two exp must_not_operator (some n))
          (rw (none_there, at_n) at h)
    | inl nowhere ↦ cc (rw (none_there, nowhere) at h)
  ]
]

append_all-Added : (es : List Str) (old : List Constraint) → Added es old (append_all es old)
unfolding append_all
append_all-Added [] old = subst (λ l. Added [] old (done tt l)) (append-nil old) (whole [] tt)
append_all-Added (e ∷ es) old =
    by_first (new_constraint e) refl (λ c. append_all-Added es (old ++ c ∷ []))
  where
    by_first :
        (o : Outcome Constraint)
        → new_constraint e ≡ o
        → ((c : Constraint) → Added es (old ++ c ∷ []) (append_all es (old ++ c ∷ [])))
        → Added (e ∷ es) old (append_parsed o old (append_all es))
    by_first (ok c) h rest = Added-cons e c ((new_constraint_iff e c).0 h) (rest c)
    by_first (err x) h rest =
        subst (λ l. Added (e ∷ es) old (fail x l)) (append-nil old) (part [] es e x [] refl tt h)
    by_first crash h rest = absurd (new_constraint-ne-crash e h)

-- `Set` splits its text at the commas. If every part is the text of a constraint, it appends
-- these constraints in their order; otherwise it appends those of the parts before the first
-- one that is not accepted, and returns the error of that part.
pub set-Added : (str : Str) (old : List Constraint) → Added (split str b',') old (set str old)
unfolding set
set-Added str old = append_all-Added (split str b',') old
