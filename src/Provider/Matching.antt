-- ===== src/Provider/Matching.antt =====
-- provider/provider.go: `BaseProvider.MatchConstraints`.
use fabric8_oso_proxy.Base.{
  Bool, true, false, not, Option, none, some, List, [], ◌∷◌, ◌++◌, ◌≡◌, inl, inr, refl, sym, ap,
  ◌∙◌, if◌then◌else◌, Bool-cases, All,
}
use fabric8_oso_proxy.Base.Strings.{Str}
use fabric8_oso_proxy.Types.Constraints.{Constraint, matches_at_least_one}

abbrev pub same : Bool → Bool → Bool
same true b = b
same false b = not b

-- The loop; `none` is a nil constraint, with the result true.
unfoldable pub first_unmatched : (Str → Str → Bool) → List Str → List Constraint → Option Constraint
first_unmatched glob tags [] = none
first_unmatched glob tags (c ∷ cs) =
    if not (same (matches_at_least_one glob c tags) c.must_match)
    then some c
    else first_unmatched glob tags cs

abbrev pub is_nil : {A : Type 0} → List A → Bool
is_nil [] = true
is_nil (_ ∷ _) = false

abbrev pub is_none : {A : Type 0} → Option A → Bool
is_none none = true
is_none (some _) = false

-- `MatchConstraints`: the result, and the constraint that does not match.
unfoldable pub match_constraints :
    (Str → Str → Bool) → List Constraint → List Str → Bool × Option Constraint
match_constraints glob cs [] =
    if is_nil cs
    then (true, none)
    else (is_none (first_unmatched glob [] cs), first_unmatched glob [] cs)
match_constraints glob cs (t ∷ ts) =
    (is_none (first_unmatched glob (t ∷ ts) cs), first_unmatched glob (t ∷ ts) cs)

-- Some tag of the service matches the expression exactly if it must.
abbrev pub IsMet : (Str → Str → Bool) → List Str → Constraint → Type 0
IsMet glob tags c = matches_at_least_one glob c tags ≡ c.must_match

-- All constraints are met, or one is the first that is not.
abbrev pub Verdict : (Str → Str → Bool) → List Str → List Constraint → Option Constraint → Type 0
Verdict glob tags cs none = All (IsMet glob tags) cs
Verdict glob tags cs (some c) =
    (before : List Constraint) × (after : List Constraint) × (cs ≡ before ++ c ∷ after)
    × All (IsMet glob tags) before
    × (IsMet glob tags c → ⊥)

same_iff : (a b : Bool) → same a b ≡ true → a ≡ b
same_iff true b h = sym h
same_iff false true h = cc
same_iff false false h = refl

same_refl : (a : Bool) → same a a ≡ true
same_refl true = refl
same_refl false = refl

Verdict-cons :
    (glob : Str → Str → Bool) (tags : List Str) (c : Constraint) (cs : List Constraint)
    (o : Option Constraint)
    → IsMet glob tags c
    → Verdict glob tags cs o
    → Verdict glob tags (c ∷ cs) o
Verdict-cons glob tags c cs none m v = (m, v)
Verdict-cons glob tags c cs (some d) m (before, after, e, met, unmet) =
    (c ∷ before, after, ap (◌∷◌ c) e, (m, met), unmet)

first_unmatched-Verdict :
    (glob : Str → Str → Bool) (tags : List Str) (cs : List Constraint)
    → Verdict glob tags cs (first_unmatched glob tags cs)
unfolding first_unmatched
first_unmatched-Verdict glob tags [] = tt
first_unmatched-Verdict glob tags (c ∷ cs) =
    elim (Bool-cases (same (matches_at_least_one glob c tags) c.must_match)) [
      | inl met ↦ rw met (
          Verdict-cons glob tags c cs (first_unmatched glob tags cs) (same_iff _ _ met)
            (first_unmatched-Verdict glob tags cs))
      | inr unmet ↦ rw unmet ([], cs, refl, tt, differs unmet)
    ]
  where
    differs : same (matches_at_least_one glob c tags) c.must_match ≡ false → IsMet glob tags c → ⊥
    differs unmet m = let equal_now = ap (λ b. same b c.must_match) m ∙ same_refl c.must_match in cc

-- match_constraints answers with the first constraint that fails, when there is one.
pub match_constraints-Verdict :
    (glob : Str → Str → Bool) (cs : List Constraint) (tags : List Str)
    → ((match_constraints glob cs tags).0 ≡ is_none (match_constraints glob cs tags).1)
      × Verdict glob tags cs (match_constraints glob cs tags).1
unfolding match_constraints
match_constraints-Verdict glob [] [] = (refl, tt)
match_constraints-Verdict glob (c ∷ cs) [] = (refl, first_unmatched-Verdict glob [] (c ∷ cs))
match_constraints-Verdict glob cs (t ∷ ts) = (refl, first_unmatched-Verdict glob (t ∷ ts) cs)
