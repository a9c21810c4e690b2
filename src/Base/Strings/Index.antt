-- ===== src/Base/Strings/Index.antt =====
-- What `strings.Index` finds.
use mathlib.Core.List.{append_assoc}
use Prim.Native.Nat.{ℕ, zero, suc, ◌+◌, ◌<◌}
use mathlib.Core.Bool.{true, false}
use mathlib.Core.List.{[], ◌∷◌, ◌++◌}
use mathlib.Core.Logic.{inl, inr}
use mathlib.Core.Option
use mathlib.Core.Option.{Option, none, some}
use mathlib.Core.Path.{◌≡◌, refl, sym, ap, ◌∙◌}
use native.Mathlib.Omega.{arith}
use fabric8_oso_proxy.Base.Lists.{length, take, drop, length-append, take-append, drop-append}
use fabric8_oso_proxy.Base.Tests.{Bool-cases}
use fabric8_oso_proxy.Base.Strings.{Str, has_prefix, has_prefix_split, index}

-- No occurrence starts at a position.
abbrev pub IsAbsentAt : Str → Str → ℕ → Type 0
IsAbsentAt s sub j = has_prefix (drop j s) sub ≡ false

-- The first occurrence of `sub` is at `i`.
pub record IsFirstAt (s sub : Str) (i : ℕ) : Type 0 where
  pub before : Str
  pub after : Str
  pub splits : s ≡ before ++ (sub ++ after)
  pub place : length before ≡ i
  pub earliest : (j : ℕ) → j < i → IsAbsentAt s sub j

index-suc :
    (c : ℕ) (s sub : Str)
    → has_prefix (c ∷ s) sub ≡ false
    → index (c ∷ s) sub ≡ Option.map suc (index s sub)
unfolding index
index-suc c s sub h = rw h refl

index-nil : (sub : Str) → has_prefix [] sub ≡ false → index [] sub ≡ none
unfolding index
index-nil sub h = rw h refl

index-zero : (s sub : Str) → has_prefix s sub ≡ true → index s sub ≡ some 0
unfolding index
index-zero [] sub h = rw h refl
index-zero (c ∷ s) sub h = rw h refl

IsFirstAt-zero : (s sub : Str) → has_prefix s sub ≡ true → IsFirstAt s sub 0
IsFirstAt-zero s sub h =
    let (r, e) = has_prefix_split s sub h in
    record {
      before = [];
      after = r;
      splits = e;
      place = refl;
      earliest = λ j lt. absurd (omega arith);
    }

IsFirstAt-suc :
    (c : ℕ) (s sub : Str) (i : ℕ)
    → has_prefix (c ∷ s) sub ≡ false
    → IsFirstAt s sub i
    → IsFirstAt (c ∷ s) sub (suc i)
IsFirstAt-suc c s sub i h f = record {
  before = c ∷ f.before;
  after = f.after;
  splits = ap (◌∷◌ c) f.splits;
  place = ap suc f.place;
  earliest = earliest_of;
}
  where
    earliest_of : (j : ℕ) → j < suc i → IsAbsentAt (c ∷ s) sub j
    earliest_of zero lt = h
    earliest_of (suc j) lt = f.earliest j (omega arith)

-- The result of `index`: the first occurrence, or none anywhere.
abbrev pub Found : Str → Str → Option ℕ → Type 0
Found s sub none = (j : ℕ) → IsAbsentAt s sub j
Found s sub (some i) = IsFirstAt s sub i

Found-suc :
    (c : ℕ) (s sub : Str) (o : Option ℕ)
    → has_prefix (c ∷ s) sub ≡ false
    → Found s sub o
    → Found (c ∷ s) sub (Option.map suc o)
Found-suc c s sub none h f = absent
  where
    absent : (j : ℕ) → IsAbsentAt (c ∷ s) sub j
    absent zero = h
    absent (suc j) = f j
Found-suc c s sub (some i) h f = IsFirstAt-suc c s sub i h f

Found-nil : (sub : Str) → has_prefix [] sub ≡ false → (j : ℕ) → IsAbsentAt [] sub j
Found-nil sub h zero = h
Found-nil sub h (suc j) = h

pub index-Found : (s sub : Str) → Found s sub (index s sub)
index-Found [] sub = elim (Bool-cases (has_prefix [] sub)) [
  | inl at_start ↦ rw (index-zero [] sub at_start) (IsFirstAt-zero [] sub at_start)
  | inr missing ↦ rw (index-nil sub missing) (Found-nil sub missing)
]
index-Found (c ∷ s) sub = elim (Bool-cases (has_prefix (c ∷ s) sub)) [
  | inl at_start ↦ rw (index-zero (c ∷ s) sub at_start) (IsFirstAt-zero (c ∷ s) sub at_start)
  | inr later ↦
      rw (index-suc c s sub later) (Found-suc c s sub (index s sub) later (index-Found s sub))
]

pub drop-IsFirstAt :
    (p sub : Str) (i : ℕ) (f : IsFirstAt p sub i) → drop (i + length sub) p ≡ f.after
drop-IsFirstAt p sub i f =
    let split : p ≡ (f.before ++ sub) ++ f.after =
      f.splits ∙ sym (append_assoc f.before sub f.after) in
    let size : i + length sub ≡ length (f.before ++ sub) =
      ap (λ k. k + length sub) (sym f.place) ∙ sym (length-append f.before sub) in
    ap (λ k. drop k p) size
    ∙ ap (drop (length (f.before ++ sub))) split
    ∙ drop-append (f.before ++ sub) f.after

pub take-IsFirstAt : (p sub : Str) (i : ℕ) (f : IsFirstAt p sub i) → take i p ≡ f.before
take-IsFirstAt p sub i f =
    ap (λ k. take k p) (sym f.place)
    ∙ ap (take (length f.before)) f.splits
    ∙ take-append f.before (sub ++ f.after)

-- A text around the first occurrence of another.
pub splits_at :
    (p sub : Str) (i : ℕ) → IsFirstAt p sub i → p ≡ take i p ++ (sub ++ drop (i + length sub) p)
splits_at p sub i f =
    f.splits
    ∙ ap (λ b. b ++ (sub ++ f.after)) (sym (take-IsFirstAt p sub i f))
    ∙ ap (λ a. take i p ++ (sub ++ a)) (sym (drop-IsFirstAt p sub i f))
