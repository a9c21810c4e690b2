-- ===== src/Types/StatusCodes.antt =====
-- types/types.go: `HTTPCodeRanges`.
use fabric8_oso_proxy.Base.{
  ℕ, ◌≤◌, Bool, true, false, ◌&&◌, Option, none, some, List, [], ◌∷◌, ◌++◌, ◌≡◌, ◌↔◌, ◌⊎◌, inl, inr,
  refl, sym, ◌∙◌, arith, map, leb, if◌then◌else◌, All, Bool-cases,
}
use mathlib.Core.Path.{subst}
use fabric8_oso_proxy.Base.Decimal.{decimal}
use fabric8_oso_proxy.Base.Decimal.Atoi.{
  atoi, max_int, is_digit, IsDigits, decimal-IsDigits, atoi-decimal,
}
use fabric8_oso_proxy.Base.Strings.{Str, split, Lacks}
use fabric8_oso_proxy.Base.Strings.Split.{split_lacks, split-append}

-- The lowest and the highest code.
abbrev pub Block : Type 0
Block = ℕ × ℕ

abbrev pub both : Option ℕ → Option ℕ → Option Block
both (some lo) (some hi) = some (lo, hi)
both _ _ = none

-- The codes of a block between its dashes; a single one is both.
abbrev pub read_codes : List Str → Option Block
read_codes [] = none
read_codes (c ∷ []) = both (atoi c) (atoi c)
read_codes (lo ∷ hi ∷ _) = both (atoi lo) (atoi hi)

abbrev pub cons_block : Option Block → Option (List Block) → Option (List Block)
cons_block (some b) (some bs) = some (b ∷ bs)
cons_block _ _ = none

-- `NewHTTPCodeRanges`; `none` is the error of `strconv.Atoi`.
unfoldable pub new_http_code_ranges : List Str → Option (List Block)
new_http_code_ranges [] = some []
new_http_code_ranges (s ∷ ss) = cons_block (read_codes (split s b'-')) (new_http_code_ranges ss)

-- `HTTPCodeRanges.Contains`
unfoldable pub contains : List Block → ℕ → Bool
contains [] code = false
contains ((lo, hi) ∷ bs) code = if leb lo code && leb code hi then true else contains bs code

-- How an operator writes a block.
abbrev pub print_block : Block → Str
print_block (lo, hi) = decimal lo ++ b'-' ∷ decimal hi

digits_lack_dash : (s : Str) → IsDigits s → Lacks b'-' s
digits_lack_dash [] h = tt
digits_lack_dash (c ∷ s) (d, h) = (λ e. no_dash c e d, digits_lack_dash s h)
  where
    no_dash : (c : ℕ) → c ≡ b'-' → is_digit c ≡ true → ⊥
    no_dash c e h = ground arith

-- The numbers of a block are of type `int`.
abbrev pub IsBlock : Block → Type 0
IsBlock (lo, hi) = (lo ≤ max_int) × (hi ≤ max_int)

read_codes-print_block : (b : Block) → IsBlock b → read_codes (split (print_block b) b'-') ≡ some b
read_codes-print_block (lo, hi) (below, above) =
    let dashes =
      split-append b'-' (decimal lo) (decimal hi)
        (digits_lack_dash (decimal lo) (decimal-IsDigits lo)) in
    let last =
      split_lacks b'-' (decimal hi) (digits_lack_dash (decimal hi) (decimal-IsDigits hi)) in
    rw (dashes, last) (rw (atoi-decimal lo below, atoi-decimal hi above) refl)

pub new_http_code_ranges-print_block :
    (bs : List Block) → All IsBlock bs → new_http_code_ranges (map print_block bs) ≡ some bs
unfolding new_http_code_ranges
new_http_code_ranges-print_block [] h = refl
new_http_code_ranges-print_block (b ∷ bs) (i, h) =
    rw (read_codes-print_block b i, new_http_code_ranges-print_block bs h) refl

-- A code within one of the blocks.
abbrev pub IsWithin : ℕ → List Block → Type 0
IsWithin code [] = ⊥
IsWithin code ((lo, hi) ∷ bs) = ((lo ≤ code) × (code ≤ hi)) ⊎ IsWithin code bs

pub contains_iff : (bs : List Block) (code : ℕ) → (contains bs code ≡ true) ↔ IsWithin code bs
unfolding contains
contains_iff bs code = (sound bs, complete bs)
  where
    sound : (bs : List Block) → contains bs code ≡ true → IsWithin code bs
    sound [] h = cc
    sound ((lo, hi) ∷ bs) h = elim (Bool-cases (leb lo code && leb code hi)) [
      | inl within ↦ inl (ground arith, ground arith)
      | inr outside ↦ inr (sound bs (rw outside at h))
    ]

    complete : (bs : List Block) → IsWithin code bs → contains bs code ≡ true
    complete [] w = absurd w
    complete ((lo, hi) ∷ bs) (inl (a, b)) = ground arith
    complete ((lo, hi) ∷ bs) (inr w) = elim (Bool-cases (leb lo code && leb code hi)) [
      | inl within ↦ rw within refl
      | inr outside ↦ rw outside (complete bs w)
    ]

-- The ranges read from printed blocks contain exactly the codes of the blocks.
pub contains-new_http_code_ranges :
    (bs ranges : List Block) (code : ℕ)
    → All IsBlock bs
    → new_http_code_ranges (map print_block bs) ≡ some ranges
    → (contains ranges code ≡ true) ↔ IsWithin code bs
contains-new_http_code_ranges bs ranges code h e =
    let same : some bs ≡ some ranges = sym (new_http_code_ranges-print_block bs h) ∙ e in
    subst (λ rs. (contains rs code ≡ true) ↔ IsWithin code bs) (cc) (contains_iff bs code)
