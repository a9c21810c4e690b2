-- ===== src/Base/Decimal/Atoi.antt =====
-- `strconv.Atoi` on texts without a minus sign.
use Prim.Native.Nat.{ℕ, zero, suc, ◌+◌, ◌-◌, ◌*◌, ◌/◌, ◌%◌, ◌≤◌, ◌<◌}
use mathlib.Core.Bool.{Bool, true, false, ◌&&◌}
use mathlib.Core.List.{[], ◌∷◌}
use mathlib.Core.Logic.{◌≢◌, inl, inr}
use mathlib.Core.Option.{Option, none, some}
use mathlib.Core.Path.{◌≡◌, refl, ap, ◌∙◌}
use native.Mathlib.Omega.{arith}
use fabric8_oso_proxy.Base.Decimal.{decimal, digits_onto, value, value-decimal}
use fabric8_oso_proxy.Base.Lists.{All}
use fabric8_oso_proxy.Base.Strings.{Str}
use fabric8_oso_proxy.Base.Tests.{leb, ◌==◌, if◌then◌else◌, Bool-cases}

abbrev pub is_digit : ℕ → Bool
is_digit c = leb b'0' c && leb c b'9'

-- The largest `int`.
abbrev pub max_int : ℕ
max_int = 9223372036854775807

unfoldable pub digits_value : ℕ → Str → Option ℕ
digits_value v [] = some v
digits_value v (c ∷ s) =
    let rest = digits_value (10 * v + (c - b'0')) s in if is_digit c then rest else none

abbrev pub in_range : Option ℕ → Option ℕ
in_range none = none
in_range (some v) = if leb v max_int then some v else none

abbrev pub unsigned : Str → Option ℕ
unsigned [] = none
unsigned (c ∷ s) = in_range (digits_value 0 (c ∷ s))

-- `none` is the error.
unfoldable pub atoi : Str → Option ℕ
atoi [] = none
atoi (c ∷ s) = if c == b'+' then unsigned s else unsigned (c ∷ s)

-- A text of digits.
abbrev pub IsDigits : Str → Type 0
IsDigits s = All (λ c. is_digit c ≡ true) s

digits_onto-IsDigits : (f n : ℕ) (acc : Str) → IsDigits acc → IsDigits (digits_onto f n acc)
unfolding digits_onto
digits_onto-IsDigits zero n acc h = h
digits_onto-IsDigits (suc f) n acc h = elim (Bool-cases (leb n 9)) [
  | inl small ↦ rw small (ground arith, h)
  | inr big ↦
      rw big
        (digits_onto-IsDigits f (n / 10) ((b'0' + n % 10) ∷ acc) (digit (n % 10) (omega arith), h))
]
  where
    digit : (d : ℕ) → d < 10 → is_digit (b'0' + d) ≡ true
    digit d lt = ground arith

digits_value-eq-value : (v : ℕ) (s : Str) → IsDigits s → digits_value v s ≡ some (value v s)
unfolding digits_value value
digits_value-eq-value v [] h = refl
digits_value-eq-value v (c ∷ s) (d, h) = rw d (digits_value-eq-value (10 * v + (c - b'0')) s h)

digits_onto-ne-nil : (f n : ℕ) (acc : Str) → acc ≢ [] → digits_onto f n acc ≢ []
unfolding digits_onto
digits_onto-ne-nil zero n acc h = h
digits_onto-ne-nil (suc f) n acc h = elim (Bool-cases (leb n 9)) [
  | inl small ↦ rw small (λ e. cc)
  | inr big ↦ rw big (digits_onto-ne-nil f (n / 10) ((b'0' + n % 10) ∷ acc) (λ e. cc))
]

pub decimal-ne-nil : (n : ℕ) → decimal n ≢ []
unfolding decimal digits_onto
decimal-ne-nil n = elim (Bool-cases (leb n 9)) [
  | inl small ↦ rw small (λ e. cc)
  | inr big ↦ rw big (digits_onto-ne-nil n (n / 10) ((b'0' + n % 10) ∷ []) (λ e. cc))
]

pub decimal-IsDigits : (n : ℕ) → IsDigits (decimal n)
unfolding decimal
decimal-IsDigits n = digits_onto-IsDigits (suc n) n [] tt

atoi_of_digits : (s : Str) → s ≢ [] → IsDigits s → value 0 s ≤ max_int → atoi s ≡ some (value 0 s)
unfolding atoi
atoi_of_digits [] n h b = absurd (n refl)
atoi_of_digits (c ∷ s) n h b = rw (not_plus c h.0, digits_value-eq-value 0 (c ∷ s) h) (ground arith)
  where
    not_plus : (d : ℕ) → is_digit d ≡ true → (d == b'+') ≡ false
    not_plus d e = ground arith

pub atoi-decimal : (n : ℕ) → n ≤ max_int → atoi (decimal n) ≡ some n
atoi-decimal n h =
    let same = value-decimal n in
    atoi_of_digits (decimal n) (decimal-ne-nil n) (decimal-IsDigits n) (omega arith) ∙ ap some same

atoi_example : atoi (decimal 503) ≡ some 503
atoi_example = atoi-decimal 503 (omega arith)
