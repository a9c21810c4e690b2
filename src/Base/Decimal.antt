-- ===== src/Base/Decimal.antt =====
-- `fmt.Sprintf("%d", n)` for a natural number.
pub mod Atoi
use Prim.Native.Nat.{ℕ, zero, suc, ◌+◌, ◌-◌, ◌*◌, ◌/◌, ◌%◌, ◌<◌}
use mathlib.Core.List.{[], ◌∷◌}
use mathlib.Core.Logic.{inl, inr}
use mathlib.Core.Path.{◌≡◌, refl, sym, ap, ◌∙◌}
use native.Mathlib.Omega.{arith}
use fabric8_oso_proxy.Base.Strings.{Str}
use fabric8_oso_proxy.Base.Tests.{leb, if◌then◌else◌, Bool-cases}

-- The digits of `n` in front of `acc`, on fuel.
pub digits_onto : ℕ → ℕ → Str → Str
digits_onto zero n acc = acc
digits_onto (suc f) n acc =
    let more = digits_onto f (n / 10) ((b'0' + n % 10) ∷ acc) in
    if leb n 9 then (b'0' + n) ∷ acc else more

unfoldable pub decimal : ℕ → Str
unfolding digits_onto
decimal n = digits_onto (suc n) n []

-- The number that digits stand for, behind those read.
pub value : ℕ → Str → ℕ
value v [] = v
value v (c ∷ s) = value (10 * v + (c - b'0')) s

pub value-digits_onto : (f n : ℕ) (acc : Str) → n < f → value 0 (digits_onto f n acc) ≡ value n acc
unfolding digits_onto value
value-digits_onto zero n acc h = elim h [ ]
value-digits_onto (suc f) n acc h = elim (Bool-cases (leb n 9)) [
  | inl small ↦ rw small (ap (λ v. value v acc) (omega arith))
  | inr big ↦ rw big (
      value-digits_onto f (n / 10) ((b'0' + n % 10) ∷ acc) (ground arith)
      ∙ ap (λ v. value v acc) (omega arith))
]

pub value-decimal : (n : ℕ) → value 0 (decimal n) ≡ n
unfolding decimal value
value-decimal n = value-digits_onto (suc n) n [] (omega arith)

pub decimal_injective : (m n : ℕ) → decimal m ≡ decimal n → m ≡ n
decimal_injective m n e = sym (value-decimal m) ∙ ap (value 0) e ∙ value-decimal n

decimal_example : decimal 1207 ≡ b'1' ∷ b'2' ∷ b'0' ∷ b'7' ∷ []
unfolding decimal
decimal_example = refl
