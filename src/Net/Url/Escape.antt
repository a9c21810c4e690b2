-- ===== src/Net/Url/Escape.antt =====
-- Escaped query components are read back.
use fabric8_oso_proxy.Base.{
  ℕ, ◌+◌, ◌*◌, ◌/◌, ◌%◌, ◌<◌, false, Option, none, some, List, [], ◌∷◌, ◌++◌, ◌≡◌, ◌≢◌, refl, sym,
  ap, ◌∙◌, inl, inr, arith, ◌==◌, ==_iff, Bool-cases, Option-cases, All,
}
use fabric8_oso_proxy.Base.Strings.{Str}
use fabric8_oso_proxy.Net.Url.{
  query_component, should_escape, hex_digit, from_hex, escape_byte, escape, from_plus, hex_pair,
  cons_both, unescape,
}

abbrev pub IsByte : ℕ → Type 0
IsByte c = c < 256

-- A byte that neither separates settings nor a key from its value.
abbrev pub IsSafe : ℕ → Type 0
IsSafe d = (d ≢ b'&') × (d ≢ b';') × (d ≢ b'=')

from_hex-hex_digit : (n : ℕ) → n < 16 → from_hex (hex_digit n) ≡ some n
unfolding from_hex hex_digit
from_hex-hex_digit n h = ground arith

hex_digit-IsSafe : (n : ℕ) → n < 16 → IsSafe (hex_digit n)
unfolding hex_digit
hex_digit-IsSafe n h = ground arith

unescape_plain :
    (c : ℕ) (s : Str)
    → (c == b'%') ≡ false
    → unescape query_component (c ∷ s)
      ≡ cons_both (some (from_plus query_component c)) (unescape query_component s)
unfolding unescape
unescape_plain c [] h = rw h refl
unescape_plain c (d ∷ []) h = rw h refl
unescape_plain c (d ∷ e ∷ s) h = rw h refl

unescape_escaped :
    (c : ℕ) (s : Str)
    → c < 256
    → unescape query_component (b'%' ∷ hex_digit (c / 16) ∷ hex_digit (c % 16) ∷ s)
      ≡ cons_both (some c) (unescape query_component s)
unfolding unescape
unescape_escaped c s h =
    let high = from_hex-hex_digit (c / 16) (omega arith) in
    let low = from_hex-hex_digit (c % 16) (omega arith) in
    let whole : 16 * (c / 16) + c % 16 ≡ c = omega arith in
    rw (high, low) (ap (λ x. cons_both (some x) (unescape query_component s)) whole)

plain_byte :
    (c : ℕ)
    → should_escape query_component c ≡ false
    → ((c == b'%') ≡ false) × ((c == b'+') ≡ false) × IsSafe c
unfolding should_escape
plain_byte c h = ground arith

unescape-escape_byte :
    (c : ℕ) (s : Str)
    → IsByte c
    → unescape query_component (escape_byte query_component c ++ s)
      ≡ cons_both (some c) (unescape query_component s)
unfolding escape_byte
unescape-escape_byte c s h = elim (Bool-cases (c == b' ')) [
  | inl space ↦
      let is : c ≡ b' ' = (==_iff c b' ').0 space in
      rw space (
        unescape_plain b'+' s refl
        ∙ ap (λ x. cons_both (some x) (unescape query_component s)) (sym is))
  | inr other ↦ elim (Bool-cases (should_escape query_component c)) [
    | inl escaped ↦ rw (other, escaped) (unescape_escaped c s h)
    | inr plain ↦
        let (percent, plus, _) = plain_byte c plain in
        rw (other, plain) (unescape_plain c s percent ∙ rw plus refl)
  ]
]

-- Escaping a text of bytes is undone by unescaping it.
pub unescape-escape :
    (s : Str) → All IsByte s → unescape query_component (escape query_component s) ≡ some s
unfolding escape unescape
unescape-escape [] h = refl
unescape-escape (c ∷ s) (b, h) =
    unescape-escape_byte c (escape query_component s) b
    ∙ ap (cons_both (some c)) (unescape-escape s h)

escape_byte-IsSafe : (c : ℕ) → IsByte c → All IsSafe (escape_byte query_component c)
unfolding escape_byte
escape_byte-IsSafe c h = elim (Bool-cases (c == b' ')) [
  | inl space ↦ rw space (ground arith, tt)
  | inr other ↦ elim (Bool-cases (should_escape query_component c)) [
    | inl escaped ↦
        rw (other, escaped)
          (
            ground arith,
            (
              hex_digit-IsSafe (c / 16) (omega arith),
              (hex_digit-IsSafe (c % 16) (omega arith), tt),
            ),
          )
    | inr plain ↦ rw (other, plain) ((plain_byte c plain).2, tt)
  ]
]

pub All-append {ℓ κ} :
    {A : Type ℓ} (P : A → Type κ) (xs ys : List A) → All P xs → All P ys → All P (xs ++ ys)
All-append P [] ys h k = k
All-append P (x ∷ xs) ys (p, h) k = (p, All-append P xs ys h k)

-- An escaped text has none of the bytes that structure a query.
pub escape-IsSafe : (s : Str) → All IsByte s → All IsSafe (escape query_component s)
unfolding escape
escape-IsSafe [] h = tt
escape-IsSafe (c ∷ s) (b, h) =
    All-append IsSafe (escape_byte query_component c) (escape query_component s)
      (escape_byte-IsSafe c b) (escape-IsSafe s h)

from_hex-lt : (d n : ℕ) → from_hex d ≡ some n → n < 16
unfolding from_hex
from_hex-lt d n h = ground arith

-- What unescaping a text of bytes returns, if it returns a text.
abbrev pub AreBytes : Option Str → Type 0
AreBytes none = Unit
AreBytes (some s) = All IsByte s

cons_both-AreBytes :
    (c : ℕ) (o : Option Str) → IsByte c → AreBytes o → AreBytes (cons_both (some c) o)
cons_both-AreBytes c none b h = tt
cons_both-AreBytes c (some s) b h = (b, h)

from_plus-IsByte : (c : ℕ) → IsByte c → IsByte (from_plus query_component c)
from_plus-IsByte c h = ground arith

hex_pair-AreBytes :
    (d e : ℕ) (o : Option Str)
    → AreBytes o
    → AreBytes (cons_both (hex_pair (from_hex d) (from_hex e)) o)
hex_pair-AreBytes d e o h = elim (Option-cases (from_hex d)) [
  | inl bad ↦ rw bad tt
  | inr (m, high) ↦ elim (Option-cases (from_hex e)) [
    | inl bad ↦ rw (high, bad) tt
    | inr (n, low) ↦
        let a = from_hex-lt d m high in
        let b = from_hex-lt e n low in
        rw (high, low) (cons_both-AreBytes (16 * m + n) o (omega arith) h)
  ]
]

pub unescape-AreBytes : (s : Str) → All IsByte s → AreBytes (unescape query_component s)
unfolding unescape
unescape-AreBytes [] h = tt
unescape-AreBytes (c ∷ []) (b, h) = elim (Bool-cases (c == b'%')) [
  | inl bad ↦ rw bad tt
  | inr plain ↦ rw plain (from_plus-IsByte c b, tt)
]
unescape-AreBytes (c ∷ d ∷ []) (b, h) = elim (Bool-cases (c == b'%')) [
  | inl bad ↦ rw bad tt
  | inr plain ↦ rw plain (
      cons_both-AreBytes (from_plus query_component c) (unescape query_component (d ∷ []))
        (from_plus-IsByte c b) (unescape-AreBytes (d ∷ []) h))
]
unescape-AreBytes (c ∷ d ∷ e ∷ s) (b, h) = elim (Bool-cases (c == b'%')) [
  | inl escaped ↦
      rw escaped (hex_pair-AreBytes d e (unescape query_component s) (unescape-AreBytes s h.1.1))
  | inr plain ↦ rw plain (
      cons_both-AreBytes (from_plus query_component c) (unescape query_component (d ∷ e ∷ s))
        (from_plus-IsByte c b) (unescape-AreBytes (d ∷ e ∷ s) h))
]
