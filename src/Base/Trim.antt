-- ===== src/Base/Trim.antt =====
-- `strings.TrimSpace`, on UTF-8: the white space of Unicode has 25 characters, of one to three
-- bytes, and each is read from the left and from the right by its bytes alone.
use Prim.Native.Nat.{ℕ, zero, suc, ◌≤◌, ◌<◌}
use mathlib.Core.Bool.{Bool, ◌&&◌, ◌||◌}
use mathlib.Core.List.{[], ◌∷◌, ◌++◌, reverse, reverse-reverse}
use mathlib.Core.Logic.{inl, inr}
use mathlib.Core.Path.{◌≡◌, refl, ap, ◌∙◌}
use native.Mathlib.Omega.{arith}
use fabric8_oso_proxy.Base.Lists.{length, drop}
use fabric8_oso_proxy.Base.Strings.{Str, codes}
use fabric8_oso_proxy.Base.Tests.{◌==◌, ==_iff, leb, if◌then◌else◌, Bool-cases}

-- Tab to carriage return, and the space.
abbrev is_space_1 : ℕ → Bool
is_space_1 a = (leb 9 a && leb a 13) || a == 32

-- U+0085 and U+00A0.
abbrev is_space_2 : ℕ → ℕ → Bool
is_space_2 a b = a == 0xc2 && (b == 0x85 || b == 0xa0)

-- U+1680, U+2000 to U+200A, U+2028, U+2029, U+202F, U+205F and U+3000.
abbrev is_space_3 : ℕ → ℕ → ℕ → Bool
is_space_3 a b c =
    (a == 0xe1 && b == 0x9a && c == 0x80)
    || (a == 0xe2
        && b == 0x80
        && ((leb 0x80 c && leb c 0x8a) || c == 0xa8 || c == 0xa9 || c == 0xaf))
    || (a == 0xe2 && b == 0x81 && c == 0x9f)
    || (a == 0xe3 && b == 0x80 && c == 0x80)

-- The length of the white space in front of a text, and of the one at the end of the text whose
-- reverse is given; 0 without one.
unfoldable pub space_len : Str → ℕ
space_len [] = 0
space_len (a ∷ []) = if is_space_1 a then 1 else 0
space_len (a ∷ b ∷ []) = if is_space_1 a then 1 else if is_space_2 a b then 2 else 0
space_len (a ∷ b ∷ c ∷ s) =
    if is_space_1 a then 1 else if is_space_2 a b then 2 else if is_space_3 a b c then 3 else 0

unfoldable pub space_len_back : Str → ℕ
space_len_back [] = 0
space_len_back (a ∷ []) = if is_space_1 a then 1 else 0
space_len_back (a ∷ b ∷ []) = if is_space_1 a then 1 else if is_space_2 b a then 2 else 0
space_len_back (a ∷ b ∷ c ∷ s) =
    if is_space_1 a then 1 else if is_space_2 b a then 2 else if is_space_3 c b a then 3 else 0

-- Drop what `measure` finds in front, as often as it finds something. Every round but the last
-- makes the text shorter, so the length is enough fuel.
unfoldable pub drop_while_found : (Str → ℕ) → ℕ → Str → Str
drop_while_found measure zero s = s
drop_while_found measure (suc f) s =
    let rest = drop_while_found measure f (drop (measure s) s) in if measure s == 0 then s else rest

unfoldable pub trim_left : Str → Str
trim_left s = drop_while_found space_len (length s) s

unfoldable pub trim_right : Str → Str
trim_right s = reverse (drop_while_found space_len_back (length (reverse s)) (reverse s))

-- `strings.TrimSpace`
unfoldable pub trim_space : Str → Str
trim_space s = trim_right (trim_left s)

-- A text without white space at its ends.
abbrev pub IsTrimmed : Str → Type 0
IsTrimmed s = (space_len s ≡ 0) × (space_len_back (reverse s) ≡ 0)

length-drop-le : (n : ℕ) (s : Str) → length (drop n s) ≤ length s
length-drop-le zero s = omega arith
length-drop-le (suc n) [] = omega arith
length-drop-le (suc n) (c ∷ s) = let le = length-drop-le n s in omega arith

length-drop_pos : (n c : ℕ) (s : Str) → 0 < n → length (drop n (c ∷ s)) < length (c ∷ s)
length-drop_pos zero c s h = absurd (omega arith)
length-drop_pos (suc n) c s h = let le = length-drop-le n s in omega arith

drop_while_found_none :
    (measure : Str → ℕ) (f : ℕ) (s : Str) → measure s ≡ 0 → drop_while_found measure f s ≡ s
unfolding drop_while_found
drop_while_found_none measure zero s h = refl
drop_while_found_none measure (suc f) s h = rw h refl

-- Enough fuel: nothing is found in front of the result.
pub drop_while_found-eq-zero :
    (measure : Str → ℕ)
    → measure [] ≡ 0
    → (f : ℕ) (s : Str) → length s ≤ f
    → measure (drop_while_found measure f s) ≡ 0
unfolding drop_while_found
drop_while_found-eq-zero measure empty zero [] h = empty
drop_while_found-eq-zero measure empty zero (c ∷ s) h = absurd (omega arith)
drop_while_found-eq-zero measure empty (suc f) [] h = rw empty empty
drop_while_found-eq-zero measure empty (suc f) (c ∷ s) h =
    elim (Bool-cases (measure (c ∷ s) == 0)) [
      | inl nothing ↦ rw nothing ((==_iff (measure (c ∷ s)) 0).0 nothing)
      | inr found ↦
          let shorter = length-drop_pos (measure (c ∷ s)) c s (ground arith) in
          rw found (
            drop_while_found-eq-zero measure empty f (drop (measure (c ∷ s)) (c ∷ s)) (omega arith))
    ]

pub trim_space_of : (s : Str) → IsTrimmed s → trim_space s ≡ s
unfolding trim_space trim_left trim_right
trim_space_of s (front, back) =
    let left = drop_while_found_none space_len (length s) s front in
    rw left (
      ap reverse (drop_while_found_none space_len_back (length (reverse s)) (reverse s) back)
      ∙ reverse-reverse s)

trim_space_example : trim_space (codes "  a b" ++ 0xc2 ∷ 0xa0 ∷ []) ≡ codes "a b"
unfolding trim_space trim_left trim_right drop_while_found space_len space_len_back
trim_space_example = refl
