-- ===== src/Base/Strings.antt =====
-- Go's strings, as the sequences of their bytes, and the part of package `strings` that the
-- components call.
pub mod Index
pub mod Split
use Prim.Native.Char.{code}
use Prim.Native.Nat.{ℕ, suc, ◌+◌, ◌-◌}
use Prim.Native.String.{String}
use mathlib.Core.Bool.{Bool, true, false, ◌&&◌, and-eq-true_iff}
use mathlib.Core.List.{List, [], ◌∷◌, ◌++◌, append-nil}
use mathlib.Core.Logic.{◌≢◌, ◌↔◌}
use mathlib.Core.Option
use mathlib.Core.Option.{Option, none, some}
use mathlib.Core.Path.{◌≡◌, refl, sym, ap, ◌∙◌}
use native.Mathlib.Omega.{arith}
use fabric8_oso_proxy.Base.Lists.{
  length, take, drop, All, take-append, drop-append, take-append-drop,
}
use fabric8_oso_proxy.Base.Tests.{◌==◌, if◌then◌else◌, leb}

abbrev pub Str : Type 0
Str = List ℕ

-- The bytes of a literal; every literal of the model is ASCII.
abbrev pub codes : String → Str
codes String.[] = []
codes (String.◌∷◌ c s) = code c ∷ codes s

-- Go's `==` on strings.
unfoldable pub equal : Str → Str → Bool
equal [] [] = true
equal (x ∷ xs) (y ∷ ys) = x == y && equal xs ys
equal _ _ = false

pub equal_iff : (a b : Str) → (equal a b ≡ true) ↔ (a ≡ b)
unfolding equal
equal_iff (x ∷ a) (y ∷ b) = ground (arith, equal_iff a b)
equal_iff _ _ = ground arith

pub equal_refl : (a : Str) → equal a a ≡ true
equal_refl a = (equal_iff a a).1 refl

pub equal_ne : (a b : Str) → a ≢ b → equal a b ≡ false
equal_ne a b h = ground (arith, equal_iff a b)

-- `strings.HasPrefix`
unfoldable pub has_prefix : Str → Str → Bool
has_prefix s [] = true
has_prefix [] (p ∷ ps) = false
has_prefix (c ∷ s) (p ∷ ps) = c == p && has_prefix s ps

-- `strings.HasSuffix`
unfoldable pub has_suffix : Str → Str → Bool
has_suffix s p = leb (length p) (length s) && equal (drop (length s - length p) s) p

-- `strings.TrimPrefix`
unfoldable pub trim_prefix : Str → Str → Str
trim_prefix s p = if has_prefix s p then drop (length p) s else s

-- `strings.TrimSuffix`
unfoldable pub trim_suffix : Str → Str → Str
trim_suffix s p = if has_suffix s p then take (length s - length p) s else s

-- `strings.Index`; `none` is -1
unfoldable pub index : Str → Str → Option ℕ
index [] sub = if has_prefix [] sub then some 0 else none
index (c ∷ s) sub = if has_prefix (c ∷ s) sub then some 0 else Option.map suc (index s sub)

-- What `strings.Split` puts before the parts already found.
unfoldable pub cons_first : ℕ → List Str → List Str
cons_first c [] = (c ∷ []) ∷ []
cons_first c (p ∷ ps) = (c ∷ p) ∷ ps

-- `strings.Split` at a separator of one byte; the result has at least one part.
unfoldable pub split : Str → ℕ → List Str
split [] sep = [] ∷ []
split (c ∷ s) sep = let rest = split s sep in if c == sep then [] ∷ rest else cons_first c rest

-- Whether a byte is absent.
abbrev pub Lacks : ℕ → Str → Type 0
Lacks c s = All (λ d. d ≢ c) s

pub has_prefix-append : (p s : Str) → has_prefix (p ++ s) p ≡ true
unfolding has_prefix
has_prefix-append [] s = refl
has_prefix-append (c ∷ p) s = ground (arith, has_prefix-append p s)

-- A text has a prefix exactly when it is that prefix and a rest.
pub has_prefix_split : (s p : Str) → has_prefix s p ≡ true → (r : Str) × (s ≡ p ++ r)
unfolding has_prefix
has_prefix_split s [] h = (s, refl)
has_prefix_split [] (p ∷ ps) h = cc
has_prefix_split (c ∷ s) (p ∷ ps) h =
    let (r, e) = has_prefix_split s ps (ground arith) in (r, ground arith)

pub trim_prefix-append : (p s : Str) → trim_prefix (p ++ s) p ≡ s
unfolding trim_prefix
trim_prefix-append p s = rw (has_prefix-append p s) (drop-append p s)

pub trim_prefix_of_not : (s p : Str) → has_prefix s p ≡ false → trim_prefix s p ≡ s
unfolding trim_prefix
trim_prefix_of_not s p h = rw h refl

-- A text with a suffix is what trimming leaves, and the suffix.
pub has_suffix_split : (s p : Str) → has_suffix s p ≡ true → s ≡ trim_suffix s p ++ p
unfolding has_suffix trim_suffix
has_suffix_split s p h =
    let e = (equal_iff (drop (length s - length p) s) p).0 ((and-eq-true_iff _ _).0 h).1 in
    rw h
      (sym (take-append-drop (length s - length p) s) ∙ ap (◌++◌ (take (length s - length p) s)) e)

pub trim_suffix_of_not : (s p : Str) → has_suffix s p ≡ false → trim_suffix s p ≡ s
unfolding trim_suffix
trim_suffix_of_not s p h = rw h refl

-- For two literals the premise is `refl`.
pub ne_of_equal : (a b : Str) → equal a b ≡ false → a ≢ b
ne_of_equal a b h e = ground (arith, equal_iff a b)
