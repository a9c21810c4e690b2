-- ===== src/Base/Strings/Split.antt =====
-- What `strings.Split` makes of a text with a separator.
use Prim.Native.Nat.{ℕ}
use mathlib.Core.Bool.{false, true}
use mathlib.Core.List.{[], ◌∷◌, ◌++◌}
use mathlib.Core.Logic.{◌≢◌}
use mathlib.Core.Path.{◌≡◌, refl}
use native.Mathlib.Omega.{arith}
use fabric8_oso_proxy.Base.Strings.{Str, split, cons_first, Lacks}
use fabric8_oso_proxy.Base.Tests.{◌==◌}

==_ne : (a b : ℕ) → a ≢ b → (a == b) ≡ false
==_ne a b h = ground arith

==_refl : (a : ℕ) → (a == a) ≡ true
==_refl a = ground arith

pub split_lacks : (sep : ℕ) (s : Str) → Lacks sep s → split s sep ≡ s ∷ []
unfolding split cons_first
split_lacks sep [] h = refl
split_lacks sep (c ∷ s) (n, h) = rw (==_ne c sep n, split_lacks sep s h) refl

pub split-append : (sep : ℕ) (s t : Str) → Lacks sep s → split (s ++ sep ∷ t) sep ≡ s ∷ split t sep
unfolding split cons_first
split-append sep [] t h = rw (==_refl sep) refl
split-append sep (c ∷ s) t (n, h) = rw (==_ne c sep n, split-append sep s t h) refl
