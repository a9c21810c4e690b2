-- ===== src/Base/Maps.antt =====
-- Maps whose keys are strings, as association lists.
use mathlib.Core.List.{List, [], ◌∷◌}
use mathlib.Core.Option.{Option, none, some}
use mathlib.Core.Path.{◌≡◌, refl}
use native.Mathlib.Omega.{arith}
use mathlib.Core.Logic.{◌≢◌}
use fabric8_oso_proxy.Base.Strings.{Str, equal, equal_iff, equal_ne, equal_refl}
use fabric8_oso_proxy.Base.Tests.{if◌then◌else◌}

module _ {ℓ} {V : Type ℓ} where
  unfoldable pub lookup : Str → List (Str × V) → Option V
  lookup k [] = none
  lookup k ((j, v) ∷ m) = if equal j k then some v else lookup k m

  unfoldable pub insert : Str → V → List (Str × V) → List (Str × V)
  insert k v [] = (k, v) ∷ []
  insert k v ((j, w) ∷ m) = if equal j k then (k, v) ∷ m else (j, w) ∷ insert k v m

  unfoldable pub delete : Str → List (Str × V) → List (Str × V)
  delete k [] = []
  delete k ((j, v) ∷ m) = if equal j k then delete k m else (j, v) ∷ delete k m

module _ {ℓ} {V : Type ℓ} where
  pub lookup-insert :
      (j k : Str) (v : V) (m : List (Str × V))
      → lookup j (insert k v m) ≡ (if equal k j then some v else lookup j m)
  unfolding lookup insert
  lookup-insert j k v [] = refl
  lookup-insert j k v ((i, w) ∷ m) =
      ground (arith, equal_iff k j, equal_iff i k, equal_iff i j, lookup-insert j k v m)

  pub lookup-delete :
      (j k : Str) (m : List (Str × V))
      → lookup j (delete k m) ≡ (if equal k j then none else lookup j m)
  unfolding lookup delete
  lookup-delete j k [] = ground arith
  lookup-delete j k ((i, w) ∷ m) =
      ground (arith, equal_iff k j, equal_iff i k, equal_iff i j, lookup-delete j k m)

  pub lookup-insert_self : (k : Str) (v : V) (m : List (Str × V)) → lookup k (insert k v m) ≡ some v
  lookup-insert_self k v m = rw (lookup-insert k k v m, equal_refl k) refl

  pub lookup-insert_ne :
      (j k : Str) (v : V) (m : List (Str × V)) → k ≢ j → lookup j (insert k v m) ≡ lookup j m
  lookup-insert_ne j k v m h = rw (lookup-insert j k v m, equal_ne k j h) refl

  pub lookup-delete_self : (k : Str) (m : List (Str × V)) → lookup k (delete k m) ≡ none
  lookup-delete_self k m = rw (lookup-delete k k m, equal_refl k) refl

  pub lookup-delete_ne :
      (j k : Str) (m : List (Str × V)) → k ≢ j → lookup j (delete k m) ≡ lookup j m
  lookup-delete_ne j k m h = rw (lookup-delete j k m, equal_ne k j h) refl
