-- ===== src/Base/Dict.antt =====
-- Go's maps with string keys, as association lists. The program never depends on their order.
use mathlib.Core.Path.{◌≡◌, refl}
use mathlib.Core.Option.{Option, none, some}
use mathlib.Core.List.{List, [], ◌∷◌}
use native.Mathlib.Omega.{arith}
use gcp.Base.Tests.{if◌then◌else◌}
use gcp.Base.Text.{Str, equal, equal_iff}

module _ {ℓ} {V : Type ℓ} where
  unfoldable pub lookup : Str → List (Str × V) → Option V
  lookup k [] = none
  lookup k ((j, v) ∷ d) = if equal j k then some v else lookup k d

  unfoldable pub insert : Str → V → List (Str × V) → List (Str × V)
  insert k v [] = (k, v) ∷ []
  insert k v ((j, w) ∷ d) = if equal j k then (j, v) ∷ d else (j, w) ∷ insert k v d

  unfoldable pub remove : Str → List (Str × V) → List (Str × V)
  remove k [] = []
  remove k ((j, v) ∷ d) = let rest = remove k d in if equal j k then rest else (j, v) ∷ rest

  pub lookup-insert :
      (k j : Str) (v : V) (d : List (Str × V))
      → lookup j (insert k v d) ≡ (if equal k j then some v else lookup j d)
  unfolding lookup insert
  lookup-insert k j v [] = refl
  lookup-insert k j v ((i, w) ∷ d) =
      ground (arith, equal_iff k j, equal_iff i k, equal_iff i j, lookup-insert k j v d)

  pub lookup-remove :
      (k j : Str) (d : List (Str × V))
      → lookup j (remove k d) ≡ (if equal k j then none else lookup j d)
  unfolding lookup remove
  lookup-remove k j [] = ground arith
  lookup-remove k j ((i, w) ∷ d) =
      ground (arith, equal_iff k j, equal_iff i k, equal_iff i j, lookup-remove k j d)
