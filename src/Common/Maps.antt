-- ===== src/Common/Maps.antt =====
-- Go's maps, as association lists with one entry for a key. The newest key comes first.
use mathlib.Core.Path.{◌≡◌}
use mathlib.Core.List.{List, [], ◌∷◌}
use mathlib.Core.Option.{Option, none, some}
use native.Mathlib.Omega.{arith}
use ueg.Common.Tests.{Eq, ◌==◌, if◌then◌else◌, is_some}

module _ {ℓ} {K V : Type ℓ} ⦃e : Eq K⦄ where
  unfoldable pub lookup : K → List (K × V) → Option V
  lookup k [] = none
  lookup k ((j, v) ∷ m) = if j == k then some v else lookup k m

  unfoldable pub replace : K → V → List (K × V) → List (K × V)
  replace k v [] = []
  replace k v ((j, w) ∷ m) = if j == k then (k, v) ∷ m else (j, w) ∷ replace k v m

  unfoldable pub insert : K → V → List (K × V) → List (K × V)
  unfolding lookup replace
  insert k v m = if is_some (lookup k m) then replace k v m else (k, v) ∷ m

  lookup-replace :
      (k j : K) (v : V) (m : List (K × V))
      → lookup j (replace k v m)
        ≡ (if k == j then (if is_some (lookup k m) then some v else none) else lookup j m)
  unfolding lookup replace
  lookup-replace k j v [] = ground arith
  lookup-replace k j v ((i, w) ∷ m) =
      ground (arith, e.beq_iff k j, e.beq_iff i k, e.beq_iff i j, lookup-replace k j v m)

  pub lookup-insert :
      (k j : K) (v : V) (m : List (K × V))
      → lookup j (insert k v m) ≡ (if k == j then some v else lookup j m)
  unfolding lookup insert
  lookup-insert k j v m = ground (arith, lookup-replace k j v m, e.beq_iff k j)
