-- ===== src/Canon/Merkle/Root.antt =====
-- canon.go, MerkleRootHex: there is a root, and which lists of leaves share it.
use ueg.Common.{
  ℕ, zero, suc, ◌≤◌, ◌≡◌, refl, sym, ap, ◌∙◌, List, [], ◌∷◌, ◌++◌, some, Text, length, arith,
}
use ueg.Crypto.{Crypto}
use ueg.Canon.Merkle.{parents, climb, merkle_root_hex, hex_root}

module _ (c : Crypto) where
  length-parents : (level : List (List ℕ)) → length (parents c level) ≤ length level
  unfolding parents
  length-parents [] = omega arith
  length-parents (a ∷ []) = omega arith
  length-parents (a ∷ b ∷ level) = omega (arith, length-parents level)

  climb_total :
      (fuel : ℕ) (a : List ℕ) (level : List (List ℕ))
      → length level ≤ fuel
      → (r : List ℕ) × (climb c fuel (a ∷ level) ≡ some r)
  unfolding climb parents
  climb_total fuel a [] h = (a, refl)
  climb_total zero a (b ∷ level) h = absurd (omega arith)
  climb_total (suc fuel) a (b ∷ level) h =
      climb_total fuel (c.sha256 (a ++ b)) (parents c level) (omega (arith, length-parents level))

  -- Every list of leaves has a Merkle root: the loop ends within the fuel.
  pub merkle_root_hex_total :
      (leaves : List (List ℕ)) → (root : Text) × (merkle_root_hex c leaves ≡ some root)
  unfolding merkle_root_hex
  merkle_root_hex_total [] = (_, refl)
  merkle_root_hex_total (a ∷ leaves) =
      let (r, e) = climb_total (length leaves) a leaves (omega arith) in (_, ap hex_root e)

  climb_more :
      (fuel : ℕ) (level : List (List ℕ)) (r : List ℕ)
      → climb c fuel level ≡ some r
      → climb c (suc fuel) level ≡ some r
  unfolding climb
  climb_more fuel [] r h = cc
  climb_more fuel (a ∷ []) r h = h
  climb_more zero (a ∷ b ∷ level) r h = cc
  climb_more (suc fuel) (a ∷ b ∷ level) r h = climb_more fuel (parents c (a ∷ b ∷ level)) r h

  -- Leaves in pairs.
  abbrev pub pairs : List (List ℕ × List ℕ) → List (List ℕ)
  pairs [] = []
  pairs ((a, b) ∷ ps) = a ∷ b ∷ pairs ps

  parents-twice :
      (ps : List (List ℕ × List ℕ)) (z : List ℕ)
      → parents c (pairs ps ++ z ∷ z ∷ []) ≡ parents c (pairs ps ++ z ∷ [])
  unfolding parents
  parents-twice [] z = refl
  parents-twice ((a, b) ∷ ps) z = ap (◌∷◌ (c.sha256 (a ++ b))) (parents-twice ps z)

  length-snoc :
      (xs : List (List ℕ)) (y z : List ℕ) → length (xs ++ y ∷ z ∷ []) ≡ suc (length (xs ++ y ∷ []))
  length-snoc [] y z = refl
  length-snoc (x ∷ xs) y z = ap suc (length-snoc xs y z)

  -- An odd number of leaves, three at least, has the root of the same leaves with the last one
  -- written twice: the root does not tell the two lists apart.
  pub merkle_root_hex-twice :
      (a b : List ℕ) (ps : List (List ℕ × List ℕ)) (z : List ℕ)
      → merkle_root_hex c (a ∷ b ∷ pairs ps ++ z ∷ z ∷ [])
        ≡ merkle_root_hex c (a ∷ b ∷ pairs ps ++ z ∷ [])
  unfolding merkle_root_hex climb parents
  merkle_root_hex-twice a b ps z =
      let l = pairs ps ++ z ∷ [] in
      let (r, e) = climb_total (length l) (c.sha256 (a ++ b)) (parents c l) (length-parents l) in
      let x = c.sha256 (a ++ b) in
      ap (λ n. hex_root (climb c (suc n) (a ∷ b ∷ (pairs ps ++ z ∷ z ∷ []))))
        (length-snoc (pairs ps) z z)
      ∙ ap hex_root (
          ap (λ level. climb c (suc (length l)) (x ∷ level)) (parents-twice ps z)
          ∙ climb_more (length l) (x ∷ parents c l) r e
          ∙ sym e)
