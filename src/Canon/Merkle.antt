-- ===== src/Canon/Merkle.antt =====
-- canon.go, MerkleRootHex. A level is one shorter at least with each round, so that the number of
-- leaves is enough fuel.
pub mod Root
use ueg.Common.{ℕ, zero, suc, List, [], ◌∷◌, ◌++◌, Option, none, some, Text, length}
use ueg.Crypto.{Crypto}
use ueg.Canon.{hex, sha256_hex}

abbrev pub hex_root : Option (List ℕ) → Option Text
hex_root none = none
hex_root (some digest) = some (hex digest)

module _ (c : Crypto) where
  -- The level above one; a lone node at the end is its own sibling.
  unfoldable pub parents : List (List ℕ) → List (List ℕ)
  parents [] = []
  parents (a ∷ []) = c.sha256 (a ++ a) ∷ []
  parents (a ∷ b ∷ level) = c.sha256 (a ++ b) ∷ parents level

  unfoldable pub climb : ℕ → List (List ℕ) → Option (List ℕ)
  climb fuel [] = none
  climb fuel (a ∷ []) = some a
  climb zero (a ∷ b ∷ level) = none
  climb (suc fuel) (a ∷ b ∷ level) = climb fuel (parents (a ∷ b ∷ level))

  unfoldable pub merkle_root_hex : List (List ℕ) → Option Text
  merkle_root_hex [] = some (sha256_hex c [])
  merkle_root_hex (a ∷ leaves) = hex_root (climb (length leaves) (a ∷ leaves))
