-- ===== src/Tests/Canons.antt =====
-- internal/canon: Merkle roots of a few leaves.
use ueg.Common.{◌≡◌, [], ◌∷◌, some, Text}
use ueg.Canon.Merkle.{merkle_root_hex}
use ueg.Canon.Merkle.Root.{merkle_root_hex_total, merkle_root_hex-twice}
use ueg.Tests.Toy.{toy}

merkle_root_hex_total_example :
    (root : Text) × (merkle_root_hex toy ((1 ∷ []) ∷ (2 ∷ []) ∷ (3 ∷ []) ∷ []) ≡ some root)
merkle_root_hex_total_example = merkle_root_hex_total toy ((1 ∷ []) ∷ (2 ∷ []) ∷ (3 ∷ []) ∷ [])

merkle_root_hex-twice_example :
    merkle_root_hex toy ((1 ∷ []) ∷ (2 ∷ []) ∷ (3 ∷ []) ∷ (3 ∷ []) ∷ [])
    ≡ merkle_root_hex toy ((1 ∷ []) ∷ (2 ∷ []) ∷ (3 ∷ []) ∷ [])
merkle_root_hex-twice_example = merkle_root_hex-twice toy (1 ∷ []) (2 ∷ []) [] (3 ∷ [])
