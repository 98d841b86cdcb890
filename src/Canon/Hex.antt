-- ===== src/Canon/Hex.antt =====
-- canon.go: digests in hexadecimal.
use ueg.Common.{
  ℕ, ◌+◌, ◌/◌, ◌%◌, ◌<◌, ◌≡◌, refl, true, List, [], ◌∷◌, some, Text, utf8, is_hex, is_hex64, every,
  length, All, Option-cases, inl, inr, nat_eq_iff, arith,
}
use ueg.Crypto.{Crypto, CryptoLaws}
use ueg.Canon.{Value, hex, hex_digit, sha256_hex, hash_jcs, encode}

hex_digit-IsHex : (d : ℕ) → d < 16 → is_hex (hex_digit d) ≡ true
unfolding is_hex hex_digit
hex_digit-IsHex d h = ground arith

hex-IsHex : (bs : List ℕ) → All (λ b. b < 256) bs → every is_hex (hex bs) ≡ true
unfolding hex
hex-IsHex [] h = refl
hex-IsHex (b ∷ bs) (h, t) = ground (
  arith,
  hex_digit-IsHex (b / 16) (omega arith),
  hex_digit-IsHex (b % 16) (omega arith),
  hex-IsHex bs t,
)

length-hex : (bs : List ℕ) → length (hex bs) ≡ length bs + length bs
unfolding hex
length-hex [] = omega arith
length-hex (b ∷ bs) = omega (arith, length-hex bs)

module _ (c : Crypto) (laws : CryptoLaws c) where
  sha256_hex-IsHex64 : (m : List ℕ) → is_hex64 (sha256_hex c m) ≡ true
  unfolding is_hex64 sha256_hex
  sha256_hex-IsHex64 m = ground (
    arith,
    hex-IsHex (c.sha256 m) (laws.sha256_bytes m),
    length-hex (c.sha256 m),
    laws.sha256_size m,
    nat_eq_iff (length (hex (c.sha256 m))) 64,
  )

  pub hash_jcs-IsHex64 : (v : Value) (id : Text) → hash_jcs c v ≡ some id → is_hex64 id ≡ true
  unfolding hash_jcs
  hash_jcs-IsHex64 v id h = elim (Option-cases (encode v)) [
    | inl e ↦ absurd (ground arith)
    | inr (s, e) ↦ ground (arith, sha256_hex-IsHex64 (utf8 s))
  ]
