-- ===== src/Keys/Signing.antt =====
-- keys.go: what SignB64 writes, VerifyB64 accepts.
use ueg.Common.{ℕ, ◌≡◌, true, List, Text, ok, length, arith, nat_Eq}
use ueg.Crypto.{Crypto, CryptoLaws, IsKeyPair}
use ueg.Keys.{Pair, sign_b64, verify_b64, public_key_size}

module _ (c : Crypto) (laws : CryptoLaws c) where
  pub verify_b64-sign_b64 :
      (p : Pair) (message : List ℕ) {signature : Text}
      → IsKeyPair c p.private p.public
      → length p.public ≡ public_key_size
      → sign_b64 c p message ≡ ok signature
      → verify_b64 c p message signature ≡ true
  unfolding sign_b64 verify_b64
  verify_b64-sign_b64 p message pair size h = ground (
    arith,
    laws.base64_inverse (c.ed25519_sign p.private message),
    laws.sign_size p.private message,
    pair message,
  )
