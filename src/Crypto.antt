-- ===== src/Crypto.antt =====
-- The primitives of Go's crypto, encoding/pem, crypto/x509 and encoding/base64 packages that the
-- program calls. They are parameters of the model: `Crypto` is what is called, and `CryptoLaws` what
-- those packages document about it.
use ueg.Common.{ℕ, ◌<◌, ◌≡◌, Bool, true, List, Option, some, Text, All, length}

-- What pem.Decode returns: the block, whether it has headers, and the text after it.
pub record PemBlock : Type 0 where
  pub block_type : Text
  pub bytes : List ℕ
  pub has_headers : Bool
  pub rest : Text

pub record Crypto : Type 0 where
  pub sha256 : List ℕ → List ℕ
  -- Private key and message; public key, message and signature.
  pub ed25519_sign : List ℕ → List ℕ → List ℕ
  pub ed25519_verify : List ℕ → List ℕ → List ℕ → Bool
  pub base64_encode : List ℕ → Text
  pub base64_decode : Text → Option (List ℕ)
  pub marshal_pkix : List ℕ → Option (List ℕ)
  pub parse_pkix : List ℕ → Option (List ℕ)
  pub pem_encode : Text → List ℕ → Text
  pub pem_decode : Text → Option PemBlock

pub record CryptoLaws (c : Crypto) : Type 0 where
  pub sha256_size : (m : List ℕ) → length (c.sha256 m) ≡ 32
  pub sha256_bytes : (m : List ℕ) → All (λ b. b < 256) (c.sha256 m)
  pub sign_size : (k m : List ℕ) → length (c.ed25519_sign k m) ≡ 64
  pub base64_inverse : (m : List ℕ) → c.base64_decode (c.base64_encode m) ≡ some m

-- `public` is the public half of `private`: what the one signs, the other verifies.
abbrev pub IsKeyPair : Crypto → List ℕ → List ℕ → Type 0
IsKeyPair c private public =
    (m : List ℕ) → c.ed25519_verify public m (c.ed25519_sign private m) ≡ true
