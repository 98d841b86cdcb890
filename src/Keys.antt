-- ===== src/Keys.antt =====
-- internal/keys/keys.go: key fingerprints, signatures, and public keys as PEM text. A missing
-- private key is an empty one.
pub mod Signing
use ueg.Common.{
  ℕ, ◌≡◌, Bool, true, false, not, ◌&&◌, List, [], ◌++◌, Option, none, some, Result, ok, err, ◌>>=◌,
  ◌>>◌, refuse_if, or_fail, length, take, Text, text, utf8, trim_space, ◌==◌, ◌!=◌, text_Eq, nat_Eq,
  if◌then◌else◌,
}
use ueg.Crypto.{Crypto, PemBlock}
use ueg.Canon.{sha256_hex}

pub record Pair : Type 0 where
  pub private : List ℕ
  pub public : List ℕ

pub data Error : Type 0 where
  missing_public missing_private marshal_failed fingerprint_mismatch : Error
  no_pem_block wrong_block_type headers_not_permitted trailing_text : Error
  parse_failed : Error

abbrev pub public_key_size : ℕ
public_key_size = 32

abbrev pub private_key_size : ℕ
private_key_size = 64

abbrev pub signature_size : ℕ
signature_size = 64

module _ (c : Crypto) where
  unfoldable pub public_pem : Pair → Result Error Text
  unfolding text
  public_pem p = do
    refuse_if (length p.public != public_key_size) missing_public
    der ← or_fail (c.marshal_pkix p.public) marshal_failed
    ok (c.pem_encode (text "PUBLIC KEY") der)

  unfoldable pub key_id : Pair → Result Error Text
  unfolding text sha256_hex
  key_id p = do pem ← public_pem p; ok (text "ueg:sha256:" ++ sha256_hex c (utf8 pem))

  unfoldable pub legacy_key_id : Pair → Result Error Text
  unfolding text sha256_hex
  legacy_key_id p = do pem ← public_pem p; ok (text "ueg:" ++ take 16 (sha256_hex c (utf8 pem)))

  validate_legacy : Pair → Text → Bool → Result Error (Unit {0})
  validate_legacy p id false = err fingerprint_mismatch
  validate_legacy p id true = do
    legacy ← legacy_key_id p
    refuse_if (id != legacy) fingerprint_mismatch

  unfoldable pub validate_key_id : Pair → Text → Bool → Result Error (Unit {0})
  unfolding validate_legacy
  validate_key_id p id allow_legacy = do
    want ← key_id p
    if id == want then ok tt else validate_legacy p id allow_legacy

  unfoldable pub sign_b64 : Pair → List ℕ → Result Error Text
  sign_b64 p message =
      if length p.private != private_key_size
      then err missing_private
      else ok (c.base64_encode (c.ed25519_sign p.private message))

  verify_decoded : Pair → List ℕ → Option (List ℕ) → Bool
  verify_decoded p message none = false
  verify_decoded p message (some sig) =
      length sig == signature_size && c.ed25519_verify p.public message sig

  unfoldable pub verify_b64 : Pair → List ℕ → Text → Bool
  unfolding verify_decoded
  verify_b64 p message signature =
      length p.public == public_key_size && verify_decoded p message (c.base64_decode signature)

  unfoldable pub decode_pem : Text → Text → Result Error PemBlock
  decode_pem data_text expected = do
    block ← or_fail (c.pem_decode data_text) no_pem_block
    refuse_if (block.block_type != expected) wrong_block_type
    refuse_if block.has_headers headers_not_permitted
    refuse_if (trim_space block.rest != []) trailing_text
    ok block

  -- x509 also returns keys of other kinds; `parse_pkix` returns Ed25519 keys alone.
  unfoldable pub load_public_pem_text : Text → Result Error Pair
  unfolding text
  load_public_pem_text pem = do
    block ← decode_pem pem (text "PUBLIC KEY")
    public ← or_fail (c.parse_pkix block.bytes) parse_failed
    ok (record { private = []; public = public })
