-- ===== src/Bundle/Manifest.antt =====
-- verify.go, verifyManifest: the manifest names every member with its hash.
use ueg.Common.{
  Bool, true, false, not, ◌&&◌, ◌||◌, List, [], ◌∷◌, Option, none, some, Result, ok, ◌>>=◌, ◌>>◌,
  refuse_if, or_fail, map_err, ℤ, pos, lt_int, Text, text, is_hex64, is_some, lookup, ◌==◌, ◌!=◌,
  text_Eq, if◌then◌else◌,
}
use ueg.Crypto.{Crypto}
use ueg.Canon.{sha256_hex}
use ueg.Strictjson.{unmarshal_by}
use ueg.Identity.Records.{is_identity_id}
use ueg.Bundle.{Members, ManifestDocument, BundleWire, Reason, bplus_manifest_version, safe_name}

abbrev pub manifest_name : Text
manifest_name = text "MANIFEST.json"

abbrev pub seal_name : Text
seal_name = text "BUNDLE_SEAL.json"

unfoldable pub required_members : Bool → List Text
unfolding text
required_members is_bplus =
    text "receipts.ndjson"
    ∷ text "trust_roots.json"
    ∷ text "revocations.json"
    ∷ text "seals.json"
    ∷ (if is_bplus
        then text "petitions.ndjson"
          ∷ text "identity/genesis.json"
          ∷ text "identity/lifecycle.ndjson"
          ∷ text "identity/card.json"
          ∷ text "identity/checkpoint.json"
          ∷ text "identity/evidence_anchor.json"
          ∷ []
        else [])

abbrev valid_sequence : Option ℤ → Bool
valid_sequence none = false
valid_sequence (some n) = not (lt_int n (pos 0))

unfoldable pub check_authority_fields : ManifestDocument → Result Reason (Unit {0})
check_authority_fields m =
    if m.version == bplus_manifest_version
    then refuse_if
        (not (is_identity_id m.identity_id)
          || not (valid_sequence m.checkpoint_sequence)
          || not (is_hex64 m.checkpoint_digest)
          || not (is_hex64 m.evidence_anchor_digest))
        Reason.manifest_authority
    else refuse_if
        (m.identity_id != []
          || is_some m.checkpoint_sequence
          || m.checkpoint_digest != []
          || m.evidence_anchor_digest != [])
        Reason.legacy_with_authority

unfoldable pub check_required : List (Text × Text) → List Text → Result Reason (Unit {0})
check_required files [] = ok tt
check_required files (name ∷ names) = do
  refuse_if (not (is_some (lookup name files))) (Reason.manifest_entry name)
  check_required files names

unfoldable pub check_entries : List (Text × Text) → Result Reason (Unit {0})
check_entries [] = ok tt
check_entries ((name, hash) ∷ files) = do
  refuse_if (not (safe_name name) || name == manifest_name || name == seal_name)
      (Reason.manifest_name name)
  refuse_if (not (is_hex64 hash)) Reason.manifest_hash
  check_entries files

-- A member that the manifest does not list, other than itself and the seal over it.
abbrev pub is_allowed : List (Text × Text) → Text → Bool
is_allowed files name = name == manifest_name || name == seal_name || is_some (lookup name files)

unfoldable pub check_listed : List (Text × Text) → Members → Result Reason (Unit {0})
check_listed files [] = ok tt
check_listed files ((name, bytes) ∷ members) = do
  refuse_if (not (is_allowed files name)) (Reason.unlisted_file name)
  check_listed files members

abbrev is_empty : List (Text × Text) → Bool
is_empty [] = true
is_empty (e ∷ l) = false

module _ (c : Crypto) where
  unfoldable pub check_hashes : Members → List (Text × Text) → Result Reason (Unit {0})
  check_hashes members [] = ok tt
  check_hashes members ((name, want) ∷ files) = do
    bytes ← or_fail (lookup name members) (Reason.missing_file name)
    refuse_if (sha256_hex c bytes != want) (Reason.hash_mismatch name)
    check_hashes members files

  unfoldable pub verify_manifest : BundleWire → Members → Result Reason ManifestDocument
  unfolding text
  verify_manifest w members = do
    raw ← or_fail (lookup manifest_name members) (Reason.missing_member manifest_name)
    m ←
        map_err (λ _. Reason.invalid_member manifest_name)
          (unmarshal_by w.wire.json w.read_manifest raw)
    refuse_if
        (m.version != text "v1" && m.version != text "v2" && m.version != bplus_manifest_version)
        Reason.manifest_version
    refuse_if (m.created_at == []) Reason.manifest_created_at
    refuse_if (is_empty m.files) Reason.manifest_files
    check_authority_fields m
    check_required m.files (required_members (m.version == bplus_manifest_version))
    check_entries m.files
    check_listed m.files members
    check_hashes members m.files
    ok m
