-- ===== src/Bundle.antt =====
-- internal/bundle: the verdict on an evidence bundle. The archive is a list of what archive/tar
-- returns, a message is a constructor, and the files that the options name are read by a parameter.
pub mod Archive
pub mod Manifest
pub mod Trust
pub mod Seals
pub mod Authority
pub mod Checkpoint
pub mod Bplus
pub mod Verify
use ueg.Common.{
  ℕ, ◌*◌, Bool, true, false, not, ◌&&◌, ◌||◌, List, [], ◌∷◌, ◌++◌, Option, none, some, ℤ, pos, Text,
  text, contains_rune, has_prefix, split_rune, every, lookup, leb, nat_eq, ◌==◌, text_Eq,
}
use ueg.Identity.{Genesis, LifecycleRecord}
use ueg.Identity.Artifacts.{IdentityCard, LifecycleCheckpoint, EvidenceAnchor}
use ueg.Ledger.{Finding}
use ueg.Ledger.Parse.{Wire}

abbrev pub max_total_bytes : ℕ
max_total_bytes = 50 * 1024 * 1024

abbrev pub max_file_bytes : ℕ
max_file_bytes = 10 * 1024 * 1024

abbrev pub max_files : ℕ
max_files = 200

-- The members of an archive by name.
abbrev pub Members : Type 0
Members = List (Text × List ℕ)

-- An absent text or path is the empty one.
pub record Options : Type 0 where
  pub expected_key_id : Text
  pub expected_identity_id : Text
  pub external_checkpoint_path : Text
  pub external_anchor_path : Text
  pub trust_store : Text
  pub minimum_checkpoint_sequence : Option ℤ
  pub minimum_checkpoint_digest : Text
  pub require_current_status : Bool

-- What is outside the bundle: a regular file, and the checkpoint of an identity in a trust store.
pub record Outside : Type 0 where
  pub regular_file : Text → Option (List ℕ)
  pub stored_checkpoint : Text → Text → Option (List ℕ)

pub record ManifestDocument : Type 0 where
  pub created_at : Text
  pub files : List (Text × Text)
  pub version : Text
  pub identity_id : Text
  pub checkpoint_sequence : Option ℤ
  pub checkpoint_digest : Text
  pub evidence_anchor_digest : Text

pub record BundleSealDocument : Type 0 where
  pub created_at : Text
  pub manifest_sha256 : Text
  pub members_merkle_root : Text
  pub seal_id : Text
  pub signature_b64 : Text
  pub signing_key_id : Text
  pub version : Text

pub record ReceiptSealWindow : Type 0 where
  pub end_iso8601 : Text
  pub start_iso8601 : Text
  pub window_type : Text

pub record ReceiptSealDocument : Type 0 where
  pub first_receipt_id : Text
  pub last_receipt_id : Text
  pub merkle_root : Text
  pub policy_hash_set : List Text
  pub seal_id : Text
  pub signature_b64 : Text
  pub signing_key_id : Text
  pub window : ReceiptSealWindow

-- How encoding/json fills the structs; `read_trust_roots` yields the entries of the map.
pub record BundleWire : Type 0 where
  pub wire : Wire
  pub read_manifest : List ℕ → Option ManifestDocument
  pub read_trust_roots : List ℕ → Option (List (Text × Text))
  pub read_bundle_seal : List ℕ → Option BundleSealDocument
  pub read_receipt_seals : List ℕ → Option (List ReceiptSealDocument)
  pub read_genesis : List ℕ → Option Genesis
  pub read_record : List ℕ → Option LifecycleRecord
  pub read_card : List ℕ → Option IdentityCard
  pub read_checkpoint : List ℕ → Option LifecycleCheckpoint
  pub read_anchor : List ℕ → Option EvidenceAnchor

-- The Trust and Overall constants; `unset` is the empty text.
pub data Verdict : Type 0 where
  unset not_verified internally_consistent identity_trusted identity_mismatch verified : Verdict

pub data Overall : Type 0 where
  unset verified trust_indeterminate not_trusted invalid : Overall

-- The texts of the other verdict fields; `status` is one that signingStatusForEvidence composes.
pub data Mark : Type 0 where
  unset not_checked pass failed indeterminate embedded_only independent_match : Mark
  supplied_file retained_store unproven_offline authentic_embedded_status_only : Mark
  host_metadata_only : Mark
  status : Text → Mark

pub data Code : Type 0 where
  unset evidence_invalid bplus_requires_identity_pin manifest_authority_mismatch : Code
  trust_roots_invalid legacy_revocation_conflict trust_root_substitution : Code
  bundle_seal_invalid receipts_invalid bplus_ledger_invalid petitions_invalid : Code
  petition_binding_invalid receipt_seal_invalid export_signer_not_active : Code
  embedded_anchor_boundary_mismatch signing_identity_invalid : Code
  missing_external_identity_pin identity_pin_mismatch minimum_checkpoint_not_met : Code
  checkpoint_receipt_boundary_mismatch epoch_unauthorized external_anchor_invalid : Code
  embedded_checkpoint_not_independent current_status_freshness_unavailable : Code
  epoch_trust_indeterminate bplus_verified_at_checkpoint : Code
  identity_card_invalid checkpoint_invalid genesis_invalid lifecycle_invalid : Code
  authority_substitution evidence_anchor_invalid checkpoint_source_conflict : Code
  checkpoint_rollback checkpoint_fork : Code

-- Messages, without the values that they print. `of_code` is the message that stands with a code.
pub data Reason : Type 0 where
  empty is_internally_consistent is_identity_trusted other_identity : Reason
  of_code : Code → Reason
  archive_unreadable bad_tar not_regular unsafe_member duplicate_member too_many_files : Reason
  member_unreadable member_too_large bundle_too_large : Reason
  missing_member invalid_member : Text → Reason
  manifest_version manifest_created_at manifest_files manifest_authority : Reason
  legacy_with_authority manifest_hash : Reason
  manifest_entry manifest_name unlisted_file missing_file hash_mismatch : Text → Reason
  no_public_keys revocations_missing revocations_form revocation_empty : Reason
  all_revoked : Reason
  bad_root unbound_revocation duplicate_revocation inactive_signer : Text → Reason
  trust_count trust_missing trust_differs : Reason
  seal_fields seal_key seal_manifest seal_merkle_root seal_identity seal_signature : Reason
  seal_count seal_policy_hash seal_first seal_last seal_policies receipt_id_not_hex : Reason
  not_canonicalizable no_receipts : Reason
  bad_line : ueg.Ledger.Parse.Error → Reason
  bad_json : ueg.Strictjson.Error → Reason
  bad_key : ueg.Keys.Error → Reason
  bad_identity : ueg.Identity.Error → Reason
  bad_artifact : ueg.Identity.Artifacts.Error → Reason
  findings : List Finding → Reason
  below_minimum digest_not_contained digest_without_sequence : Reason
  boundary_differs outside_windows : Reason
  external_unreadable external_too_large anchor_elsewhere : Reason

pub data Check : Type 0 where
  manifest_matches roots_active bundle_seal_verified receipts_verified petitions_match : Check
  receipt_seal_verified self_contained signers_match : Check
  bplus_manifest_matches lifecycle_verified bplus_evidence_verified pin_and_checkpoint : Check

-- Result.
pub record BundleResult : Type 0 where
  pub is_ok : Bool
  pub reason : Reason
  pub trust_verdict : Verdict
  pub expected_key_id : Text
  pub receipt_count : ℕ
  pub signing_key_ids : List Text
  pub checks : List Check
  pub bundle_version : Text
  pub reason_code : Code
  pub signature : Mark
  pub bundle_ledger_integrity : Mark
  pub identity_continuity : Mark
  pub lifecycle_chain : Mark
  pub signing_key_status : Mark
  pub epoch_authorization : Mark
  pub evidence_anchor : Mark
  pub checkpoint_authenticity : Mark
  pub checkpoint_source : Mark
  pub checkpoint_sequence : Mark
  pub checkpoint_freshness : Mark
  pub evidence_time_assurance : Mark
  pub overall_trust : Overall
  pub identity_id : Text
  pub lifecycle_sequence : ℤ
  pub lifecycle_digest : Text

-- Result{}.
abbrev pub empty_result : BundleResult
empty_result = record {
  is_ok = false;
  reason = Reason.empty;
  trust_verdict = Verdict.unset;
  expected_key_id = [];
  receipt_count = 0;
  signing_key_ids = [];
  checks = [];
  bundle_version = [];
  reason_code = Code.unset;
  signature = Mark.unset;
  bundle_ledger_integrity = Mark.unset;
  identity_continuity = Mark.unset;
  lifecycle_chain = Mark.unset;
  signing_key_status = Mark.unset;
  epoch_authorization = Mark.unset;
  evidence_anchor = Mark.unset;
  checkpoint_authenticity = Mark.unset;
  checkpoint_source = Mark.unset;
  checkpoint_sequence = Mark.unset;
  checkpoint_freshness = Mark.unset;
  evidence_time_assurance = Mark.unset;
  overall_trust = Overall.unset;
  identity_id = [];
  lifecycle_sequence = pos 0;
  lifecycle_digest = [];
}

abbrev pub fail : Reason → BundleResult
fail reason = record empty_result {
  reason = reason;
  trust_verdict = Verdict.not_verified;
  reason_code = Code.evidence_invalid;
  overall_trust = Overall.invalid;
}

abbrev pub bplus_manifest_version : Text
bplus_manifest_version = text "bplus-v1"

-- The bytes of a member, none if it is missing.
abbrev pub bytes_of : Option (List ℕ) → List ℕ
bytes_of none = []
bytes_of (some bytes) = bytes

abbrev pub member : Members → Text → List ℕ
member members name = bytes_of (lookup name members)

abbrev is_name_character : ℕ → Bool
is_name_character r =
    (leb b'a' r && leb r b'z')
    || (leb b'A' r && leb r b'Z')
    || (leb b'0' r && leb r b'9')
    || nat_eq r b'.'
    || nat_eq r b'_'
    || nat_eq r b'-'

unfoldable pub safe_part : Text → Bool
unfolding text
safe_part part =
    not (part == [] || part == text "." || part == text "..") && every is_name_character part

unfoldable pub safe_name : Text → Bool
unfolding text safe_part
safe_name name =
    not (
      name == []
      || has_prefix name (text "/")
      || contains_rune b'\\' name
      || contains_rune b':' name)
    && every safe_part (split_rune b'/' name)
