-- ===== src/Tests/Bundles.antt =====
-- internal/bundle at a bundle of one receipt, of the identity that was created and not yet rotated.
use ueg.Common.{
  ℕ, ◌≡◌, refl, ◌⊎◌, Bool, true, false, List, [], ◌∷◌, ◌++◌, Option, none, some, Result, ok, err, ℤ,
  pos, Text, text, All, map, length, ◌==◌, text_Eq, if◌then◌else◌, arith,
}
use ueg.Canon.{Value, arr, nil, obj, field, end, str}
use ueg.Identity.{EpochState, State}
use ueg.Identity.Records.{protocol_version_text}
use ueg.Identity.Artifacts.{
  EvidenceAnchor, IdentityCard, LifecycleCheckpoint, card_schema, anchor_schema, checkpoint_schema,
}
use ueg.Ledger.{Receipt, Trust}
use ueg.Ledger.Chain.{IsChain}
use ueg.Ledger.Parse.{Wire}
use ueg.Bundle.{
  Members, Options, Outside, ManifestDocument, BundleSealDocument, ReceiptSealDocument, BundleWire,
  BundleResult, Overall, Verdict,
}
use ueg.Bundle.Trust.{load_trust_roots}
use ueg.Bundle.Seals.{parse_receipts, verify_bundle_seal, verify_receipt_seal}
use ueg.Bundle.Checkpoint.{verify_checkpoint_requirements, load_external_anchor}
use ueg.Bundle.Bplus.{settle, verify_bplus_bundle}
use ueg.Bundle.Archive.{TarNext, entry, read_tar_gz}
use ueg.Bundle.Archive.Limits.{IsWithin, read_tar_gz-IsWithin}
use ueg.Bundle.Bplus.Stands.{IsCovered}
use ueg.Bundle.Bplus.Sound.{IsAuthorized, IsSound}
use ueg.Bundle.Bplus.Verified.{IsIndependent, verify_bplus_bundle-verified}
use ueg.Bundle.Verify.{verify_legacy}
use ueg.Bundle.Verify.Trusted.{IsSignedBy, verify_legacy-trusted}
use ueg.Tests.Toy.{toy, repeat}
use ueg.Tests.Wires.{wire, the_receipt, the_key, the_hash, receipt_line, petition_line}
use ueg.Tests.Identities.{root, identity, created, hexes, key_name, first_pem, signature}

-- The receipt of the toy wire, with the hash of a policy.
abbrev receipt_id : Text
receipt_id = hexes (text "ea66")

abbrev policy_hash : Text
policy_hash = hexes (text "0000")

abbrev receipt : Receipt
receipt = record the_receipt { policy_hash = policy_hash; receipt_id = receipt_id }

abbrev stored_request : Value
stored_request = obj (
    field (text "action") (str (text "execute")) (
      field (text "petition_hash") (str the_hash) (field (text "receipt_id") (str receipt_id) end)))

abbrev anchor : EvidenceAnchor
anchor = record {
  schema = anchor_schema;
  protocol_version = protocol_version_text;
  identity_id = identity;
  epoch_number = pos 0;
  operational_key_id = key_name (text "4020");
  ledger_boundary = record { sequence_no = pos 0; receipt_id = some receipt_id };
  lifecycle_sequence = pos 0;
  lifecycle_record_digest = created.record_digest;
  anchor_digest = hexes (text "6505");
  signature_b64 = signature;
}

abbrev card : IdentityCard
card = record {
  schema = card_schema;
  protocol_version = protocol_version_text;
  identity_id = identity;
  advisory_label = text "home";
  genesis = some root;
}

abbrev checkpoint : LifecycleCheckpoint
checkpoint = record {
  schema = checkpoint_schema;
  protocol_version = protocol_version_text;
  identity_id = identity;
  genesis = some root;
  lifecycle_records = created ∷ [];
  checkpoint_sequence = pos 0;
  checkpoint_digest = created.record_digest;
}

abbrev bundle_seal : BundleSealDocument
bundle_seal = record {
  created_at = text "now";
  manifest_sha256 = hexes (text "6d01");
  members_merkle_root = hexes (text "7640");
  seal_id = hexes (text "9e30");
  signature_b64 = signature;
  signing_key_id = the_key;
  version = text "v1";
}

abbrev receipt_seal : ReceiptSealDocument
receipt_seal = record {
  first_receipt_id = receipt_id;
  last_receipt_id = receipt_id;
  merkle_root = receipt_id;
  policy_hash_set = policy_hash ∷ [];
  seal_id = hexes (text "caf6");
  signature_b64 = signature;
  signing_key_id = the_key;
  window = record {
    end_iso8601 = text "now";
    start_iso8601 = text "now";
    window_type = text "time";
  };
}

abbrev revocations : List ℕ
revocations = b'v' ∷ []

abbrev bundle_wire : BundleWire
bundle_wire = record {
  wire = record wire {
    json = record {
      tokens = wire.json.tokens;
      decode = λ line.
          if line == revocations
          then some (arr nil)
          else if line == receipt_line
          then wire.json.decode line
          else some stored_request;
    };
    read_receipt = λ line. some receipt;
  };
  read_manifest = λ raw. none;
  read_trust_roots = λ raw. some ((the_key, first_pem) ∷ []);
  read_bundle_seal = λ raw. some bundle_seal;
  read_receipt_seals = λ raw. some (receipt_seal ∷ []);
  read_genesis = λ raw. some root;
  read_record = λ raw. some created;
  read_card = λ raw. some card;
  read_checkpoint = λ raw. some checkpoint;
  read_anchor = λ raw. some anchor;
}

abbrev members : Members
members =
    (text "receipts.ndjson", receipt_line)
    ∷ (text "petitions.ndjson", petition_line)
    ∷ (text "revocations.json", revocations)
    ∷ (text "trust_roots.json", b't' ∷ [])
    ∷ (text "seals.json", b's' ∷ [])
    ∷ (text "identity/genesis.json", b'g' ∷ [])
    ∷ (text "identity/lifecycle.ndjson", b'l' ∷ [])
    ∷ (text "identity/card.json", b'c' ∷ [])
    ∷ (text "identity/checkpoint.json", b'k' ∷ [])
    ∷ (text "identity/evidence_anchor.json", b'a' ∷ [])
    ∷ (text "MANIFEST.json", b'm' ∷ [])
    ∷ (text "BUNDLE_SEAL.json", b'b' ∷ [])
    ∷ []

abbrev manifest : ManifestDocument
manifest = record {
  created_at = text "now";
  files = [];
  version = text "bplus-v1";
  identity_id = identity;
  checkpoint_sequence = some (pos 0);
  checkpoint_digest = created.record_digest;
  evidence_anchor_digest = anchor.anchor_digest;
}

abbrev options : Options
options = record {
  expected_key_id = [];
  expected_identity_id = identity;
  external_checkpoint_path = text "kept";
  external_anchor_path = [];
  trust_store = [];
  minimum_checkpoint_sequence = some (pos 0);
  minimum_checkpoint_digest = [];
  require_current_status = false;
}

abbrev outside : Outside
outside = record { regular_file = λ path. some (b'k' ∷ []); stored_checkpoint = λ store id. none }

abbrev verdict : BundleResult
verdict = verify_bplus_bundle toy bundle_wire outside members manifest options

is_verified : verdict.overall_trust ≡ Overall.verified
unfolding ueg.Common.text ueg.Common.text_eq ueg.Common.has_prefix ueg.Common.contains_rune
    ueg.Common.join ueg.Common.split_rune ueg.Common.trim_left ueg.Common.trim_right ueg.Common.trim
    ueg.Common.is_space ueg.Common.trim_space ueg.Common.utf8_rune ueg.Common.utf8 ueg.Common.is_hex
    ueg.Common.is_hex64 ueg.Common.is_hex64_after ueg.Common.decode_two ueg.Common.decode_three
    ueg.Common.decode_four ueg.Common.decode_rune ueg.Common.decode_after ueg.Common.same_optional
    ueg.Common.lookup ueg.Common.replace ueg.Common.insert ueg.Canon.hex_digit ueg.Canon.hex
    ueg.Canon.escape_rune ueg.Canon.escape ueg.Canon.encode_string ueg.Canon.decimal
    ueg.Canon.format_int ueg.Canon.text_lt ueg.Canon.insert_member ueg.Canon.sort_members
    ueg.Canon.encode ueg.Canon.items ueg.Canon.object ueg.Canon.sha256_hex ueg.Canon.hash_jcs
    ueg.Canon.Merkle.parents ueg.Canon.Merkle.climb ueg.Canon.Merkle.merkle_root_hex
    ueg.Keys.public_pem ueg.Keys.key_id ueg.Keys.legacy_key_id ueg.Keys.validate_key_id
    ueg.Keys.sign_b64 ueg.Keys.verify_b64 ueg.Keys.decode_pem ueg.Keys.load_public_pem_text
    ueg.Strictjson.valid_after ueg.Strictjson.scan_value ueg.Strictjson.validate
    ueg.Strictjson.unmarshal_by ueg.Strictjson.unmarshal ueg.Identity.equal_boundary
    ueg.Identity.active_of ueg.Identity.Records.status_text ueg.Identity.Records.action_text
    ueg.Identity.Records.genesis_core ueg.Identity.Records.genesis_signed
    ueg.Identity.Records.boundary_map ueg.Identity.Records.previous_epoch_map
    ueg.Identity.Records.record_core ueg.Identity.Records.record_signed
    ueg.Identity.Records.domain_payload ueg.Identity.Records.validate_boundary
    ueg.Identity.Records.validate_reason ueg.Identity.Records.is_identity_id
    ueg.Identity.Records.is_key_id ueg.Identity.Records.sign_domain
    ueg.Identity.Records.verify_domain ueg.Identity.Records.compute_identity_id
    ueg.Identity.Records.compute_record_digest ueg.Identity.Records.validate_signature_encoding
    ueg.Identity.Records.validate_retiring ueg.Identity.Records.validate_proof
    ueg.Identity.Records.validate_record_basics ueg.Identity.Lifecycle.latest_epoch_number
    ueg.Identity.Lifecycle.close_last ueg.Identity.Lifecycle.close_epoch
    ueg.Identity.Lifecycle.check_prior ueg.Identity.Lifecycle.apply_transition
    ueg.Identity.Lifecycle.apply_suspend ueg.Identity.Lifecycle.apply_resume
    ueg.Identity.Lifecycle.apply_revoke ueg.Identity.Lifecycle.apply_action
    ueg.Identity.Lifecycle.apply_lifecycle_record ueg.Identity.Lifecycle.begin_lifecycle
    ueg.Identity.Lifecycle.boundary_follows ueg.Identity.Lifecycle.trusted_key
    ueg.Identity.Lifecycle.retiring_key ueg.Identity.Lifecycle.validate_genesis
    ueg.Identity.Lifecycle.enter_record ueg.Identity.Lifecycle.derive_step
    ueg.Identity.Lifecycle.derive_from ueg.Identity.Lifecycle.derive_state
    ueg.Identity.Artifacts.new_identity_card ueg.Identity.Artifacts.new_lifecycle_checkpoint
    ueg.Identity.Artifacts.anchor_core ueg.Identity.Artifacts.anchor_signed
    ueg.Identity.Artifacts.compute_anchor_digest ueg.Identity.Artifacts.anchor_draft
    ueg.Identity.Artifacts.sign_anchor ueg.Identity.Artifacts.new_evidence_anchor
    ueg.Identity.Artifacts.validate_evidence_anchor
    ueg.Identity.Artifacts.Checkpoints.parse_identity_card
    ueg.Identity.Artifacts.Checkpoints.parse_lifecycle_checkpoint
    ueg.Identity.Artifacts.Checkpoints.parse_evidence_anchor
    ueg.Identity.Artifacts.Checkpoints.load_stored_checkpoint
    ueg.Identity.Artifacts.Checkpoints.replace_checkpoint
    ueg.Identity.Artifacts.Checkpoints.import_checkpoint
    ueg.Identity.Artifacts.Checkpoints.parse_record_lines
    ueg.Identity.Artifacts.Checkpoints.parse_lifecycle_ndjson
    ueg.Identity.Artifacts.Checkpoints.compare_records
    ueg.Identity.Artifacts.Checkpoints.compare_lifecycle_states ueg.Ledger.text_values
    ueg.Ledger.core ueg.Ledger.fail ueg.Ledger.check_link ueg.Ledger.compute_id
    ueg.Ledger.check_receipt ueg.Ledger.verify_from ueg.Ledger.verify ueg.Ledger.in_window
    ueg.Ledger.sequence_authorized_in ueg.Ledger.sequence_authorized ueg.Ledger.check_boundary
    ueg.Ledger.verify_lifecycle_boundaries ueg.Ledger.epoch_by_key ueg.Ledger.check_authority
    ueg.Ledger.verify_bplus ueg.Ledger.Petitions.digits_value ueg.Ledger.Petitions.magnitude
    ueg.Ledger.Petitions.parse_int ueg.Ledger.Petitions.normalize_numbers
    ueg.Ledger.Petitions.claimed_hash ueg.Ledger.Petitions.named_receipt
    ueg.Ledger.Petitions.petition_body ueg.Ledger.Petitions.receipt_by_id
    ueg.Ledger.Petitions.petition_digest ueg.Ledger.Petitions.check_petition
    ueg.Ledger.Petitions.verify_petitions_from ueg.Ledger.Petitions.verify_petitions
    ueg.Ledger.Parse.receipt_fields ueg.Ledger.Parse.summary_fields ueg.Ledger.Parse.entries
    ueg.Ledger.Parse.keys_of ueg.Ledger.Parse.insert_text ueg.Ledger.Parse.sort_texts
    ueg.Ledger.Parse.absent_from ueg.Ledger.Parse.diff ueg.Ledger.Parse.exact_keys
    ueg.Ledger.Parse.parse_petition ueg.Ledger.Parse.parse_receipt_strict ueg.Ledger.Recovery.apply
    ueg.Ledger.Recovery.stop_in ueg.Ledger.Recovery.interrupt ueg.Ledger.Recovery.begin_pending
    ueg.Ledger.Recovery.clear_pending ueg.Ledger.Recovery.journal ueg.Ledger.Recovery.start_journal
    ueg.Ledger.Recovery.cut_partial ueg.Ledger.Recovery.read_recovery_data
    ueg.Ledger.Recovery.end_line ueg.Ledger.Recovery.append_record ueg.Ledger.Recovery.is_blank
    ueg.Ledger.Recovery.parse_lines ueg.Ledger.Recovery.parse_data ueg.Ledger.Recovery.replan
    ueg.Ledger.Recovery.plan ueg.Ledger.Recovery.apply_plan ueg.Ledger.Recovery.continues_chain
    ueg.Ledger.Recovery.recovery_trust ueg.Ledger.Recovery.check_pending
    ueg.Ledger.Recovery.plan_receipts ueg.Ledger.Recovery.plan_petitions
    ueg.Ledger.Recovery.recover_pair ueg.Ledger.Recovery.recover_pending_files ueg.Bundle.safe_part
    ueg.Bundle.safe_name ueg.Bundle.Trust.check_record_fields
    ueg.Bundle.Trust.parse_revocation_record ueg.Bundle.Trust.revocation_entry
    ueg.Bundle.Trust.revocation_text ueg.Bundle.Trust.collect_ids ueg.Bundle.Trust.revocations_of
    ueg.Bundle.Trust.check_ids ueg.Bundle.Trust.unique ueg.Bundle.Trust.parse_revocations
    ueg.Bundle.Trust.load_root ueg.Bundle.Trust.load_roots ueg.Bundle.Trust.canonical_of
    ueg.Bundle.Trust.revoked_canonical ueg.Bundle.Trust.active_roots
    ueg.Bundle.Trust.load_trust_roots ueg.Bundle.Trust.canonical_ids
    ueg.Bundle.Trust.canonical_signer_ids ueg.Bundle.Trust.check_lifecycle_roots
    ueg.Bundle.Trust.exact_lifecycle_trust ueg.Bundle.Seals.parse_records
    ueg.Bundle.Seals.parse_receipts ueg.Bundle.Seals.parse_petitions ueg.Bundle.Seals.hex_value
    ueg.Bundle.Seals.hex_decode ueg.Bundle.Seals.receipt_leaves ueg.Bundle.Seals.member_names
    ueg.Bundle.Seals.policies_of ueg.Bundle.Seals.bundle_seal_base
    ueg.Bundle.Seals.receipt_seal_base ueg.Bundle.Seals.member_leaves ueg.Bundle.Seals.members_root
    ueg.Bundle.Seals.check_sealed ueg.Bundle.Seals.check_bundle_seal
    ueg.Bundle.Seals.verify_bundle_seal ueg.Bundle.Seals.check_receipt_seal
    ueg.Bundle.Seals.verify_receipt_seal ueg.Bundle.Authority.genesis_eq
    ueg.Bundle.Authority.record_eq ueg.Bundle.Authority.records_eq
    ueg.Bundle.Authority.parse_bplus_authority ueg.Bundle.Checkpoint.read_external_regular
    ueg.Bundle.Checkpoint.check_descends ueg.Bundle.Checkpoint.supplied_checkpoint
    ueg.Bundle.Checkpoint.retained_checkpoint ueg.Bundle.Checkpoint.select_checkpoint
    ueg.Bundle.Checkpoint.load_external_anchor ueg.Bundle.Checkpoint.check_checkpoint_boundary
    ueg.Bundle.Checkpoint.verify_checkpoint_receipt_boundaries
    ueg.Bundle.Checkpoint.verify_checkpoint_requirements
    ueg.Bundle.Checkpoint.verify_receipt_authorization_at_state ueg.Bundle.Checkpoint.last_signed
    ueg.Bundle.Checkpoint.is_covered ueg.Bundle.Checkpoint.is_indeterminate
    ueg.Bundle.Checkpoint.used_statuses ueg.Bundle.Checkpoint.signing_status_for_evidence
    ueg.Bundle.Bplus.names_authority ueg.Bundle.Bplus.binds_head ueg.Bundle.Bplus.check_roots
    ueg.Bundle.Bplus.check_evidence ueg.Bundle.Bplus.check_bundle ueg.Bundle.Bplus.conclude
    ueg.Bundle.Bplus.judge_checkpoint ueg.Bundle.Bplus.judge ueg.Bundle.Bplus.verify_bplus_bundle
    ueg.Bundle.Verify.pin_signers ueg.Bundle.Verify.check_petitions ueg.Bundle.Verify.verify_legacy
    ueg.Bundle.Verify.verify_members ueg.Bundle.Verify.verify_with_options ueg.Tests.Toy.sum
is_verified = refl

verify_bplus_bundle-verified_example :
    (s t : State) × (a : EvidenceAnchor) × (rs : List Receipt) × (found : Option EvidenceAnchor)
    × IsSound toy bundle_wire members s a rs
    × IsIndependent toy bundle_wire outside options s t
    × (verify_checkpoint_requirements options t ≡ ok tt)
    × All (IsAuthorized t) rs
    × (load_external_anchor toy bundle_wire outside [] t rs ≡ ok found)
    × All (λ (x : ℤ × EpochState). IsCovered found x.1 rs) t.epochs
    × (false ≡ false)
verify_bplus_bundle-verified_example =
    verify_bplus_bundle-verified toy bundle_wire outside members manifest options is_verified

-- The same members under a manifest of version 2, and the key that signed them.
abbrev legacy_manifest : ManifestDocument
legacy_manifest = record manifest { version = text "v2" }

abbrev key_options : Options
key_options = record options { expected_key_id = the_key }

abbrev legacy_verdict : BundleResult
legacy_verdict = settle (verify_legacy toy bundle_wire members legacy_manifest key_options)

judged : verify_legacy toy bundle_wire members legacy_manifest key_options ≡ ok legacy_verdict
unfolding ueg.Common.text ueg.Common.text_eq ueg.Common.has_prefix ueg.Common.contains_rune
    ueg.Common.join ueg.Common.split_rune ueg.Common.trim_left ueg.Common.trim_right ueg.Common.trim
    ueg.Common.is_space ueg.Common.trim_space ueg.Common.utf8_rune ueg.Common.utf8 ueg.Common.is_hex
    ueg.Common.is_hex64 ueg.Common.is_hex64_after ueg.Common.decode_two ueg.Common.decode_three
    ueg.Common.decode_four ueg.Common.decode_rune ueg.Common.decode_after ueg.Common.same_optional
    ueg.Common.lookup ueg.Common.replace ueg.Common.insert ueg.Canon.hex_digit ueg.Canon.hex
    ueg.Canon.escape_rune ueg.Canon.escape ueg.Canon.encode_string ueg.Canon.decimal
    ueg.Canon.format_int ueg.Canon.text_lt ueg.Canon.insert_member ueg.Canon.sort_members
    ueg.Canon.encode ueg.Canon.items ueg.Canon.object ueg.Canon.sha256_hex ueg.Canon.hash_jcs
    ueg.Canon.Merkle.parents ueg.Canon.Merkle.climb ueg.Canon.Merkle.merkle_root_hex
    ueg.Keys.public_pem ueg.Keys.key_id ueg.Keys.legacy_key_id ueg.Keys.validate_key_id
    ueg.Keys.sign_b64 ueg.Keys.verify_b64 ueg.Keys.decode_pem ueg.Keys.load_public_pem_text
    ueg.Strictjson.valid_after ueg.Strictjson.scan_value ueg.Strictjson.validate
    ueg.Strictjson.unmarshal_by ueg.Strictjson.unmarshal ueg.Identity.equal_boundary
    ueg.Identity.active_of ueg.Identity.Records.status_text ueg.Identity.Records.action_text
    ueg.Identity.Records.genesis_core ueg.Identity.Records.genesis_signed
    ueg.Identity.Records.boundary_map ueg.Identity.Records.previous_epoch_map
    ueg.Identity.Records.record_core ueg.Identity.Records.record_signed
    ueg.Identity.Records.domain_payload ueg.Identity.Records.validate_boundary
    ueg.Identity.Records.validate_reason ueg.Identity.Records.is_identity_id
    ueg.Identity.Records.is_key_id ueg.Identity.Records.sign_domain
    ueg.Identity.Records.verify_domain ueg.Identity.Records.compute_identity_id
    ueg.Identity.Records.compute_record_digest ueg.Identity.Records.validate_signature_encoding
    ueg.Identity.Records.validate_retiring ueg.Identity.Records.validate_proof
    ueg.Identity.Records.validate_record_basics ueg.Identity.Lifecycle.latest_epoch_number
    ueg.Identity.Lifecycle.close_last ueg.Identity.Lifecycle.close_epoch
    ueg.Identity.Lifecycle.check_prior ueg.Identity.Lifecycle.apply_transition
    ueg.Identity.Lifecycle.apply_suspend ueg.Identity.Lifecycle.apply_resume
    ueg.Identity.Lifecycle.apply_revoke ueg.Identity.Lifecycle.apply_action
    ueg.Identity.Lifecycle.apply_lifecycle_record ueg.Identity.Lifecycle.begin_lifecycle
    ueg.Identity.Lifecycle.boundary_follows ueg.Identity.Lifecycle.trusted_key
    ueg.Identity.Lifecycle.retiring_key ueg.Identity.Lifecycle.validate_genesis
    ueg.Identity.Lifecycle.enter_record ueg.Identity.Lifecycle.derive_step
    ueg.Identity.Lifecycle.derive_from ueg.Identity.Lifecycle.derive_state
    ueg.Identity.Artifacts.new_identity_card ueg.Identity.Artifacts.new_lifecycle_checkpoint
    ueg.Identity.Artifacts.anchor_core ueg.Identity.Artifacts.anchor_signed
    ueg.Identity.Artifacts.compute_anchor_digest ueg.Identity.Artifacts.anchor_draft
    ueg.Identity.Artifacts.sign_anchor ueg.Identity.Artifacts.new_evidence_anchor
    ueg.Identity.Artifacts.validate_evidence_anchor
    ueg.Identity.Artifacts.Checkpoints.parse_identity_card
    ueg.Identity.Artifacts.Checkpoints.parse_lifecycle_checkpoint
    ueg.Identity.Artifacts.Checkpoints.parse_evidence_anchor
    ueg.Identity.Artifacts.Checkpoints.load_stored_checkpoint
    ueg.Identity.Artifacts.Checkpoints.replace_checkpoint
    ueg.Identity.Artifacts.Checkpoints.import_checkpoint
    ueg.Identity.Artifacts.Checkpoints.parse_record_lines
    ueg.Identity.Artifacts.Checkpoints.parse_lifecycle_ndjson
    ueg.Identity.Artifacts.Checkpoints.compare_records
    ueg.Identity.Artifacts.Checkpoints.compare_lifecycle_states ueg.Ledger.text_values
    ueg.Ledger.core ueg.Ledger.fail ueg.Ledger.check_link ueg.Ledger.compute_id
    ueg.Ledger.check_receipt ueg.Ledger.verify_from ueg.Ledger.verify ueg.Ledger.in_window
    ueg.Ledger.sequence_authorized_in ueg.Ledger.sequence_authorized ueg.Ledger.check_boundary
    ueg.Ledger.verify_lifecycle_boundaries ueg.Ledger.epoch_by_key ueg.Ledger.check_authority
    ueg.Ledger.verify_bplus ueg.Ledger.Petitions.digits_value ueg.Ledger.Petitions.magnitude
    ueg.Ledger.Petitions.parse_int ueg.Ledger.Petitions.normalize_numbers
    ueg.Ledger.Petitions.claimed_hash ueg.Ledger.Petitions.named_receipt
    ueg.Ledger.Petitions.petition_body ueg.Ledger.Petitions.receipt_by_id
    ueg.Ledger.Petitions.petition_digest ueg.Ledger.Petitions.check_petition
    ueg.Ledger.Petitions.verify_petitions_from ueg.Ledger.Petitions.verify_petitions
    ueg.Ledger.Parse.receipt_fields ueg.Ledger.Parse.summary_fields ueg.Ledger.Parse.entries
    ueg.Ledger.Parse.keys_of ueg.Ledger.Parse.insert_text ueg.Ledger.Parse.sort_texts
    ueg.Ledger.Parse.absent_from ueg.Ledger.Parse.diff ueg.Ledger.Parse.exact_keys
    ueg.Ledger.Parse.parse_petition ueg.Ledger.Parse.parse_receipt_strict ueg.Ledger.Recovery.apply
    ueg.Ledger.Recovery.stop_in ueg.Ledger.Recovery.interrupt ueg.Ledger.Recovery.begin_pending
    ueg.Ledger.Recovery.clear_pending ueg.Ledger.Recovery.journal ueg.Ledger.Recovery.start_journal
    ueg.Ledger.Recovery.cut_partial ueg.Ledger.Recovery.read_recovery_data
    ueg.Ledger.Recovery.end_line ueg.Ledger.Recovery.append_record ueg.Ledger.Recovery.is_blank
    ueg.Ledger.Recovery.parse_lines ueg.Ledger.Recovery.parse_data ueg.Ledger.Recovery.replan
    ueg.Ledger.Recovery.plan ueg.Ledger.Recovery.apply_plan ueg.Ledger.Recovery.continues_chain
    ueg.Ledger.Recovery.recovery_trust ueg.Ledger.Recovery.check_pending
    ueg.Ledger.Recovery.plan_receipts ueg.Ledger.Recovery.plan_petitions
    ueg.Ledger.Recovery.recover_pair ueg.Ledger.Recovery.recover_pending_files ueg.Bundle.safe_part
    ueg.Bundle.safe_name ueg.Bundle.Trust.check_record_fields
    ueg.Bundle.Trust.parse_revocation_record ueg.Bundle.Trust.revocation_entry
    ueg.Bundle.Trust.revocation_text ueg.Bundle.Trust.collect_ids ueg.Bundle.Trust.revocations_of
    ueg.Bundle.Trust.check_ids ueg.Bundle.Trust.unique ueg.Bundle.Trust.parse_revocations
    ueg.Bundle.Trust.load_root ueg.Bundle.Trust.load_roots ueg.Bundle.Trust.canonical_of
    ueg.Bundle.Trust.revoked_canonical ueg.Bundle.Trust.active_roots
    ueg.Bundle.Trust.load_trust_roots ueg.Bundle.Trust.canonical_ids
    ueg.Bundle.Trust.canonical_signer_ids ueg.Bundle.Trust.check_lifecycle_roots
    ueg.Bundle.Trust.exact_lifecycle_trust ueg.Bundle.Seals.parse_records
    ueg.Bundle.Seals.parse_receipts ueg.Bundle.Seals.parse_petitions ueg.Bundle.Seals.hex_value
    ueg.Bundle.Seals.hex_decode ueg.Bundle.Seals.receipt_leaves ueg.Bundle.Seals.member_names
    ueg.Bundle.Seals.policies_of ueg.Bundle.Seals.bundle_seal_base
    ueg.Bundle.Seals.receipt_seal_base ueg.Bundle.Seals.member_leaves ueg.Bundle.Seals.members_root
    ueg.Bundle.Seals.check_sealed ueg.Bundle.Seals.check_bundle_seal
    ueg.Bundle.Seals.verify_bundle_seal ueg.Bundle.Seals.check_receipt_seal
    ueg.Bundle.Seals.verify_receipt_seal ueg.Bundle.Authority.genesis_eq
    ueg.Bundle.Authority.record_eq ueg.Bundle.Authority.records_eq
    ueg.Bundle.Authority.parse_bplus_authority ueg.Bundle.Checkpoint.read_external_regular
    ueg.Bundle.Checkpoint.check_descends ueg.Bundle.Checkpoint.supplied_checkpoint
    ueg.Bundle.Checkpoint.retained_checkpoint ueg.Bundle.Checkpoint.select_checkpoint
    ueg.Bundle.Checkpoint.load_external_anchor ueg.Bundle.Checkpoint.check_checkpoint_boundary
    ueg.Bundle.Checkpoint.verify_checkpoint_receipt_boundaries
    ueg.Bundle.Checkpoint.verify_checkpoint_requirements
    ueg.Bundle.Checkpoint.verify_receipt_authorization_at_state ueg.Bundle.Checkpoint.last_signed
    ueg.Bundle.Checkpoint.is_covered ueg.Bundle.Checkpoint.is_indeterminate
    ueg.Bundle.Checkpoint.used_statuses ueg.Bundle.Checkpoint.signing_status_for_evidence
    ueg.Bundle.Bplus.names_authority ueg.Bundle.Bplus.binds_head ueg.Bundle.Bplus.check_roots
    ueg.Bundle.Bplus.check_evidence ueg.Bundle.Bplus.check_bundle ueg.Bundle.Bplus.conclude
    ueg.Bundle.Bplus.judge_checkpoint ueg.Bundle.Bplus.judge ueg.Bundle.Bplus.verify_bplus_bundle
    ueg.Bundle.Verify.pin_signers ueg.Bundle.Verify.check_petitions ueg.Bundle.Verify.verify_legacy
    ueg.Bundle.Verify.verify_members ueg.Bundle.Verify.verify_with_options ueg.Tests.Toy.sum
judged = refl

is_trusted : legacy_verdict.trust_verdict ≡ Verdict.identity_trusted
unfolding ueg.Common.text ueg.Common.text_eq ueg.Common.has_prefix ueg.Common.contains_rune
    ueg.Common.join ueg.Common.split_rune ueg.Common.trim_left ueg.Common.trim_right ueg.Common.trim
    ueg.Common.is_space ueg.Common.trim_space ueg.Common.utf8_rune ueg.Common.utf8 ueg.Common.is_hex
    ueg.Common.is_hex64 ueg.Common.is_hex64_after ueg.Common.decode_two ueg.Common.decode_three
    ueg.Common.decode_four ueg.Common.decode_rune ueg.Common.decode_after ueg.Common.same_optional
    ueg.Common.lookup ueg.Common.replace ueg.Common.insert ueg.Canon.hex_digit ueg.Canon.hex
    ueg.Canon.escape_rune ueg.Canon.escape ueg.Canon.encode_string ueg.Canon.decimal
    ueg.Canon.format_int ueg.Canon.text_lt ueg.Canon.insert_member ueg.Canon.sort_members
    ueg.Canon.encode ueg.Canon.items ueg.Canon.object ueg.Canon.sha256_hex ueg.Canon.hash_jcs
    ueg.Canon.Merkle.parents ueg.Canon.Merkle.climb ueg.Canon.Merkle.merkle_root_hex
    ueg.Keys.public_pem ueg.Keys.key_id ueg.Keys.legacy_key_id ueg.Keys.validate_key_id
    ueg.Keys.sign_b64 ueg.Keys.verify_b64 ueg.Keys.decode_pem ueg.Keys.load_public_pem_text
    ueg.Strictjson.valid_after ueg.Strictjson.scan_value ueg.Strictjson.validate
    ueg.Strictjson.unmarshal_by ueg.Strictjson.unmarshal ueg.Identity.equal_boundary
    ueg.Identity.active_of ueg.Identity.Records.status_text ueg.Identity.Records.action_text
    ueg.Identity.Records.genesis_core ueg.Identity.Records.genesis_signed
    ueg.Identity.Records.boundary_map ueg.Identity.Records.previous_epoch_map
    ueg.Identity.Records.record_core ueg.Identity.Records.record_signed
    ueg.Identity.Records.domain_payload ueg.Identity.Records.validate_boundary
    ueg.Identity.Records.validate_reason ueg.Identity.Records.is_identity_id
    ueg.Identity.Records.is_key_id ueg.Identity.Records.sign_domain
    ueg.Identity.Records.verify_domain ueg.Identity.Records.compute_identity_id
    ueg.Identity.Records.compute_record_digest ueg.Identity.Records.validate_signature_encoding
    ueg.Identity.Records.validate_retiring ueg.Identity.Records.validate_proof
    ueg.Identity.Records.validate_record_basics ueg.Identity.Lifecycle.latest_epoch_number
    ueg.Identity.Lifecycle.close_last ueg.Identity.Lifecycle.close_epoch
    ueg.Identity.Lifecycle.check_prior ueg.Identity.Lifecycle.apply_transition
    ueg.Identity.Lifecycle.apply_suspend ueg.Identity.Lifecycle.apply_resume
    ueg.Identity.Lifecycle.apply_revoke ueg.Identity.Lifecycle.apply_action
    ueg.Identity.Lifecycle.apply_lifecycle_record ueg.Identity.Lifecycle.begin_lifecycle
    ueg.Identity.Lifecycle.boundary_follows ueg.Identity.Lifecycle.trusted_key
    ueg.Identity.Lifecycle.retiring_key ueg.Identity.Lifecycle.validate_genesis
    ueg.Identity.Lifecycle.enter_record ueg.Identity.Lifecycle.derive_step
    ueg.Identity.Lifecycle.derive_from ueg.Identity.Lifecycle.derive_state
    ueg.Identity.Artifacts.new_identity_card ueg.Identity.Artifacts.new_lifecycle_checkpoint
    ueg.Identity.Artifacts.anchor_core ueg.Identity.Artifacts.anchor_signed
    ueg.Identity.Artifacts.compute_anchor_digest ueg.Identity.Artifacts.anchor_draft
    ueg.Identity.Artifacts.sign_anchor ueg.Identity.Artifacts.new_evidence_anchor
    ueg.Identity.Artifacts.validate_evidence_anchor
    ueg.Identity.Artifacts.Checkpoints.parse_identity_card
    ueg.Identity.Artifacts.Checkpoints.parse_lifecycle_checkpoint
    ueg.Identity.Artifacts.Checkpoints.parse_evidence_anchor
    ueg.Identity.Artifacts.Checkpoints.load_stored_checkpoint
    ueg.Identity.Artifacts.Checkpoints.replace_checkpoint
    ueg.Identity.Artifacts.Checkpoints.import_checkpoint
    ueg.Identity.Artifacts.Checkpoints.parse_record_lines
    ueg.Identity.Artifacts.Checkpoints.parse_lifecycle_ndjson
    ueg.Identity.Artifacts.Checkpoints.compare_records
    ueg.Identity.Artifacts.Checkpoints.compare_lifecycle_states ueg.Ledger.text_values
    ueg.Ledger.core ueg.Ledger.fail ueg.Ledger.check_link ueg.Ledger.compute_id
    ueg.Ledger.check_receipt ueg.Ledger.verify_from ueg.Ledger.verify ueg.Ledger.in_window
    ueg.Ledger.sequence_authorized_in ueg.Ledger.sequence_authorized ueg.Ledger.check_boundary
    ueg.Ledger.verify_lifecycle_boundaries ueg.Ledger.epoch_by_key ueg.Ledger.check_authority
    ueg.Ledger.verify_bplus ueg.Ledger.Petitions.digits_value ueg.Ledger.Petitions.magnitude
    ueg.Ledger.Petitions.parse_int ueg.Ledger.Petitions.normalize_numbers
    ueg.Ledger.Petitions.claimed_hash ueg.Ledger.Petitions.named_receipt
    ueg.Ledger.Petitions.petition_body ueg.Ledger.Petitions.receipt_by_id
    ueg.Ledger.Petitions.petition_digest ueg.Ledger.Petitions.check_petition
    ueg.Ledger.Petitions.verify_petitions_from ueg.Ledger.Petitions.verify_petitions
    ueg.Ledger.Parse.receipt_fields ueg.Ledger.Parse.summary_fields ueg.Ledger.Parse.entries
    ueg.Ledger.Parse.keys_of ueg.Ledger.Parse.insert_text ueg.Ledger.Parse.sort_texts
    ueg.Ledger.Parse.absent_from ueg.Ledger.Parse.diff ueg.Ledger.Parse.exact_keys
    ueg.Ledger.Parse.parse_petition ueg.Ledger.Parse.parse_receipt_strict ueg.Ledger.Recovery.apply
    ueg.Ledger.Recovery.stop_in ueg.Ledger.Recovery.interrupt ueg.Ledger.Recovery.begin_pending
    ueg.Ledger.Recovery.clear_pending ueg.Ledger.Recovery.journal ueg.Ledger.Recovery.start_journal
    ueg.Ledger.Recovery.cut_partial ueg.Ledger.Recovery.read_recovery_data
    ueg.Ledger.Recovery.end_line ueg.Ledger.Recovery.append_record ueg.Ledger.Recovery.is_blank
    ueg.Ledger.Recovery.parse_lines ueg.Ledger.Recovery.parse_data ueg.Ledger.Recovery.replan
    ueg.Ledger.Recovery.plan ueg.Ledger.Recovery.apply_plan ueg.Ledger.Recovery.continues_chain
    ueg.Ledger.Recovery.recovery_trust ueg.Ledger.Recovery.check_pending
    ueg.Ledger.Recovery.plan_receipts ueg.Ledger.Recovery.plan_petitions
    ueg.Ledger.Recovery.recover_pair ueg.Ledger.Recovery.recover_pending_files ueg.Bundle.safe_part
    ueg.Bundle.safe_name ueg.Bundle.Trust.check_record_fields
    ueg.Bundle.Trust.parse_revocation_record ueg.Bundle.Trust.revocation_entry
    ueg.Bundle.Trust.revocation_text ueg.Bundle.Trust.collect_ids ueg.Bundle.Trust.revocations_of
    ueg.Bundle.Trust.check_ids ueg.Bundle.Trust.unique ueg.Bundle.Trust.parse_revocations
    ueg.Bundle.Trust.load_root ueg.Bundle.Trust.load_roots ueg.Bundle.Trust.canonical_of
    ueg.Bundle.Trust.revoked_canonical ueg.Bundle.Trust.active_roots
    ueg.Bundle.Trust.load_trust_roots ueg.Bundle.Trust.canonical_ids
    ueg.Bundle.Trust.canonical_signer_ids ueg.Bundle.Trust.check_lifecycle_roots
    ueg.Bundle.Trust.exact_lifecycle_trust ueg.Bundle.Seals.parse_records
    ueg.Bundle.Seals.parse_receipts ueg.Bundle.Seals.parse_petitions ueg.Bundle.Seals.hex_value
    ueg.Bundle.Seals.hex_decode ueg.Bundle.Seals.receipt_leaves ueg.Bundle.Seals.member_names
    ueg.Bundle.Seals.policies_of ueg.Bundle.Seals.bundle_seal_base
    ueg.Bundle.Seals.receipt_seal_base ueg.Bundle.Seals.member_leaves ueg.Bundle.Seals.members_root
    ueg.Bundle.Seals.check_sealed ueg.Bundle.Seals.check_bundle_seal
    ueg.Bundle.Seals.verify_bundle_seal ueg.Bundle.Seals.check_receipt_seal
    ueg.Bundle.Seals.verify_receipt_seal ueg.Bundle.Authority.genesis_eq
    ueg.Bundle.Authority.record_eq ueg.Bundle.Authority.records_eq
    ueg.Bundle.Authority.parse_bplus_authority ueg.Bundle.Checkpoint.read_external_regular
    ueg.Bundle.Checkpoint.check_descends ueg.Bundle.Checkpoint.supplied_checkpoint
    ueg.Bundle.Checkpoint.retained_checkpoint ueg.Bundle.Checkpoint.select_checkpoint
    ueg.Bundle.Checkpoint.load_external_anchor ueg.Bundle.Checkpoint.check_checkpoint_boundary
    ueg.Bundle.Checkpoint.verify_checkpoint_receipt_boundaries
    ueg.Bundle.Checkpoint.verify_checkpoint_requirements
    ueg.Bundle.Checkpoint.verify_receipt_authorization_at_state ueg.Bundle.Checkpoint.last_signed
    ueg.Bundle.Checkpoint.is_covered ueg.Bundle.Checkpoint.is_indeterminate
    ueg.Bundle.Checkpoint.used_statuses ueg.Bundle.Checkpoint.signing_status_for_evidence
    ueg.Bundle.Bplus.names_authority ueg.Bundle.Bplus.binds_head ueg.Bundle.Bplus.check_roots
    ueg.Bundle.Bplus.check_evidence ueg.Bundle.Bplus.check_bundle ueg.Bundle.Bplus.conclude
    ueg.Bundle.Bplus.judge_checkpoint ueg.Bundle.Bplus.judge ueg.Bundle.Bplus.verify_bplus_bundle
    ueg.Bundle.Verify.pin_signers ueg.Bundle.Verify.check_petitions ueg.Bundle.Verify.verify_legacy
    ueg.Bundle.Verify.verify_members ueg.Bundle.Verify.verify_with_options ueg.Tests.Toy.sum
is_trusted = refl

verify_legacy-trusted_example :
    (trust : Trust) × (rs : List Receipt) × (bundle_signer : Text) × (receipt_signer : Text)
    × (load_trust_roots toy bundle_wire members (text "v2" == text "v1") ≡ ok trust)
    × (parse_receipts bundle_wire members ≡ ok rs)
    × (verify_bundle_seal toy bundle_wire members trust ≡ ok bundle_signer)
    × (verify_receipt_seal toy bundle_wire members rs trust ≡ ok receipt_signer)
    × IsChain toy trust rs
    × IsSignedBy toy trust the_key
        (bundle_signer ∷ receipt_signer ∷ map (λ (r : Receipt). r.signing_key_id) rs)
verify_legacy-trusted_example =
    verify_legacy-trusted toy bundle_wire members legacy_manifest key_options legacy_verdict judged
      is_trusted

-- An archive of two members.
abbrev archive : List TarNext
archive =
    entry (record { is_regular = true; name = text "a"; contents = some (1 ∷ []) })
    ∷ entry (record { is_regular = true; name = text "b/c"; contents = some (2 ∷ 3 ∷ []) })
    ∷ []

abbrev unpacked : Members
unpacked = (text "b/c", 2 ∷ 3 ∷ []) ∷ (text "a", 1 ∷ []) ∷ []

reads : read_tar_gz (some archive) ≡ ok unpacked
unfolding read_tar_gz ueg.Bundle.Archive.read_entries ueg.Bundle.safe_name ueg.Bundle.safe_part text
    ueg.Common.has_prefix ueg.Common.contains_rune ueg.Common.split_rune ueg.Common.text_eq
    ueg.Common.lookup
reads = refl

read_tar_gz-IsWithin_example : IsWithin unpacked
read_tar_gz-IsWithin_example = read_tar_gz-IsWithin (some archive) unpacked reads
