-- ===== src/Bundle/Authority.antt =====
-- bplus.go, parseBPlusAuthority: the members of a bundle that describe its identity. reflect.DeepEqual
-- compares the fields one by one.
use ueg.Common.{
  Bool, true, false, not, ◌&&◌, ◌||◌, List, [], ◌∷◌, Option, none, some, Result, ok, ◌>>=◌, ◌>>◌,
  refuse_if, map_err, text, same_optional, ◌==◌, ◌!=◌, int_Eq, text_Eq,
}
use ueg.Crypto.{Crypto}
use ueg.Strictjson.{unmarshal_by}
use ueg.Identity.{
  Genesis, GenesisPolicy, PreviousEpoch, LifecycleRecord, State, status_Eq, equal_boundary,
}
use ueg.Identity.Records.{action_text}
use ueg.Identity.Lifecycle.{derive_state}
use ueg.Identity.Artifacts.{EvidenceAnchor, validate_evidence_anchor}
use ueg.Identity.Artifacts.Checkpoints.{
  parse_identity_card, parse_lifecycle_checkpoint, parse_evidence_anchor, parse_lifecycle_ndjson,
}
use ueg.Bundle.{
  Members, BundleWire, BundleResult, Reason, Code, Overall, Mark, empty_result, member,
  bplus_manifest_version,
}

abbrev pub new_bplus_result : BundleResult
new_bplus_result = record empty_result {
  bundle_version = bplus_manifest_version;
  signature = Mark.not_checked;
  bundle_ledger_integrity = Mark.not_checked;
  identity_continuity = Mark.not_checked;
  lifecycle_chain = Mark.not_checked;
  signing_key_status = Mark.not_checked;
  epoch_authorization = Mark.not_checked;
  evidence_anchor = Mark.not_checked;
  checkpoint_authenticity = Mark.not_checked;
  checkpoint_source = Mark.not_checked;
  checkpoint_sequence = Mark.not_checked;
  checkpoint_freshness = Mark.not_checked;
  evidence_time_assurance = Mark.host_metadata_only;
  overall_trust = Overall.invalid;
}

abbrev pub fail_bplus : Code → Reason → BundleResult
fail_bplus code reason = record new_bplus_result {
  is_ok = false;
  reason_code = code;
  reason = reason;
  overall_trust = Overall.invalid;
}

abbrev pub not_trusted_bplus : BundleResult → Code → Reason → BundleResult
not_trusted_bplus res code reason = record res {
  is_ok = false;
  reason_code = code;
  reason = reason;
  overall_trust = Overall.not_trusted;
}

abbrev policy_eq : GenesisPolicy → GenesisPolicy → Bool
policy_eq p q =
    same_bool p.one_active_operational_key q.one_active_operational_key
    && same_bool p.concurrent_signing q.concurrent_signing
    && same_bool p.recovery_root_rotation q.recovery_root_rotation
  where
    same_bool : Bool → Bool → Bool
    same_bool true b = b
    same_bool false b = not b

unfoldable pub genesis_eq : Genesis → Genesis → Bool
genesis_eq a b =
    a.schema == b.schema
    && a.protocol_version == b.protocol_version
    && a.identity_nonce_b64 == b.identity_nonce_b64
    && a.recovery_root_key_id == b.recovery_root_key_id
    && a.recovery_root_public_key_pem == b.recovery_root_public_key_pem
    && a.epoch_zero_key_id == b.epoch_zero_key_id
    && a.epoch_zero_public_key_pem == b.epoch_zero_public_key_pem
    && a.canonicalization == b.canonicalization
    && policy_eq a.genesis_policy b.genesis_policy
    && a.advisory_label == b.advisory_label
    && a.identity_id == b.identity_id
    && a.recovery_signature_b64 == b.recovery_signature_b64
    && a.epoch_zero_proof_b64 == b.epoch_zero_proof_b64

abbrev pub is_genesis : Option Genesis → Genesis → Bool
is_genesis none g = false
is_genesis (some f) g = genesis_eq f g

abbrev previous_eq : Option PreviousEpoch → Option PreviousEpoch → Bool
previous_eq none none = true
previous_eq none (some q) = false
previous_eq (some p) none = false
previous_eq (some p) (some q) =
    p.epoch_number == q.epoch_number
    && p.operational_key_id == q.operational_key_id
    && p.operational_status == q.operational_status
    && equal_boundary p.final_ledger_boundary q.final_ledger_boundary

unfoldable pub record_eq : LifecycleRecord → LifecycleRecord → Bool
record_eq a b =
    a.schema == b.schema
    && a.protocol_version == b.protocol_version
    && a.identity_id == b.identity_id
    && a.lifecycle_sequence == b.lifecycle_sequence
    && same_optional a.previous_record_digest b.previous_record_digest
    && action_text a.action == action_text b.action
    && a.epoch_number == b.epoch_number
    && a.operational_key_id == b.operational_key_id
    && a.operational_public_key_pem == b.operational_public_key_pem
    && a.operational_status == b.operational_status
    && equal_boundary a.ledger_boundary b.ledger_boundary
    && previous_eq a.previous_epoch b.previous_epoch
    && same_optional a.evidence_anchor_digest b.evidence_anchor_digest
    && a.reason_code == b.reason_code
    && a.record_digest == b.record_digest
    && a.recovery_signature_b64 == b.recovery_signature_b64
    && same_optional a.retiring_signature_b64 b.retiring_signature_b64
    && same_optional a.operational_proof_b64 b.operational_proof_b64

unfoldable pub records_eq : List LifecycleRecord → List LifecycleRecord → Bool
records_eq [] [] = true
records_eq [] (b ∷ bs) = false
records_eq (a ∷ as_) [] = false
records_eq (a ∷ as_) (b ∷ bs) = record_eq a b && records_eq as_ bs

-- A message of another package under a code.
abbrev pub coded : {E A : Type 0} → Code → (E → Reason) → Result E A → Result BundleResult A
coded code reason m = map_err (λ e. fail_bplus code (reason e)) m

module _ (c : Crypto) (w : BundleWire) where
  unfoldable pub parse_bplus_authority : Members → Result BundleResult (State × EvidenceAnchor)
  unfolding text
  parse_bplus_authority members = do
    card ←
        coded Code.identity_card_invalid Reason.bad_artifact (
          parse_identity_card c w.wire.json w.read_card
            (member members (text "identity/card.json")))
    (k, t) ← coded Code.checkpoint_invalid Reason.bad_artifact (
        parse_lifecycle_checkpoint c w.wire.json w.read_checkpoint
          (member members (text "identity/checkpoint.json")))
    g ←
        coded Code.genesis_invalid Reason.bad_json
          (unmarshal_by w.wire.json w.read_genesis (member members (text "identity/genesis.json")))
    records ← coded Code.lifecycle_invalid Reason.bad_artifact (
        parse_lifecycle_ndjson w.wire.json w.read_record
          (member members (text "identity/lifecycle.ndjson")))
    s ← coded Code.lifecycle_invalid Reason.bad_identity (derive_state c [] g records)
    refuse_if
        (not (is_genesis card.genesis g)
          || card.identity_id != k.identity_id
          || not (is_genesis k.genesis g)
          || not (records_eq k.lifecycle_records records)
          || t.last_record_digest != s.last_record_digest)
        (fail_bplus Code.authority_substitution (Reason.of_code Code.authority_substitution))
    a ← coded Code.evidence_anchor_invalid Reason.bad_artifact (
        parse_evidence_anchor c w.wire.json w.read_anchor
          (member members (text "identity/evidence_anchor.json")))
    coded Code.evidence_anchor_invalid Reason.bad_artifact (validate_evidence_anchor c a s)
    ok (s, a)
