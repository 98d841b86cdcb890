-- ===== src/Identity/Mutation/Creation.antt =====
-- lifecycle.go, NewGenesis: the authority of an identity and its first record. The random nonce is an
-- argument.
use ueg.Common.{
  ℕ, true, false, not, List, [], none, some, Result, ok, ◌>>=◌, ◌>>◌, refuse_if, or_fail, map_err,
  pos, Text, text, trim_space, int_Eq, text_Eq,
}
use ueg.Crypto.{Crypto}
use ueg.Keys.{Pair, key_id, public_pem}
use ueg.Identity.{Status, Action, Genesis, LedgerBoundary, LifecycleRecord, Error, status_Eq}
use ueg.Identity.Records.{
  genesis_schema, lifecycle_schema, protocol_version_text, genesis_domain, genesis_signed,
  validate_boundary, sign_domain, compute_identity_id,
}
use ueg.Identity.Mutation.{is_first_action, genesis_reason, sign_record}

module _ (c : Crypto) where
  -- The authority before it is digested and signed.
  unfoldable pub genesis_draft : Pair → Pair → Text → List ℕ → Result Error Genesis
  unfolding text
  genesis_draft root epoch_zero label nonce = do
    recovery_id ← map_err (λ _. Error.key_error) (key_id c root)
    recovery_pem ← map_err (λ _. Error.key_error) (public_pem c root)
    epoch_id ← map_err (λ _. Error.key_error) (key_id c epoch_zero)
    epoch_pem ← map_err (λ _. Error.key_error) (public_pem c epoch_zero)
    ok (record {
      schema = genesis_schema;
      protocol_version = protocol_version_text;
      identity_nonce_b64 = c.base64_encode nonce;
      recovery_root_key_id = recovery_id;
      recovery_root_public_key_pem = recovery_pem;
      epoch_zero_key_id = epoch_id;
      epoch_zero_public_key_pem = epoch_pem;
      canonicalization = text "RFC8785-JCS";
      genesis_policy = record {
        one_active_operational_key = true;
        concurrent_signing = false;
        recovery_root_rotation = false;
      };
      advisory_label = trim_space label;
      identity_id = [];
      recovery_signature_b64 = [];
      epoch_zero_proof_b64 = [];
    })

  unfoldable pub sign_named : Genesis → Pair → Pair → Result Error Genesis
  sign_named g root epoch_zero = do
    recovery ← sign_domain c root genesis_domain (genesis_signed g)
    proof ← sign_domain c epoch_zero genesis_domain (genesis_signed g)
    ok (record g { recovery_signature_b64 = recovery; epoch_zero_proof_b64 = proof })

  unfoldable pub sign_genesis : Genesis → Pair → Pair → Result Error Genesis
  unfolding sign_named
  sign_genesis g root epoch_zero = do
    id ← or_fail (compute_identity_id c g) Error.not_canonical
    sign_named (record g { identity_id = id }) root epoch_zero

  -- The first lifecycle record of an authority, before it is signed.
  unfoldable pub first_draft : Genesis → Action → LedgerBoundary → LifecycleRecord
  unfolding text
  first_draft g action boundary = record {
    schema = lifecycle_schema;
    protocol_version = protocol_version_text;
    identity_id = g.identity_id;
    lifecycle_sequence = pos 0;
    previous_record_digest = none;
    action = action;
    epoch_number = pos 0;
    operational_key_id = g.epoch_zero_key_id;
    operational_public_key_pem = g.epoch_zero_public_key_pem;
    operational_status = Status.active;
    ledger_boundary = boundary;
    previous_epoch = none;
    evidence_anchor_digest = none;
    reason_code = genesis_reason action;
    record_digest = [];
    recovery_signature_b64 = [];
    retiring_signature_b64 = none;
    operational_proof_b64 = none;
  }

  unfoldable pub new_genesis :
      Pair
      → Pair
      → Text
      → Action
      → LedgerBoundary
      → List ℕ
      → Result Error (Genesis × LifecycleRecord)
  new_genesis root epoch_zero label action boundary nonce = do
    refuse_if (not (is_first_action action)) Error.unsupported_action
    refuse_if (not (validate_boundary boundary)) Error.record_boundary
    drafted ← genesis_draft root epoch_zero label nonce
    g ← sign_genesis drafted root epoch_zero
    r ← sign_record c (first_draft g action boundary) root none (some epoch_zero)
    ok (g, r)
