-- ===== src/Tests/Identities.antt =====
-- internal/identity at an identity that was created, rotated to a second key and suspended.
use ueg.Common.{
  ℕ, ◌≡◌, refl, Bool, true, false, List, [], ◌∷◌, ◌++◌, Option, none, some, ℤ, pos, negsuc, Text,
  text, ok, lookup, arith,
}
use ueg.Identity.{
  Status, Action, Genesis, LedgerBoundary, PreviousEpoch, LifecycleRecord, AuthorizationWindow,
  EpochState, State, Error,
}
use ueg.Identity.Records.{
  genesis_schema, lifecycle_schema, protocol_version_text, compute_identity_id,
  compute_record_digest,
}
use ueg.Identity.Lifecycle.{derive_state, empty_state}
use ueg.Identity.Lifecycle.Invariant.{Inv}
use ueg.Identity.Lifecycle.Derive.{at_rest, derive_state-Inv}
use ueg.Keys.{Pair}
use ueg.Ledger.{sequence_authorized}
use ueg.Ledger.Authority.{one_authority, no_authority_while_idle}
use ueg.Identity.Records.{validate_record_basics}
use ueg.Identity.Mutation.{sign_record}
use ueg.Identity.Mutation.Signed.{IsFilled, sign_record-validate_record_basics}
use ueg.Tests.Toy.{toy, toy_laws, repeat}

-- A digest of the toy, by its first four digits.
abbrev pub hexes : Text → Text
hexes start = start ++ repeat 60 b'0'

abbrev pub key_name : Text → Text
key_name start = text "ueg:sha256:" ++ hexes start

abbrev pub recovery_pem : Text
recovery_pem = repeat 32 b'a'

abbrev pub first_pem : Text
first_pem = repeat 32 b'b'

abbrev pub second_pem : Text
second_pem = repeat 32 b'c'

abbrev pub signature : Text
signature = repeat 64 b's'

abbrev pub identity : Text
identity = text "ueg:identity:sha256:" ++ hexes (text "b06d")

abbrev pub root : Genesis
root = record {
  schema = genesis_schema;
  protocol_version = protocol_version_text;
  identity_nonce_b64 = repeat 32 b'n';
  recovery_root_key_id = key_name (text "2020");
  recovery_root_public_key_pem = recovery_pem;
  epoch_zero_key_id = key_name (text "4020");
  epoch_zero_public_key_pem = first_pem;
  canonicalization = text "RFC8785-JCS";
  genesis_policy = record {
    one_active_operational_key = true;
    concurrent_signing = false;
    recovery_root_rotation = false;
  };
  advisory_label = text "home";
  identity_id = identity;
  recovery_signature_b64 = signature;
  epoch_zero_proof_b64 = signature;
}

abbrev pub boundary : ℤ → LedgerBoundary
boundary sequence = record { sequence_no = sequence; receipt_id = some (hexes (text "abcd")) }

abbrev pub created : LifecycleRecord
created = record {
  schema = lifecycle_schema;
  protocol_version = protocol_version_text;
  identity_id = identity;
  lifecycle_sequence = pos 0;
  previous_record_digest = none;
  action = Action.genesis;
  epoch_number = pos 0;
  operational_key_id = key_name (text "4020");
  operational_public_key_pem = first_pem;
  operational_status = Status.active;
  ledger_boundary = record { sequence_no = negsuc 0; receipt_id = none };
  previous_epoch = none;
  evidence_anchor_digest = none;
  reason_code = text "created";
  record_digest = hexes (text "5a50");
  recovery_signature_b64 = signature;
  retiring_signature_b64 = none;
  operational_proof_b64 = some signature;
}

abbrev pub rotated : LifecycleRecord
rotated = record created {
  lifecycle_sequence = pos 1;
  previous_record_digest = some (hexes (text "5a50"));
  action = Action.rotate;
  epoch_number = pos 1;
  operational_key_id = key_name (text "6020");
  operational_public_key_pem = second_pem;
  ledger_boundary = boundary (pos 1);
  previous_epoch = some (record {
    epoch_number = pos 0;
    operational_key_id = key_name (text "4020");
    operational_status = Status.retired;
    final_ledger_boundary = boundary (pos 1);
  });
  reason_code = text "scheduled";
  record_digest = hexes (text "cbd6");
  retiring_signature_b64 = some signature;
}

abbrev pub suspended : LifecycleRecord
suspended = record rotated {
  lifecycle_sequence = pos 2;
  previous_record_digest = some (hexes (text "cbd6"));
  action = Action.suspend;
  operational_status = Status.suspended;
  ledger_boundary = boundary (pos 3);
  previous_epoch = none;
  reason_code = text "lost";
  record_digest = hexes (text "bccb");
  operational_proof_b64 = none;
}

abbrev pub window : ℤ → ℤ → AuthorizationWindow
window low high = record { start_after = boundary low; end_at = some (boundary high) }

-- The second epoch after its suspension.
abbrev pub second_epoch : EpochState
second_epoch = record {
  epoch_number = pos 1;
  operational_key_id = key_name (text "6020");
  operational_public_pem = second_pem;
  status = Status.suspended;
  windows = window (pos 1) (pos 3) ∷ [];
  known_good_anchor = none;
}

abbrev pub first_epoch : EpochState
first_epoch = record {
  epoch_number = pos 0;
  operational_key_id = key_name (text "4020");
  operational_public_pem = first_pem;
  status = Status.retired;
  windows =
      record {
        start_after = record { sequence_no = negsuc 0; receipt_id = none };
        end_at = some (boundary (pos 1));
      }
      ∷ [];
  known_good_anchor = none;
}

abbrev pub public_key : Text → Pair
public_key pem = record { private = []; public = pem }

abbrev pub derived : State
derived =
    record (empty_state (text "home") root (created ∷ rotated ∷ suspended ∷ [])
      (public_key recovery_pem)) {
        epochs = (pos 1, second_epoch) ∷ (pos 0, first_epoch) ∷ [];
        trust =
            (key_name (text "6020"), public_key second_pem)
            ∷ (key_name (text "4020"), public_key first_pem)
            ∷ [];
        last_sequence = pos 2;
        last_record_digest = suspended.record_digest;
      }

derives : derive_state toy (text "home") root (created ∷ rotated ∷ suspended ∷ []) ≡ ok derived
unfolding derive_state ueg.Identity.Lifecycle.validate_genesis ueg.Common.text_eq text
    ueg.Identity.Records.is_identity_id ueg.Common.is_hex64_after ueg.Common.has_prefix
    ueg.Common.is_hex64 ueg.Common.is_hex ueg.Identity.Records.is_key_id ueg.Common.utf8
    ueg.Keys.load_public_pem_text ueg.Keys.decode_pem ueg.Common.trim_space ueg.Keys.validate_key_id
    ueg.Keys.key_id ueg.Keys.public_pem ueg.Canon.decimal ueg.Canon.encode ueg.Canon.encode_string
    ueg.Canon.escape ueg.Canon.escape_rune ueg.Canon.format_int ueg.Canon.hash_jcs ueg.Canon.hex
    ueg.Canon.hex_digit ueg.Canon.object ueg.Canon.sha256_hex ueg.Common.insert lookup
    ueg.Common.replace ueg.Common.is_space ueg.Common.trim ueg.Common.trim_left
    ueg.Common.trim_right ueg.Common.utf8_rune ueg.Common.same_optional
    ueg.Identity.Lifecycle.apply_action ueg.Identity.Lifecycle.apply_lifecycle_record
    ueg.Identity.Lifecycle.apply_resume ueg.Identity.Lifecycle.apply_revoke
    ueg.Identity.Lifecycle.apply_suspend ueg.Identity.Lifecycle.apply_transition
    ueg.Identity.Lifecycle.begin_lifecycle ueg.Identity.Lifecycle.boundary_follows
    ueg.Identity.Lifecycle.check_prior ueg.Identity.Lifecycle.close_epoch
    ueg.Identity.Lifecycle.close_last ueg.Identity.Lifecycle.derive_from
    ueg.Identity.Lifecycle.derive_step ueg.Identity.Lifecycle.enter_record
    ueg.Identity.Lifecycle.latest_epoch_number ueg.Identity.Lifecycle.retiring_key
    ueg.Identity.Lifecycle.trusted_key ueg.Identity.Records.action_text
    ueg.Identity.Records.boundary_map compute_identity_id compute_record_digest
    ueg.Identity.Records.domain_payload ueg.Identity.Records.genesis_core
    ueg.Identity.Records.genesis_signed ueg.Identity.Records.previous_epoch_map
    ueg.Identity.Records.record_core ueg.Identity.Records.record_signed
    ueg.Identity.Records.status_text ueg.Identity.Records.validate_boundary
    ueg.Identity.Records.validate_proof ueg.Identity.Records.validate_reason
    ueg.Identity.Records.validate_record_basics ueg.Identity.Records.validate_retiring
    ueg.Identity.Records.validate_signature_encoding ueg.Identity.Records.verify_domain
    ueg.Identity.equal_boundary ueg.Keys.legacy_key_id ueg.Keys.verify_b64 ueg.Tests.Toy.sum
derives = refl

derive_state-Inv_example : Inv (pos 3) (at_rest derived)
derive_state-Inv_example =
    derive_state-Inv toy (text "home") root created (rotated ∷ suspended ∷ []) derived derives

one_authority_example : pos 1 ≡ pos 1
unfolding lookup sequence_authorized ueg.Ledger.sequence_authorized_in ueg.Ledger.in_window
one_authority_example =
    one_authority toy (text "home") root created (rotated ∷ suspended ∷ []) derived derives (pos 2)
      (pos 1) (pos 1) second_epoch second_epoch refl refl refl refl

no_authority_while_idle_example : sequence_authorized second_epoch (pos 5) ≡ false
unfolding lookup
no_authority_while_idle_example =
    no_authority_while_idle toy (text "home") root created (rotated ∷ suspended ∷ []) derived
      derives (pos 5) (pos 1) second_epoch refl refl (ground arith)

abbrev root_pair : Pair
root_pair = record { private = repeat 64 1; public = recovery_pem }

abbrev first_pair : Pair
first_pair = record { private = repeat 64 1; public = first_pem }

-- The first record before it is signed.
abbrev unsigned : LifecycleRecord
unsigned = record created {
  record_digest = [];
  recovery_signature_b64 = [];
  operational_proof_b64 = none;
}

abbrev signed : LifecycleRecord
signed = record created {
  recovery_signature_b64 = repeat 64 b'a';
  operational_proof_b64 = some (repeat 64 b'a');
}

signs : sign_record toy unsigned root_pair none (some first_pair) ≡ ok signed
unfolding derive_state ueg.Identity.Lifecycle.validate_genesis ueg.Common.text_eq text
    ueg.Identity.Records.is_identity_id ueg.Common.is_hex64_after ueg.Common.has_prefix
    ueg.Common.is_hex64 ueg.Common.is_hex ueg.Identity.Records.is_key_id ueg.Common.utf8
    ueg.Keys.load_public_pem_text ueg.Keys.decode_pem ueg.Common.trim_space ueg.Keys.validate_key_id
    ueg.Keys.key_id ueg.Keys.public_pem ueg.Canon.decimal ueg.Canon.encode ueg.Canon.encode_string
    ueg.Canon.escape ueg.Canon.escape_rune ueg.Canon.format_int ueg.Canon.hash_jcs ueg.Canon.hex
    ueg.Canon.hex_digit ueg.Canon.object ueg.Canon.sha256_hex ueg.Common.insert lookup
    ueg.Common.replace ueg.Common.is_space ueg.Common.trim ueg.Common.trim_left
    ueg.Common.trim_right ueg.Common.utf8_rune ueg.Common.same_optional
    ueg.Identity.Lifecycle.apply_action ueg.Identity.Lifecycle.apply_lifecycle_record
    ueg.Identity.Lifecycle.apply_resume ueg.Identity.Lifecycle.apply_revoke
    ueg.Identity.Lifecycle.apply_suspend ueg.Identity.Lifecycle.apply_transition
    ueg.Identity.Lifecycle.begin_lifecycle ueg.Identity.Lifecycle.boundary_follows
    ueg.Identity.Lifecycle.check_prior ueg.Identity.Lifecycle.close_epoch
    ueg.Identity.Lifecycle.close_last ueg.Identity.Lifecycle.derive_from
    ueg.Identity.Lifecycle.derive_step ueg.Identity.Lifecycle.enter_record
    ueg.Identity.Lifecycle.latest_epoch_number ueg.Identity.Lifecycle.retiring_key
    ueg.Identity.Lifecycle.trusted_key ueg.Identity.Records.action_text
    ueg.Identity.Records.boundary_map compute_identity_id compute_record_digest
    ueg.Identity.Records.domain_payload ueg.Identity.Records.genesis_core
    ueg.Identity.Records.genesis_signed ueg.Identity.Records.previous_epoch_map
    ueg.Identity.Records.record_core ueg.Identity.Records.record_signed
    ueg.Identity.Records.status_text ueg.Identity.Records.validate_boundary
    ueg.Identity.Records.validate_proof ueg.Identity.Records.validate_reason
    ueg.Identity.Records.validate_record_basics ueg.Identity.Records.validate_retiring
    ueg.Identity.Records.validate_signature_encoding ueg.Identity.Records.verify_domain
    ueg.Identity.equal_boundary ueg.Keys.legacy_key_id ueg.Keys.verify_b64 ueg.Tests.Toy.sum
    sign_record ueg.Identity.Mutation.sign_root ueg.Identity.Mutation.sign_retiring
    ueg.Identity.Mutation.sign_proof ueg.Identity.Records.sign_domain ueg.Keys.sign_b64
signs = refl

unsigned-IsFilled : IsFilled unsigned
unfolding derive_state ueg.Identity.Lifecycle.validate_genesis ueg.Common.text_eq text
    ueg.Identity.Records.is_identity_id ueg.Common.is_hex64_after ueg.Common.has_prefix
    ueg.Common.is_hex64 ueg.Common.is_hex ueg.Identity.Records.is_key_id ueg.Common.utf8
    ueg.Keys.load_public_pem_text ueg.Keys.decode_pem ueg.Common.trim_space ueg.Keys.validate_key_id
    ueg.Keys.key_id ueg.Keys.public_pem ueg.Canon.decimal ueg.Canon.encode ueg.Canon.encode_string
    ueg.Canon.escape ueg.Canon.escape_rune ueg.Canon.format_int ueg.Canon.hash_jcs ueg.Canon.hex
    ueg.Canon.hex_digit ueg.Canon.object ueg.Canon.sha256_hex ueg.Common.insert lookup
    ueg.Common.replace ueg.Common.is_space ueg.Common.trim ueg.Common.trim_left
    ueg.Common.trim_right ueg.Common.utf8_rune ueg.Common.same_optional
    ueg.Identity.Lifecycle.apply_action ueg.Identity.Lifecycle.apply_lifecycle_record
    ueg.Identity.Lifecycle.apply_resume ueg.Identity.Lifecycle.apply_revoke
    ueg.Identity.Lifecycle.apply_suspend ueg.Identity.Lifecycle.apply_transition
    ueg.Identity.Lifecycle.begin_lifecycle ueg.Identity.Lifecycle.boundary_follows
    ueg.Identity.Lifecycle.check_prior ueg.Identity.Lifecycle.close_epoch
    ueg.Identity.Lifecycle.close_last ueg.Identity.Lifecycle.derive_from
    ueg.Identity.Lifecycle.derive_step ueg.Identity.Lifecycle.enter_record
    ueg.Identity.Lifecycle.latest_epoch_number ueg.Identity.Lifecycle.retiring_key
    ueg.Identity.Lifecycle.trusted_key ueg.Identity.Records.action_text
    ueg.Identity.Records.boundary_map compute_identity_id compute_record_digest
    ueg.Identity.Records.domain_payload ueg.Identity.Records.genesis_core
    ueg.Identity.Records.genesis_signed ueg.Identity.Records.previous_epoch_map
    ueg.Identity.Records.record_core ueg.Identity.Records.record_signed
    ueg.Identity.Records.status_text ueg.Identity.Records.validate_boundary
    ueg.Identity.Records.validate_proof ueg.Identity.Records.validate_reason
    ueg.Identity.Records.validate_record_basics ueg.Identity.Records.validate_retiring
    ueg.Identity.Records.validate_signature_encoding ueg.Identity.Records.verify_domain
    ueg.Identity.equal_boundary ueg.Keys.legacy_key_id ueg.Keys.verify_b64 ueg.Tests.Toy.sum
unsigned-IsFilled = record {
  schema = refl;
  protocol = refl;
  identity = refl;
  sequence = refl;
  epoch = refl;
  key = refl;
  boundary = refl;
  reason = refl;
  anchor = refl;
}

sign_record-validate_record_basics_example :
    validate_record_basics toy signed root_pair first_pair none ≡ ok tt
unfolding derive_state ueg.Identity.Lifecycle.validate_genesis ueg.Common.text_eq text
    ueg.Identity.Records.is_identity_id ueg.Common.is_hex64_after ueg.Common.has_prefix
    ueg.Common.is_hex64 ueg.Common.is_hex ueg.Identity.Records.is_key_id ueg.Common.utf8
    ueg.Keys.load_public_pem_text ueg.Keys.decode_pem ueg.Common.trim_space ueg.Keys.validate_key_id
    ueg.Keys.key_id ueg.Keys.public_pem ueg.Canon.decimal ueg.Canon.encode ueg.Canon.encode_string
    ueg.Canon.escape ueg.Canon.escape_rune ueg.Canon.format_int ueg.Canon.hash_jcs ueg.Canon.hex
    ueg.Canon.hex_digit ueg.Canon.object ueg.Canon.sha256_hex ueg.Common.insert lookup
    ueg.Common.replace ueg.Common.is_space ueg.Common.trim ueg.Common.trim_left
    ueg.Common.trim_right ueg.Common.utf8_rune ueg.Common.same_optional
    ueg.Identity.Lifecycle.apply_action ueg.Identity.Lifecycle.apply_lifecycle_record
    ueg.Identity.Lifecycle.apply_resume ueg.Identity.Lifecycle.apply_revoke
    ueg.Identity.Lifecycle.apply_suspend ueg.Identity.Lifecycle.apply_transition
    ueg.Identity.Lifecycle.begin_lifecycle ueg.Identity.Lifecycle.boundary_follows
    ueg.Identity.Lifecycle.check_prior ueg.Identity.Lifecycle.close_epoch
    ueg.Identity.Lifecycle.close_last ueg.Identity.Lifecycle.derive_from
    ueg.Identity.Lifecycle.derive_step ueg.Identity.Lifecycle.enter_record
    ueg.Identity.Lifecycle.latest_epoch_number ueg.Identity.Lifecycle.retiring_key
    ueg.Identity.Lifecycle.trusted_key ueg.Identity.Records.action_text
    ueg.Identity.Records.boundary_map compute_identity_id compute_record_digest
    ueg.Identity.Records.domain_payload ueg.Identity.Records.genesis_core
    ueg.Identity.Records.genesis_signed ueg.Identity.Records.previous_epoch_map
    ueg.Identity.Records.record_core ueg.Identity.Records.record_signed
    ueg.Identity.Records.status_text ueg.Identity.Records.validate_boundary
    ueg.Identity.Records.validate_proof ueg.Identity.Records.validate_reason
    ueg.Identity.Records.validate_record_basics ueg.Identity.Records.validate_retiring
    ueg.Identity.Records.validate_signature_encoding ueg.Identity.Records.verify_domain
    ueg.Identity.equal_boundary ueg.Keys.legacy_key_id ueg.Keys.verify_b64 ueg.Tests.Toy.sum
sign_record-validate_record_basics_example =
    sign_record-validate_record_basics toy toy_laws unsigned signed root_pair first_pair none
      (some first_pair) unsigned-IsFilled refl refl refl
      (record { halves = λ m. refl; size = refl }) (record { halves = λ m. refl; size = refl })
      (λ p h. absurd cc) (λ h. refl) signs
