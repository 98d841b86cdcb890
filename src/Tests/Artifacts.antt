-- ===== src/Tests/Artifacts.antt =====
-- internal/identity/artifacts.go at the identity that was created and rotated.
use ueg.Common.{
  ◌≢◌, ℕ, ◌≡◌, refl, Bool, true, false, List, [], ◌∷◌, Option, none, some, Result, ok, err, ℤ, pos,
  Text, text, get_elem?, ◌==◌, text_Eq, if◌then◌else◌, arith,
}
use ueg.Canon.{null}
use ueg.Strictjson.{Json, token, delim, open_object, close_object}
use ueg.Identity.{LifecycleRecord, State}
use ueg.Identity.Records.{protocol_version_text}
use ueg.Identity.Artifacts.{
  LifecycleCheckpoint, ImportResult, Freshness, same, Error, checkpoint_schema,
}
use ueg.Identity.Artifacts.Checkpoints.{
  parse_lifecycle_checkpoint, import_checkpoint, compare_lifecycle_states,
}
use ueg.Identity.Artifacts.Agreed.{
  IsImport, import_checkpoint-Follows, compare_lifecycle_states-agree,
}
use ueg.Tests.Toy.{toy}
use ueg.Tests.Identities.{root, identity, created, rotated, derived}

abbrev checkpoint : List LifecycleRecord → ℤ → Text → LifecycleCheckpoint
checkpoint records sequence digest = record {
  schema = checkpoint_schema;
  protocol_version = protocol_version_text;
  identity_id = identity;
  genesis = some root;
  lifecycle_records = records;
  checkpoint_sequence = sequence;
  checkpoint_digest = digest;
}

abbrev older : LifecycleCheckpoint
older = checkpoint (created ∷ []) (pos 0) created.record_digest

abbrev newer : LifecycleCheckpoint
newer = checkpoint (created ∷ rotated ∷ []) (pos 1) rotated.record_digest

abbrev old_text : List ℕ
old_text = b'o' ∷ []

abbrev new_text : List ℕ
new_text = b'n' ∷ []

abbrev json : Json
json = record {
  tokens = λ raw. token (delim open_object) ∷ token (delim close_object) ∷ [];
  decode = λ raw. some null;
}

abbrev read : List ℕ → Option LifecycleCheckpoint
read raw = some (if raw == old_text then older else newer)

abbrev state_or : Result Error (LifecycleCheckpoint × State) → State
state_or (ok x) = x.1
state_or (err e) = derived

abbrev old_state : State
old_state = state_or (parse_lifecycle_checkpoint toy json read old_text)

abbrev new_state : State
new_state = state_or (parse_lifecycle_checkpoint toy json read new_text)

abbrev imported : ImportResult
imported = record {
  identity_id = identity;
  sequence = pos 1;
  digest = rotated.record_digest;
  replaced_sequence = some (pos 0);
}

old_parsed : parse_lifecycle_checkpoint toy json read old_text ≡ ok (older, old_state)
unfolding ueg.Identity.Lifecycle.derive_state ueg.Identity.Lifecycle.validate_genesis
    ueg.Common.text_eq ueg.Common.text ueg.Identity.Records.is_identity_id ueg.Common.is_hex64_after
    ueg.Common.has_prefix ueg.Common.is_hex64 ueg.Common.is_hex ueg.Identity.Records.is_key_id
    ueg.Common.utf8 ueg.Keys.load_public_pem_text ueg.Keys.decode_pem ueg.Common.trim_space
    ueg.Keys.validate_key_id ueg.Keys.key_id ueg.Keys.public_pem ueg.Canon.decimal ueg.Canon.encode
    ueg.Canon.encode_string ueg.Canon.escape ueg.Canon.escape_rune ueg.Canon.format_int
    ueg.Canon.hash_jcs ueg.Canon.hex ueg.Canon.hex_digit ueg.Canon.object ueg.Canon.sha256_hex
    ueg.Common.insert ueg.Common.lookup ueg.Common.replace ueg.Common.is_space ueg.Common.trim
    ueg.Common.trim_left ueg.Common.trim_right ueg.Common.utf8_rune ueg.Common.same_optional
    ueg.Identity.Lifecycle.apply_action ueg.Identity.Lifecycle.apply_lifecycle_record
    ueg.Identity.Lifecycle.apply_resume ueg.Identity.Lifecycle.apply_revoke
    ueg.Identity.Lifecycle.apply_suspend ueg.Identity.Lifecycle.apply_transition
    ueg.Identity.Lifecycle.begin_lifecycle ueg.Identity.Lifecycle.boundary_follows
    ueg.Identity.Lifecycle.check_prior ueg.Identity.Lifecycle.close_epoch
    ueg.Identity.Lifecycle.close_last ueg.Identity.Lifecycle.derive_from
    ueg.Identity.Lifecycle.derive_step ueg.Identity.Lifecycle.enter_record
    ueg.Identity.Lifecycle.latest_epoch_number ueg.Identity.Lifecycle.retiring_key
    ueg.Identity.Lifecycle.trusted_key ueg.Identity.Records.action_text
    ueg.Identity.Records.boundary_map ueg.Identity.Records.compute_identity_id
    ueg.Identity.Records.compute_record_digest ueg.Identity.Records.domain_payload
    ueg.Identity.Records.genesis_core ueg.Identity.Records.genesis_signed
    ueg.Identity.Records.previous_epoch_map ueg.Identity.Records.record_core
    ueg.Identity.Records.record_signed ueg.Identity.Records.status_text
    ueg.Identity.Records.validate_boundary ueg.Identity.Records.validate_proof
    ueg.Identity.Records.validate_reason ueg.Identity.Records.validate_record_basics
    ueg.Identity.Records.validate_retiring ueg.Identity.Records.validate_signature_encoding
    ueg.Identity.Records.verify_domain ueg.Identity.equal_boundary ueg.Keys.legacy_key_id
    ueg.Keys.verify_b64 ueg.Tests.Toy.sum parse_lifecycle_checkpoint ueg.Strictjson.unmarshal_by
    ueg.Strictjson.validate ueg.Strictjson.valid_after ueg.Common.decode_rune ueg.Common.decode_two
    ueg.Common.decode_three ueg.Common.decode_four ueg.Strictjson.scan_value
old_parsed = refl

new_parsed : parse_lifecycle_checkpoint toy json read new_text ≡ ok (newer, new_state)
unfolding ueg.Identity.Lifecycle.derive_state ueg.Identity.Lifecycle.validate_genesis
    ueg.Common.text_eq ueg.Common.text ueg.Identity.Records.is_identity_id ueg.Common.is_hex64_after
    ueg.Common.has_prefix ueg.Common.is_hex64 ueg.Common.is_hex ueg.Identity.Records.is_key_id
    ueg.Common.utf8 ueg.Keys.load_public_pem_text ueg.Keys.decode_pem ueg.Common.trim_space
    ueg.Keys.validate_key_id ueg.Keys.key_id ueg.Keys.public_pem ueg.Canon.decimal ueg.Canon.encode
    ueg.Canon.encode_string ueg.Canon.escape ueg.Canon.escape_rune ueg.Canon.format_int
    ueg.Canon.hash_jcs ueg.Canon.hex ueg.Canon.hex_digit ueg.Canon.object ueg.Canon.sha256_hex
    ueg.Common.insert ueg.Common.lookup ueg.Common.replace ueg.Common.is_space ueg.Common.trim
    ueg.Common.trim_left ueg.Common.trim_right ueg.Common.utf8_rune ueg.Common.same_optional
    ueg.Identity.Lifecycle.apply_action ueg.Identity.Lifecycle.apply_lifecycle_record
    ueg.Identity.Lifecycle.apply_resume ueg.Identity.Lifecycle.apply_revoke
    ueg.Identity.Lifecycle.apply_suspend ueg.Identity.Lifecycle.apply_transition
    ueg.Identity.Lifecycle.begin_lifecycle ueg.Identity.Lifecycle.boundary_follows
    ueg.Identity.Lifecycle.check_prior ueg.Identity.Lifecycle.close_epoch
    ueg.Identity.Lifecycle.close_last ueg.Identity.Lifecycle.derive_from
    ueg.Identity.Lifecycle.derive_step ueg.Identity.Lifecycle.enter_record
    ueg.Identity.Lifecycle.latest_epoch_number ueg.Identity.Lifecycle.retiring_key
    ueg.Identity.Lifecycle.trusted_key ueg.Identity.Records.action_text
    ueg.Identity.Records.boundary_map ueg.Identity.Records.compute_identity_id
    ueg.Identity.Records.compute_record_digest ueg.Identity.Records.domain_payload
    ueg.Identity.Records.genesis_core ueg.Identity.Records.genesis_signed
    ueg.Identity.Records.previous_epoch_map ueg.Identity.Records.record_core
    ueg.Identity.Records.record_signed ueg.Identity.Records.status_text
    ueg.Identity.Records.validate_boundary ueg.Identity.Records.validate_proof
    ueg.Identity.Records.validate_reason ueg.Identity.Records.validate_record_basics
    ueg.Identity.Records.validate_retiring ueg.Identity.Records.validate_signature_encoding
    ueg.Identity.Records.verify_domain ueg.Identity.equal_boundary ueg.Keys.legacy_key_id
    ueg.Keys.verify_b64 ueg.Tests.Toy.sum parse_lifecycle_checkpoint ueg.Strictjson.unmarshal_by
    ueg.Strictjson.validate ueg.Strictjson.valid_after ueg.Common.decode_rune ueg.Common.decode_two
    ueg.Common.decode_three ueg.Common.decode_four ueg.Strictjson.scan_value
new_parsed = refl

imports :
    import_checkpoint toy json read new_text identity (some old_text) ≡ ok (imported, some newer)
unfolding ueg.Identity.Lifecycle.derive_state ueg.Identity.Lifecycle.validate_genesis
    ueg.Common.text_eq ueg.Common.text ueg.Identity.Records.is_identity_id ueg.Common.is_hex64_after
    ueg.Common.has_prefix ueg.Common.is_hex64 ueg.Common.is_hex ueg.Identity.Records.is_key_id
    ueg.Common.utf8 ueg.Keys.load_public_pem_text ueg.Keys.decode_pem ueg.Common.trim_space
    ueg.Keys.validate_key_id ueg.Keys.key_id ueg.Keys.public_pem ueg.Canon.decimal ueg.Canon.encode
    ueg.Canon.encode_string ueg.Canon.escape ueg.Canon.escape_rune ueg.Canon.format_int
    ueg.Canon.hash_jcs ueg.Canon.hex ueg.Canon.hex_digit ueg.Canon.object ueg.Canon.sha256_hex
    ueg.Common.insert ueg.Common.lookup ueg.Common.replace ueg.Common.is_space ueg.Common.trim
    ueg.Common.trim_left ueg.Common.trim_right ueg.Common.utf8_rune ueg.Common.same_optional
    ueg.Identity.Lifecycle.apply_action ueg.Identity.Lifecycle.apply_lifecycle_record
    ueg.Identity.Lifecycle.apply_resume ueg.Identity.Lifecycle.apply_revoke
    ueg.Identity.Lifecycle.apply_suspend ueg.Identity.Lifecycle.apply_transition
    ueg.Identity.Lifecycle.begin_lifecycle ueg.Identity.Lifecycle.boundary_follows
    ueg.Identity.Lifecycle.check_prior ueg.Identity.Lifecycle.close_epoch
    ueg.Identity.Lifecycle.close_last ueg.Identity.Lifecycle.derive_from
    ueg.Identity.Lifecycle.derive_step ueg.Identity.Lifecycle.enter_record
    ueg.Identity.Lifecycle.latest_epoch_number ueg.Identity.Lifecycle.retiring_key
    ueg.Identity.Lifecycle.trusted_key ueg.Identity.Records.action_text
    ueg.Identity.Records.boundary_map ueg.Identity.Records.compute_identity_id
    ueg.Identity.Records.compute_record_digest ueg.Identity.Records.domain_payload
    ueg.Identity.Records.genesis_core ueg.Identity.Records.genesis_signed
    ueg.Identity.Records.previous_epoch_map ueg.Identity.Records.record_core
    ueg.Identity.Records.record_signed ueg.Identity.Records.status_text
    ueg.Identity.Records.validate_boundary ueg.Identity.Records.validate_proof
    ueg.Identity.Records.validate_reason ueg.Identity.Records.validate_record_basics
    ueg.Identity.Records.validate_retiring ueg.Identity.Records.validate_signature_encoding
    ueg.Identity.Records.verify_domain ueg.Identity.equal_boundary ueg.Keys.legacy_key_id
    ueg.Keys.verify_b64 ueg.Tests.Toy.sum parse_lifecycle_checkpoint ueg.Strictjson.unmarshal_by
    ueg.Strictjson.validate ueg.Strictjson.valid_after ueg.Common.decode_rune ueg.Common.decode_two
    ueg.Common.decode_three ueg.Common.decode_four ueg.Strictjson.scan_value
    ueg.Identity.Artifacts.Checkpoints.replace_checkpoint import_checkpoint
imports = refl

import_checkpoint-Follows_example :
    (k : LifecycleCheckpoint) × (s : State) × (parse_lifecycle_checkpoint toy json read new_text
      ≡ ok (k, s))
    × (identity ≢ [])
    × (k.identity_id ≡ identity)
    × IsImport toy json read k (some old_text) (some newer)
import_checkpoint-Follows_example =
    import_checkpoint-Follows toy json read new_text identity (some old_text) imported (some newer)
      imports

compared : compare_lifecycle_states derived derived ≡ ok same
unfolding compare_lifecycle_states ueg.Identity.Artifacts.Checkpoints.compare_records
    ueg.Common.text_eq ueg.Common.text
compared = refl

compare_lifecycle_states-agree_example :
    (derived.genesis.identity_id ≡ derived.genesis.identity_id)
    × ((i : ℕ) (a b : LifecycleRecord)
        → get_elem? derived.records i ≡ some a
        → get_elem? derived.records i ≡ some b
        → a.record_digest ≡ b.record_digest)
    × (same ≡ same → derived.last_sequence ≡ derived.last_sequence)
compare_lifecycle_states-agree_example =
    compare_lifecycle_states-agree derived derived same compared
