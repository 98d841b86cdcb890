-- ===== src/Tests/Storages.antt =====
-- internal/identity/transaction.go at a home whose first key is being replaced by a second one.
use ueg.Common.{
  ℕ, ◌≡◌, ◌≢◌, refl, ap, Bool, true, false, List, [], ◌∷◌, ◌++◌, Option, none, some, ok, ℤ, pos,
  Text, text, take, ◌==◌, text_Eq, int_Eq, if◌then◌else◌, arith,
}
use ueg.Crypto.{Crypto}
use ueg.Strictjson.{token, scalar}
use ueg.Keys.{Pair}
use ueg.Identity.{Status, EpochState, State}
use ueg.Identity.Records.{protocol_version_text}
use ueg.Identity.Lifecycle.{empty_state}
use ueg.Identity.Storage.{
  AuthorityFiles, EpochFiles, HomeFiles, HomeWire, marker_schema, read_lifecycle,
}
use ueg.Identity.Storage.Transaction.{
  Checked, pending_schema, no_epoch, publish_private_file, publish_public_file, complete_pair,
  run_steps, check_journal, is_published, recover_pending_mutation, recovery_steps,
}
use ueg.Identity.Storage.Transaction.NewPair.{Same}
use ueg.Identity.Storage.Transaction.Resumed.{recover_pending_mutation-resumed}
use ueg.Tests.Toy.{toy, repeat}
use ueg.Tests.Identities.{
  root, identity, created, rotated, hexes, key_name, first_pem, second_pem, recovery_pem, boundary,
  first_epoch, second_epoch, public_key,
}

-- The toy with a PEM block of a private key.
abbrev crypto : Crypto
crypto = record toy {
  pem_decode = λ t. some (record {
    block_type = if t == b'p' ∷ [] then text "PRIVATE KEY" else text "PUBLIC KEY";
    bytes = t;
    has_headers = false;
    rest = [];
  });
}

abbrev wire : HomeWire
wire = record {
  json = record { tokens = λ line. token scalar ∷ []; decode = λ line. none };
  read_marker = λ line. some (record {
    schema = marker_schema;
    protocol_version = protocol_version_text;
    identity_id = identity;
  });
  read_genesis = λ line. some root;
  read_record = λ line. some (if line == b'0' ∷ [] then created else rotated);
  read_pending = λ line. some (record {
    schema = pending_schema;
    identity_id = identity;
    base_sequence = pos 0;
    base_record_digest = created.record_digest;
    new_record = some rotated;
    has_new_key = true;
    new_epoch = some (pos 1);
    remove_private_epoch = some (pos 0);
    lifecycle_after_sha256 = hexes (text "7504");
  });
  write_record = λ r. if r.lifecycle_sequence == pos 0 then b'0' ∷ [] else b'1' ∷ [];
  parse_pkcs8 = λ bytes. some (record { private = repeat 64 1; public = second_pem });
}

abbrev authority : AuthorityFiles
authority = record {
  marker = some (b'm' ∷ []);
  genesis = some (b'g' ∷ []);
  lifecycle = some (b'0' ∷ b'\n' ∷ []);
  legacy_public = some first_pem;
  pending = some (b'j' ∷ []);
  read_guard = none;
}

abbrev files : HomeFiles
files = record {
  authority = authority;
  epochs = λ n.
      if n == pos 1
      then record no_epoch {
        exists = true;
        pending_private = some (b'p' ∷ []);
        pending_public = some second_pem;
      }
      else record no_epoch { exists = true; private = some (b'p' ∷ []); public = some first_pem };
}

-- The state after the mutation.
abbrev after_rotation : State
after_rotation =
    record (empty_state (text "home") root (created ∷ rotated ∷ []) (public_key recovery_pem)) {
      epochs =
          (
            pos 1,
            record second_epoch {
              status = Status.active;
              windows = record { start_after = boundary (pos 1); end_at = none } ∷ [];
            },
          )
          ∷ (pos 0, first_epoch)
          ∷ [];
      trust =
          (key_name (text "6020"), public_key second_pem)
          ∷ (key_name (text "4020"), public_key first_pem)
          ∷ [];
      active_epoch = some (pos 1);
      last_sequence = pos 1;
      last_record_digest = rotated.record_digest;
    }

abbrev checked : Checked
checked = record {
  transaction = record {
    schema = pending_schema;
    identity_id = identity;
    base_sequence = pos 0;
    base_record_digest = created.record_digest;
    new_record = some rotated;
    has_new_key = true;
    new_epoch = some (pos 1);
    remove_private_epoch = some (pos 0);
    lifecycle_after_sha256 = hexes (text "7504");
  };
  new_record = rotated;
  records = created ∷ rotated ∷ [];
  candidate = after_rotation;
  after = b'0' ∷ b'\n' ∷ b'1' ∷ b'\n' ∷ [];
  applied = false;
}

accepts : check_journal crypto wire (text "home") authority (b'j' ∷ []) ≡ ok checked
unfolding ueg.Common.same_optional ueg.Common.lookup ueg.Common.replace ueg.Common.insert
    ueg.Common.text ueg.Common.text_eq ueg.Common.has_prefix ueg.Common.contains_rune
    ueg.Common.join ueg.Common.split_rune ueg.Common.trim_left ueg.Common.trim_right ueg.Common.trim
    ueg.Common.is_space ueg.Common.trim_space ueg.Common.utf8_rune ueg.Common.utf8 ueg.Common.is_hex
    ueg.Common.is_hex64 ueg.Common.is_hex64_after ueg.Common.decode_two ueg.Common.decode_three
    ueg.Common.decode_four ueg.Common.decode_rune ueg.Common.decode_after ueg.Canon.hex_digit
    ueg.Canon.hex ueg.Canon.escape_rune ueg.Canon.escape ueg.Canon.encode_string ueg.Canon.decimal
    ueg.Canon.format_int ueg.Canon.text_lt ueg.Canon.insert_member ueg.Canon.sort_members
    ueg.Canon.encode ueg.Canon.items ueg.Canon.object ueg.Canon.sha256_hex ueg.Canon.hash_jcs
    ueg.Keys.public_pem ueg.Keys.key_id ueg.Keys.legacy_key_id ueg.Keys.validate_key_id
    ueg.Keys.sign_b64 ueg.Keys.verify_b64 ueg.Keys.decode_pem ueg.Keys.load_public_pem_text
    ueg.Strictjson.valid_after ueg.Strictjson.scan_value ueg.Strictjson.validate
    ueg.Strictjson.unmarshal_by ueg.Strictjson.unmarshal ueg.Identity.equal_boundary
    ueg.Identity.active_of ueg.Identity.Records.status_text ueg.Identity.Records.action_text
    ueg.Identity.Records.genesis_core ueg.Identity.Records.genesis_signed
    ueg.Identity.Records.boundary_map ueg.Identity.Records.previous_epoch_map
    ueg.Identity.Records.record_core ueg.Identity.Records.record_signed
    ueg.Identity.Records.domain_payload ueg.Identity.Records.validate_boundary
    ueg.Identity.Records.validate_reason ueg.Identity.Records.is_identity_id
    ueg.Identity.Records.is_key_id ueg.Identity.Records.sign_domain
    ueg.Identity.Records.verify_domain ueg.Identity.Records.compute_identity_id
    ueg.Identity.Records.compute_record_digest ueg.Identity.Records.validate_signature_encoding
    ueg.Identity.Records.validate_retiring ueg.Identity.Records.validate_proof
    ueg.Identity.Records.validate_record_basics ueg.Identity.Lifecycle.latest_epoch_number
    ueg.Identity.Lifecycle.close_last ueg.Identity.Lifecycle.close_epoch
    ueg.Identity.Lifecycle.check_prior ueg.Identity.Lifecycle.apply_transition
    ueg.Identity.Lifecycle.apply_suspend ueg.Identity.Lifecycle.apply_resume
    ueg.Identity.Lifecycle.apply_revoke ueg.Identity.Lifecycle.apply_action
    ueg.Identity.Lifecycle.apply_lifecycle_record ueg.Identity.Lifecycle.begin_lifecycle
    ueg.Identity.Lifecycle.boundary_follows ueg.Identity.Lifecycle.trusted_key
    ueg.Identity.Lifecycle.retiring_key ueg.Identity.Lifecycle.validate_genesis
    ueg.Identity.Lifecycle.enter_record ueg.Identity.Lifecycle.derive_step
    ueg.Identity.Lifecycle.derive_from ueg.Identity.Lifecycle.derive_state
    ueg.Identity.Storage.read_bounded_regular ueg.Identity.Storage.drop_return
    ueg.Identity.Storage.read_lines ueg.Identity.Storage.read_lifecycle
    ueg.Identity.Storage.marshal_lifecycle ueg.Identity.Storage.load_public
    ueg.Identity.Storage.load_private_pem ueg.Identity.Storage.load_existing
    ueg.Identity.Storage.load_active ueg.Identity.Storage.load_signing
    ueg.Identity.Storage.Transaction.apply ueg.Identity.Storage.Transaction.run_steps
    ueg.Identity.Storage.Transaction.complete_pair ueg.Identity.Storage.Transaction.check_fields
    ueg.Identity.Storage.Transaction.is_applied ueg.Identity.Storage.Transaction.candidate_records
    ueg.Identity.Storage.Transaction.publish_steps ueg.Identity.Storage.Transaction.clear_steps
    ueg.Identity.Storage.Transaction.finish_steps ueg.Identity.Storage.Transaction.rollback_steps
    ueg.Identity.Storage.Transaction.load_ignoring_pending
    ueg.Identity.Storage.Transaction.check_journal ueg.Identity.Storage.Transaction.reload
    ueg.Identity.Storage.Transaction.finish_mutation ueg.Identity.Storage.Transaction.is_published
    ueg.Identity.Storage.Transaction.publish_pending_pair
    ueg.Identity.Storage.Transaction.complete_mutation
    ueg.Identity.Storage.Transaction.recover_pending_mutation
    ueg.Identity.Storage.Transaction.recovery_steps ueg.Tests.Toy.sum
accepts = refl

reads : read_lifecycle crypto wire (some checked.after) ≡ ok (created ∷ rotated ∷ [])
unfolding ueg.Common.same_optional ueg.Common.lookup ueg.Common.replace ueg.Common.insert
    ueg.Common.text ueg.Common.text_eq ueg.Common.has_prefix ueg.Common.contains_rune
    ueg.Common.join ueg.Common.split_rune ueg.Common.trim_left ueg.Common.trim_right ueg.Common.trim
    ueg.Common.is_space ueg.Common.trim_space ueg.Common.utf8_rune ueg.Common.utf8 ueg.Common.is_hex
    ueg.Common.is_hex64 ueg.Common.is_hex64_after ueg.Common.decode_two ueg.Common.decode_three
    ueg.Common.decode_four ueg.Common.decode_rune ueg.Common.decode_after ueg.Canon.hex_digit
    ueg.Canon.hex ueg.Canon.escape_rune ueg.Canon.escape ueg.Canon.encode_string ueg.Canon.decimal
    ueg.Canon.format_int ueg.Canon.text_lt ueg.Canon.insert_member ueg.Canon.sort_members
    ueg.Canon.encode ueg.Canon.items ueg.Canon.object ueg.Canon.sha256_hex ueg.Canon.hash_jcs
    ueg.Keys.public_pem ueg.Keys.key_id ueg.Keys.legacy_key_id ueg.Keys.validate_key_id
    ueg.Keys.sign_b64 ueg.Keys.verify_b64 ueg.Keys.decode_pem ueg.Keys.load_public_pem_text
    ueg.Strictjson.valid_after ueg.Strictjson.scan_value ueg.Strictjson.validate
    ueg.Strictjson.unmarshal_by ueg.Strictjson.unmarshal ueg.Identity.equal_boundary
    ueg.Identity.active_of ueg.Identity.Records.status_text ueg.Identity.Records.action_text
    ueg.Identity.Records.genesis_core ueg.Identity.Records.genesis_signed
    ueg.Identity.Records.boundary_map ueg.Identity.Records.previous_epoch_map
    ueg.Identity.Records.record_core ueg.Identity.Records.record_signed
    ueg.Identity.Records.domain_payload ueg.Identity.Records.validate_boundary
    ueg.Identity.Records.validate_reason ueg.Identity.Records.is_identity_id
    ueg.Identity.Records.is_key_id ueg.Identity.Records.sign_domain
    ueg.Identity.Records.verify_domain ueg.Identity.Records.compute_identity_id
    ueg.Identity.Records.compute_record_digest ueg.Identity.Records.validate_signature_encoding
    ueg.Identity.Records.validate_retiring ueg.Identity.Records.validate_proof
    ueg.Identity.Records.validate_record_basics ueg.Identity.Lifecycle.latest_epoch_number
    ueg.Identity.Lifecycle.close_last ueg.Identity.Lifecycle.close_epoch
    ueg.Identity.Lifecycle.check_prior ueg.Identity.Lifecycle.apply_transition
    ueg.Identity.Lifecycle.apply_suspend ueg.Identity.Lifecycle.apply_resume
    ueg.Identity.Lifecycle.apply_revoke ueg.Identity.Lifecycle.apply_action
    ueg.Identity.Lifecycle.apply_lifecycle_record ueg.Identity.Lifecycle.begin_lifecycle
    ueg.Identity.Lifecycle.boundary_follows ueg.Identity.Lifecycle.trusted_key
    ueg.Identity.Lifecycle.retiring_key ueg.Identity.Lifecycle.validate_genesis
    ueg.Identity.Lifecycle.enter_record ueg.Identity.Lifecycle.derive_step
    ueg.Identity.Lifecycle.derive_from ueg.Identity.Lifecycle.derive_state
    ueg.Identity.Storage.read_bounded_regular ueg.Identity.Storage.drop_return
    ueg.Identity.Storage.read_lines ueg.Identity.Storage.read_lifecycle
    ueg.Identity.Storage.marshal_lifecycle ueg.Identity.Storage.load_public
    ueg.Identity.Storage.load_private_pem ueg.Identity.Storage.load_existing
    ueg.Identity.Storage.load_active ueg.Identity.Storage.load_signing
    ueg.Identity.Storage.Transaction.apply ueg.Identity.Storage.Transaction.run_steps
    ueg.Identity.Storage.Transaction.complete_pair ueg.Identity.Storage.Transaction.check_fields
    ueg.Identity.Storage.Transaction.is_applied ueg.Identity.Storage.Transaction.candidate_records
    ueg.Identity.Storage.Transaction.publish_steps ueg.Identity.Storage.Transaction.clear_steps
    ueg.Identity.Storage.Transaction.finish_steps ueg.Identity.Storage.Transaction.rollback_steps
    ueg.Identity.Storage.Transaction.load_ignoring_pending
    ueg.Identity.Storage.Transaction.check_journal ueg.Identity.Storage.Transaction.reload
    ueg.Identity.Storage.Transaction.finish_mutation ueg.Identity.Storage.Transaction.is_published
    ueg.Identity.Storage.Transaction.publish_pending_pair
    ueg.Identity.Storage.Transaction.complete_mutation
    ueg.Identity.Storage.Transaction.recover_pending_mutation
    ueg.Identity.Storage.Transaction.recovery_steps ueg.Tests.Toy.sum
reads = refl

holds :
    is_published crypto wire
      (text "home")
      rotated
      (publish_public_file (publish_private_file (files.epochs (pos 1))))
    ≡ true
unfolding ueg.Common.same_optional ueg.Common.lookup ueg.Common.replace ueg.Common.insert
    ueg.Common.text ueg.Common.text_eq ueg.Common.has_prefix ueg.Common.contains_rune
    ueg.Common.join ueg.Common.split_rune ueg.Common.trim_left ueg.Common.trim_right ueg.Common.trim
    ueg.Common.is_space ueg.Common.trim_space ueg.Common.utf8_rune ueg.Common.utf8 ueg.Common.is_hex
    ueg.Common.is_hex64 ueg.Common.is_hex64_after ueg.Common.decode_two ueg.Common.decode_three
    ueg.Common.decode_four ueg.Common.decode_rune ueg.Common.decode_after ueg.Canon.hex_digit
    ueg.Canon.hex ueg.Canon.escape_rune ueg.Canon.escape ueg.Canon.encode_string ueg.Canon.decimal
    ueg.Canon.format_int ueg.Canon.text_lt ueg.Canon.insert_member ueg.Canon.sort_members
    ueg.Canon.encode ueg.Canon.items ueg.Canon.object ueg.Canon.sha256_hex ueg.Canon.hash_jcs
    ueg.Keys.public_pem ueg.Keys.key_id ueg.Keys.legacy_key_id ueg.Keys.validate_key_id
    ueg.Keys.sign_b64 ueg.Keys.verify_b64 ueg.Keys.decode_pem ueg.Keys.load_public_pem_text
    ueg.Strictjson.valid_after ueg.Strictjson.scan_value ueg.Strictjson.validate
    ueg.Strictjson.unmarshal_by ueg.Strictjson.unmarshal ueg.Identity.equal_boundary
    ueg.Identity.active_of ueg.Identity.Records.status_text ueg.Identity.Records.action_text
    ueg.Identity.Records.genesis_core ueg.Identity.Records.genesis_signed
    ueg.Identity.Records.boundary_map ueg.Identity.Records.previous_epoch_map
    ueg.Identity.Records.record_core ueg.Identity.Records.record_signed
    ueg.Identity.Records.domain_payload ueg.Identity.Records.validate_boundary
    ueg.Identity.Records.validate_reason ueg.Identity.Records.is_identity_id
    ueg.Identity.Records.is_key_id ueg.Identity.Records.sign_domain
    ueg.Identity.Records.verify_domain ueg.Identity.Records.compute_identity_id
    ueg.Identity.Records.compute_record_digest ueg.Identity.Records.validate_signature_encoding
    ueg.Identity.Records.validate_retiring ueg.Identity.Records.validate_proof
    ueg.Identity.Records.validate_record_basics ueg.Identity.Lifecycle.latest_epoch_number
    ueg.Identity.Lifecycle.close_last ueg.Identity.Lifecycle.close_epoch
    ueg.Identity.Lifecycle.check_prior ueg.Identity.Lifecycle.apply_transition
    ueg.Identity.Lifecycle.apply_suspend ueg.Identity.Lifecycle.apply_resume
    ueg.Identity.Lifecycle.apply_revoke ueg.Identity.Lifecycle.apply_action
    ueg.Identity.Lifecycle.apply_lifecycle_record ueg.Identity.Lifecycle.begin_lifecycle
    ueg.Identity.Lifecycle.boundary_follows ueg.Identity.Lifecycle.trusted_key
    ueg.Identity.Lifecycle.retiring_key ueg.Identity.Lifecycle.validate_genesis
    ueg.Identity.Lifecycle.enter_record ueg.Identity.Lifecycle.derive_step
    ueg.Identity.Lifecycle.derive_from ueg.Identity.Lifecycle.derive_state
    ueg.Identity.Storage.read_bounded_regular ueg.Identity.Storage.drop_return
    ueg.Identity.Storage.read_lines ueg.Identity.Storage.read_lifecycle
    ueg.Identity.Storage.marshal_lifecycle ueg.Identity.Storage.load_public
    ueg.Identity.Storage.load_private_pem ueg.Identity.Storage.load_existing
    ueg.Identity.Storage.load_active ueg.Identity.Storage.load_signing
    ueg.Identity.Storage.Transaction.apply ueg.Identity.Storage.Transaction.run_steps
    ueg.Identity.Storage.Transaction.complete_pair ueg.Identity.Storage.Transaction.check_fields
    ueg.Identity.Storage.Transaction.is_applied ueg.Identity.Storage.Transaction.candidate_records
    ueg.Identity.Storage.Transaction.publish_steps ueg.Identity.Storage.Transaction.clear_steps
    ueg.Identity.Storage.Transaction.finish_steps ueg.Identity.Storage.Transaction.rollback_steps
    ueg.Identity.Storage.Transaction.load_ignoring_pending
    ueg.Identity.Storage.Transaction.check_journal ueg.Identity.Storage.Transaction.reload
    ueg.Identity.Storage.Transaction.finish_mutation ueg.Identity.Storage.Transaction.is_published
    ueg.Identity.Storage.Transaction.publish_pending_pair
    ueg.Identity.Storage.Transaction.complete_mutation
    ueg.Identity.Storage.Transaction.recover_pending_mutation
    ueg.Identity.Storage.Transaction.recovery_steps ueg.Tests.Toy.sum
holds = refl

different : pos 1 ≢ pos 0
different h = ground (arith, h)

-- A recovery that is lost after five of its seven steps.
recover_pending_mutation-resumed_example :
    Same
      (recover_pending_mutation crypto wire (text "home") files).0
      (run_steps (recovery_steps crypto wire (text "home") checked) files)
    × Same
        (recover_pending_mutation crypto wire
          (text "home")
          (run_steps (take 5 (recovery_steps crypto wire (text "home") checked)) files)).0
        (run_steps (recovery_steps crypto wire (text "home") checked) files)
unfolding complete_pair
recover_pending_mutation-resumed_example =
    recover_pending_mutation-resumed crypto wire (text "home") files (b'j' ∷ []) checked (pos 1)
      (pos 0) refl accepts refl refl different refl holds reads 5
