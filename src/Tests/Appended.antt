-- ===== src/Tests/Appended.antt =====
-- internal/gateway on a toy machine with the ledger of internal/ledger.
use ueg.Common.{false, ◌≡◌, refl, List, [], ◌∷◌, ◌++◌, none, some, Result, ok, err, pos, Text, text}
use ueg.Ledger.{Receipt}
use ueg.Ledger.Home.{Ledger, Error, make_ledger}
use ueg.Gateway.Appends.{ledger_ops}
use ueg.Gateway.Machine.{resolve, pick_cwd, execute}
use ueg.Gateway.Run.{Request, request, run, admission_entry, outcome_entry}
use ueg.Gateway.Run.Evidence.{all_stages, run_complete}
use ueg.Tests.Toy.{toy, machine, enforced, receipt, repeat}
use ueg.Tests.Wires.{the_pair, the_key}

abbrev fresh : Ledger
fresh = record (make_ledger the_key (some the_pair)) { is_bplus = false }

abbrev the_hash : Text
the_hash = text "5376" ++ repeat 60 b'0'

abbrev asked : Request
asked = request machine (text "ls") [] enforced the_hash

abbrev made_or : Result Error Receipt → Receipt
made_or (ok r) = r
made_or (err e) = receipt (pos 9) none [] []

abbrev first : Result Error Receipt × Ledger
first = (ledger_ops toy (text "now")).append fresh (admission_entry machine asked enforced)

abbrev second : Result Error Receipt × Ledger
second = (ledger_ops toy (text "now")).append first.1 (
    outcome_entry machine asked (made_or first.0).receipt_id (
      execute machine toy (resolve (machine.look_path (text "ls")) (text "ls")) (text "ls" ∷ [])
        (pick_cwd enforced.cwd machine.getwd) enforced.stream))

taken : first.0 ≡ ok (made_or first.0)
unfolding ueg.Common.same_optional ueg.Common.lookup ueg.Common.replace ueg.Common.insert
    ueg.Common.text ueg.Common.text_eq ueg.Common.has_prefix ueg.Common.contains_rune
    ueg.Common.join ueg.Common.split_rune ueg.Common.trim_left ueg.Common.trim_right ueg.Common.trim
    ueg.Common.is_space ueg.Common.trim_space ueg.Common.utf8_rune ueg.Common.utf8 ueg.Common.is_hex
    ueg.Common.is_hex64 ueg.Common.is_hex64_after ueg.Common.decode_two ueg.Common.decode_three
    ueg.Common.decode_four ueg.Common.decode_rune ueg.Common.decode_after ueg.Canon.hex_digit
    ueg.Canon.hex ueg.Canon.escape_rune ueg.Canon.escape ueg.Canon.encode_string ueg.Canon.decimal
    ueg.Canon.format_int ueg.Canon.text_lt ueg.Canon.insert_member ueg.Canon.sort_members
    ueg.Canon.encode ueg.Canon.items ueg.Canon.object ueg.Canon.sha256_hex ueg.Canon.hash_jcs
    ueg.Keys.public_pem ueg.Keys.key_id ueg.Keys.legacy_key_id ueg.Keys.validate_key_id
    ueg.Keys.sign_b64 ueg.Keys.verify_b64 ueg.Keys.decode_pem ueg.Keys.load_public_pem_text
    ueg.Policy.class_text ueg.Policy.posture_text ueg.Policy.outcome_text ueg.Policy.Argv.wrappers
    ueg.Policy.Argv.elevating ueg.Policy.Argv.replace_rune ueg.Policy.Argv.after_last
    ueg.Policy.Argv.has_suffix ueg.Policy.Argv.strip_suffix ueg.Policy.Argv.executable_suffixes
    ueg.Policy.Argv.is_wrapper_flag ueg.Policy.Argv.owned_by ueg.Policy.Argv.executable_base
    ueg.Policy.Argv.strip_wrappers ueg.Policy.Argv.unwrap ueg.Policy.Argv.before_equals
    ueg.Policy.Argv.cluster ueg.Policy.Argv.split_args ueg.Policy.Classify.equal_fold
    ueg.Policy.Classify.contains ueg.Policy.Classify.any_flag ueg.Policy.Classify.rule_matches
    ueg.Policy.Classify.find_rule ueg.Policy.Classify.first_operand ueg.Policy.Classify.from_rule
    ueg.Policy.Classify.raise_floor ueg.Policy.Classify.classify_effective
    ueg.Policy.Classify.classify ueg.Policy.Decide.gate ueg.Policy.Decide.decide
    ueg.Policy.Decide.snapshot ueg.Policy.Decide.policy_hash ueg.Ledger.text_values ueg.Ledger.core
    ueg.Ledger.fail ueg.Ledger.check_link ueg.Ledger.compute_id ueg.Ledger.check_receipt
    ueg.Ledger.verify_from ueg.Ledger.verify ueg.Ledger.in_window ueg.Ledger.sequence_authorized_in
    ueg.Ledger.sequence_authorized ueg.Ledger.check_boundary ueg.Ledger.verify_lifecycle_boundaries
    ueg.Ledger.epoch_by_key ueg.Ledger.check_authority ueg.Ledger.verify_bplus
    ueg.Ledger.Petitions.digits_value ueg.Ledger.Petitions.magnitude ueg.Ledger.Petitions.parse_int
    ueg.Ledger.Petitions.normalize_numbers ueg.Ledger.Petitions.claimed_hash
    ueg.Ledger.Petitions.named_receipt ueg.Ledger.Petitions.petition_body
    ueg.Ledger.Petitions.receipt_by_id ueg.Ledger.Petitions.petition_digest
    ueg.Ledger.Petitions.check_petition ueg.Ledger.Petitions.verify_petitions_from
    ueg.Ledger.Petitions.verify_petitions ueg.Ledger.Home.make_ledger
    ueg.Ledger.Home.make_bplus_ledger ueg.Ledger.Home.boundary ueg.Ledger.Home.petition_by_hash
    ueg.Ledger.Home.loaded ueg.Ledger.Home.check_epoch ueg.Ledger.Home.check_identity
    ueg.Ledger.Home.trust_legacy ueg.Ledger.Home.trust_all ueg.Ledger.Home.trust_self
    ueg.Ledger.Home.verify_receipts ueg.Ledger.Home.check_append ueg.Ledger.Append.remove_key
    ueg.Ledger.Append.set_key ueg.Ledger.Append.evaluation ueg.Ledger.Append.draft
    ueg.Ledger.Append.stored ueg.Ledger.Append.extend ueg.Ledger.Append.signed_receipt
    ueg.Ledger.Append.prepare ueg.Ledger.Append.append ueg.Gateway.stage_text
    ueg.Gateway.Capture.new_output_capture ueg.Gateway.Capture.keep_excerpt
    ueg.Gateway.Capture.write ueg.Gateway.Capture.write_all ueg.Gateway.Capture.capture_result
    ueg.Gateway.Machine.execute ueg.Gateway.Run.request ueg.Gateway.Run.admission_petition
    ueg.Gateway.Run.admission_entry ueg.Gateway.Run.outcome_petition ueg.Gateway.Run.outcome_entry
    ueg.Gateway.Run.record_outcome ueg.Gateway.Run.proceed ueg.Gateway.Run.admit ueg.Gateway.Run.run
    ueg.Tests.Toy.sum
taken = refl

taken_again : second.0 ≡ ok (made_or second.0)
unfolding ueg.Common.same_optional ueg.Common.lookup ueg.Common.replace ueg.Common.insert
    ueg.Common.text ueg.Common.text_eq ueg.Common.has_prefix ueg.Common.contains_rune
    ueg.Common.join ueg.Common.split_rune ueg.Common.trim_left ueg.Common.trim_right ueg.Common.trim
    ueg.Common.is_space ueg.Common.trim_space ueg.Common.utf8_rune ueg.Common.utf8 ueg.Common.is_hex
    ueg.Common.is_hex64 ueg.Common.is_hex64_after ueg.Common.decode_two ueg.Common.decode_three
    ueg.Common.decode_four ueg.Common.decode_rune ueg.Common.decode_after ueg.Canon.hex_digit
    ueg.Canon.hex ueg.Canon.escape_rune ueg.Canon.escape ueg.Canon.encode_string ueg.Canon.decimal
    ueg.Canon.format_int ueg.Canon.text_lt ueg.Canon.insert_member ueg.Canon.sort_members
    ueg.Canon.encode ueg.Canon.items ueg.Canon.object ueg.Canon.sha256_hex ueg.Canon.hash_jcs
    ueg.Keys.public_pem ueg.Keys.key_id ueg.Keys.legacy_key_id ueg.Keys.validate_key_id
    ueg.Keys.sign_b64 ueg.Keys.verify_b64 ueg.Keys.decode_pem ueg.Keys.load_public_pem_text
    ueg.Policy.class_text ueg.Policy.posture_text ueg.Policy.outcome_text ueg.Policy.Argv.wrappers
    ueg.Policy.Argv.elevating ueg.Policy.Argv.replace_rune ueg.Policy.Argv.after_last
    ueg.Policy.Argv.has_suffix ueg.Policy.Argv.strip_suffix ueg.Policy.Argv.executable_suffixes
    ueg.Policy.Argv.is_wrapper_flag ueg.Policy.Argv.owned_by ueg.Policy.Argv.executable_base
    ueg.Policy.Argv.strip_wrappers ueg.Policy.Argv.unwrap ueg.Policy.Argv.before_equals
    ueg.Policy.Argv.cluster ueg.Policy.Argv.split_args ueg.Policy.Classify.equal_fold
    ueg.Policy.Classify.contains ueg.Policy.Classify.any_flag ueg.Policy.Classify.rule_matches
    ueg.Policy.Classify.find_rule ueg.Policy.Classify.first_operand ueg.Policy.Classify.from_rule
    ueg.Policy.Classify.raise_floor ueg.Policy.Classify.classify_effective
    ueg.Policy.Classify.classify ueg.Policy.Decide.gate ueg.Policy.Decide.decide
    ueg.Policy.Decide.snapshot ueg.Policy.Decide.policy_hash ueg.Ledger.text_values ueg.Ledger.core
    ueg.Ledger.fail ueg.Ledger.check_link ueg.Ledger.compute_id ueg.Ledger.check_receipt
    ueg.Ledger.verify_from ueg.Ledger.verify ueg.Ledger.in_window ueg.Ledger.sequence_authorized_in
    ueg.Ledger.sequence_authorized ueg.Ledger.check_boundary ueg.Ledger.verify_lifecycle_boundaries
    ueg.Ledger.epoch_by_key ueg.Ledger.check_authority ueg.Ledger.verify_bplus
    ueg.Ledger.Petitions.digits_value ueg.Ledger.Petitions.magnitude ueg.Ledger.Petitions.parse_int
    ueg.Ledger.Petitions.normalize_numbers ueg.Ledger.Petitions.claimed_hash
    ueg.Ledger.Petitions.named_receipt ueg.Ledger.Petitions.petition_body
    ueg.Ledger.Petitions.receipt_by_id ueg.Ledger.Petitions.petition_digest
    ueg.Ledger.Petitions.check_petition ueg.Ledger.Petitions.verify_petitions_from
    ueg.Ledger.Petitions.verify_petitions ueg.Ledger.Home.make_ledger
    ueg.Ledger.Home.make_bplus_ledger ueg.Ledger.Home.boundary ueg.Ledger.Home.petition_by_hash
    ueg.Ledger.Home.loaded ueg.Ledger.Home.check_epoch ueg.Ledger.Home.check_identity
    ueg.Ledger.Home.trust_legacy ueg.Ledger.Home.trust_all ueg.Ledger.Home.trust_self
    ueg.Ledger.Home.verify_receipts ueg.Ledger.Home.check_append ueg.Ledger.Append.remove_key
    ueg.Ledger.Append.set_key ueg.Ledger.Append.evaluation ueg.Ledger.Append.draft
    ueg.Ledger.Append.stored ueg.Ledger.Append.extend ueg.Ledger.Append.signed_receipt
    ueg.Ledger.Append.prepare ueg.Ledger.Append.append ueg.Gateway.stage_text
    ueg.Gateway.Capture.new_output_capture ueg.Gateway.Capture.keep_excerpt
    ueg.Gateway.Capture.write ueg.Gateway.Capture.write_all ueg.Gateway.Capture.capture_result
    ueg.Gateway.Machine.execute ueg.Gateway.Run.request ueg.Gateway.Run.admission_petition
    ueg.Gateway.Run.admission_entry ueg.Gateway.Run.outcome_petition ueg.Gateway.Run.outcome_entry
    ueg.Gateway.Run.record_outcome ueg.Gateway.Run.proceed ueg.Gateway.Run.admit ueg.Gateway.Run.run
    ueg.Tests.Toy.sum
taken_again = refl

-- A run on the ledger itself goes to its end, with both of its receipts.
run_complete_example :
    ((run machine toy (ledger_ops toy (text "now")) fresh (text "ls" ∷ []) enforced).failure ≡ none)
    × ((run machine toy (ledger_ops toy (text "now")) fresh (text "ls" ∷ []) enforced).result.path
        ≡ all_stages)
    × ((run machine toy
          (ledger_ops toy (text "now"))
          fresh
          (text "ls" ∷ [])
          enforced).result.admission_receipt
        ≡ some (made_or first.0))
    × ((run machine toy
          (ledger_ops toy (text "now"))
          fresh
          (text "ls" ∷ [])
          enforced).result.outcome_receipt
        ≡ some (made_or second.0))
    × ((run machine toy
          (ledger_ops toy (text "now"))
          fresh
          (text "ls" ∷ [])
          enforced).result.exit_code
        ≡ pos 0)
unfolding ueg.Policy.Decide.policy_hash ueg.Canon.hash_jcs ueg.Canon.object ueg.Tests.Toy.sum
    ueg.Common.utf8 ueg.Policy.Decide.decide ueg.Policy.Classify.classify ueg.Policy.Argv.unwrap
    ueg.Policy.Argv.strip_wrappers ueg.Policy.Argv.wrappers ueg.Common.text_eq
    ueg.Policy.Argv.executable_base ueg.Common.contains_rune ueg.Policy.Argv.elevating
    ueg.Policy.Classify.find_rule ueg.Policy.Classify.rule_matches ueg.Policy.Classify.equal_fold
run_complete_example =
    run_complete machine toy (ledger_ops toy (text "now")) fresh (text "ls") [] enforced the_hash
      (made_or first.0) (made_or second.0) refl refl refl taken taken_again
