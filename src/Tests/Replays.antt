-- ===== src/Tests/Replays.antt =====
-- internal/gateway/replay.go on the toy machine and a ledger of one command and its outcome.
use ueg.Common.{
  ℕ, ◌≡◌, refl, Bool, true, false, List, [], ◌∷◌, ◌++◌, Option, none, some, Result, ok, err, ℤ, pos,
  Text, text,
}
use ueg.Canon.{str, bool, arr, items, number}
use ueg.Ledger.{Receipt, Petition, VerifyResult, fresh_result}
use ueg.Ledger.Petitions.{petition_digest, verify_petitions}
use ueg.Gateway.Run.{run}
use ueg.Gateway.Replay.{Verdict, ReplayResult, Evidence, Replayed, Account}
use ueg.Gateway.Replay.Again.{answered, opened, replay, recorded_argv, enforce_options}
use ueg.Gateway.Replay.{find_admission}
use ueg.Gateway.Replay.Verdicts.{
  has_start, is_verified, IsMatch, replay-not_executed, replay-IsMatch,
}
use ueg.Gateway.Replay.Recorded.{replay-match_number}
use ueg.Tests.Toy.{toy, machine, enforced, counter, receipt, repeat}

abbrev first_id : Text
first_id = text "aa" ++ repeat 62 b'0'

abbrev second_id : Text
second_id = text "bb" ++ repeat 62 b'0'

abbrev first_hash : Text
first_hash = text "5555" ++ repeat 60 b'0'

abbrev second_hash : Text
second_hash = text "8829" ++ repeat 60 b'0'

-- The request that was admitted, its hash given.
abbrev admission : Bool → Text → Petition
admission ran hash =
    (text "action", str (text "execute"))
    ∷ (text "argv", arr (items (str (text "ls") ∷ [])))
    ∷ (text "cwd", str (text "/tmp"))
    ∷ (text "decision", str (text "ADMITTED"))
    ∷ (text "executed", bool ran)
    ∷ (text "petition_hash", str hash)
    ∷ (text "receipt_id", str first_id)
    ∷ []

abbrev outcome : Text → Petition
outcome hash =
    (text "action", str (text "record-outcome"))
    ∷ (text "admission_receipt_id", str first_id)
    ∷ (text "exit_code", number (text "0"))
    ∷ (text "stdout_sha256", str (text "0603" ++ repeat 60 b'0'))
    ∷ (text "stderr_sha256", str (repeat 64 b'0'))
    ∷ (text "petition_hash", str hash)
    ∷ (text "receipt_id", str second_id)
    ∷ []

abbrev receipts : List Receipt
receipts =
    record (receipt (pos 0) none first_id (text "key")) { petition_hash = first_hash }
    ∷ record (receipt (pos 1) (some first_id) second_id (text "key")) {
      petition_hash = second_hash;
    }
    ∷ []

-- The evidence of a ledger whose chain verifies.
abbrev view : List Receipt → List Petition → Evidence ℕ
view rs ps = record { verify_receipts = λ n. fresh_result; receipts = λ n. rs; petitions = λ n. ps }

abbrev ran : Evidence ℕ
ran = view receipts (admission true first_hash ∷ outcome second_hash ∷ [])

abbrev answer_or : Result (ueg.Gateway.Replay.Error Text) ReplayResult → ReplayResult
answer_or (ok r) = r
answer_or (err e) = opened fresh_result fresh_result

abbrev result : ReplayResult
result = answer_or (replay machine toy counter ran 0 (text "last") enforced).answer

found : find_admission {E = Text} (ran.petitions 0) (text "last") ≡ ok (admission true first_hash)
unfolding ueg.Gateway.Replay.find_admission ueg.Gateway.Replay.find_outcome ueg.Common.text_eq
    ueg.Common.trim_space ueg.Common.lookup
found = refl

replayed : (replay machine toy counter ran 0 (text "last") enforced).answer ≡ ok result
unfolding ueg.Gateway.Replay.find_admission ueg.Gateway.Replay.find_outcome ueg.Common.text_eq
    ueg.Common.trim_space ueg.Common.lookup replay verify_petitions
    ueg.Ledger.Petitions.verify_petitions_from ueg.Ledger.Petitions.check_petition petition_digest
    ueg.Canon.hash_jcs ueg.Ledger.Petitions.normalize_numbers ueg.Canon.object
    ueg.Ledger.Petitions.petition_body items ueg.Ledger.Petitions.claimed_hash ueg.Tests.Toy.sum
    ueg.Common.utf8 ueg.Ledger.Petitions.parse_int ueg.Ledger.Petitions.magnitude
    ueg.Ledger.Petitions.digits_value ueg.Ledger.Petitions.named_receipt
    ueg.Ledger.Petitions.receipt_by_id text ueg.Canon.decimal ueg.Canon.encode
    ueg.Canon.encode_string ueg.Canon.escape ueg.Canon.escape_rune ueg.Canon.format_int
    ueg.Canon.hex_digit ueg.Canon.hex ueg.Canon.sha256_hex ueg.Common.utf8_rune ueg.Ledger.fail
    ueg.Policy.Decide.policy_hash ueg.Policy.Decide.decide ueg.Policy.Classify.classify
    ueg.Policy.Argv.unwrap ueg.Policy.Argv.strip_wrappers ueg.Policy.Argv.wrappers
    ueg.Policy.Argv.executable_base ueg.Common.contains_rune ueg.Policy.Argv.elevating
    ueg.Policy.Classify.find_rule ueg.Policy.Classify.rule_matches ueg.Policy.Classify.equal_fold
    ueg.Gateway.Replay.Again.replay_admission ueg.Gateway.Replay.Again.replay_run recorded_argv
    enforce_options run ueg.Gateway.Replay.select ueg.Gateway.Replay.selected
    ueg.Gateway.Replay.selects_last ueg.Gateway.Replay.text_field ueg.Gateway.Replay.is_outcome_of
    ueg.Gateway.Replay.item_texts ueg.Gateway.Replay.recorded_account
    ueg.Gateway.Replay.recorded_outcome ueg.Gateway.Replay.int_field
    ueg.Gateway.Replay.observed_account ueg.Gateway.Replay.output_differences
    ueg.Gateway.Replay.Again.judge_run ueg.Common.trim ueg.Common.trim_left ueg.Common.trim_right
replayed = refl

matched : result.verdict ≡ Verdict.match
unfolding ueg.Gateway.Replay.find_admission ueg.Gateway.Replay.find_outcome ueg.Common.text_eq
    ueg.Common.trim_space ueg.Common.lookup replay verify_petitions
    ueg.Ledger.Petitions.verify_petitions_from ueg.Ledger.Petitions.check_petition petition_digest
    ueg.Canon.hash_jcs ueg.Ledger.Petitions.normalize_numbers ueg.Canon.object
    ueg.Ledger.Petitions.petition_body items ueg.Ledger.Petitions.claimed_hash ueg.Tests.Toy.sum
    ueg.Common.utf8 ueg.Ledger.Petitions.parse_int ueg.Ledger.Petitions.magnitude
    ueg.Ledger.Petitions.digits_value ueg.Ledger.Petitions.named_receipt
    ueg.Ledger.Petitions.receipt_by_id text ueg.Canon.decimal ueg.Canon.encode
    ueg.Canon.encode_string ueg.Canon.escape ueg.Canon.escape_rune ueg.Canon.format_int
    ueg.Canon.hex_digit ueg.Canon.hex ueg.Canon.sha256_hex ueg.Common.utf8_rune ueg.Ledger.fail
    ueg.Policy.Decide.policy_hash ueg.Policy.Decide.decide ueg.Policy.Classify.classify
    ueg.Policy.Argv.unwrap ueg.Policy.Argv.strip_wrappers ueg.Policy.Argv.wrappers
    ueg.Policy.Argv.executable_base ueg.Common.contains_rune ueg.Policy.Argv.elevating
    ueg.Policy.Classify.find_rule ueg.Policy.Classify.rule_matches ueg.Policy.Classify.equal_fold
    ueg.Gateway.Replay.Again.replay_admission ueg.Gateway.Replay.Again.replay_run recorded_argv
    enforce_options run ueg.Gateway.Replay.select ueg.Gateway.Replay.selected
    ueg.Gateway.Replay.selects_last ueg.Gateway.Replay.text_field ueg.Gateway.Replay.is_outcome_of
    ueg.Gateway.Replay.item_texts ueg.Gateway.Replay.recorded_account
    ueg.Gateway.Replay.recorded_outcome ueg.Gateway.Replay.int_field
    ueg.Gateway.Replay.observed_account ueg.Gateway.Replay.output_differences
    ueg.Gateway.Replay.Again.judge_run ueg.Common.trim ueg.Common.trim_left ueg.Common.trim_right
    ueg.Gateway.Capture.write_all ueg.Gateway.Capture.write ueg.Gateway.Capture.new_output_capture
matched = refl

replay-not_executed_example :
    has_start
      (replay machine toy counter
        (view receipts (admission false first_hash ∷ []))
        0
        (text "last")
        enforced).events
    ≡ false
unfolding ueg.Gateway.Replay.find_admission ueg.Common.text_eq ueg.Common.trim_space
    ueg.Common.lookup ueg.Gateway.Replay.recorded_account
replay-not_executed_example =
    replay-not_executed machine toy counter (view receipts (admission false first_hash ∷ [])) 0
      (text "last") enforced (admission false first_hash) refl refl

replay-IsMatch_example :
    (is_verified machine toy counter ran 0 ≡ true)
    × IsMatch machine toy counter ran 0 (admission true first_hash) enforced result
replay-IsMatch_example =
    replay-IsMatch machine toy counter ran 0 (text "last") enforced (admission true first_hash)
      result found replayed matched

replay-match_number_example :
    (run machine toy counter 0
      (recorded_argv (admission true first_hash))
      (enforce_options (admission true first_hash) enforced)).result.exit_code
    ≡ pos 0
unfolding ueg.Gateway.Replay.find_outcome ueg.Common.text_eq ueg.Common.lookup
replay-match_number_example =
    replay-match_number machine toy counter ran 0 (text "last") enforced (admission true first_hash)
      (outcome second_hash) (text "0") result found refl refl replayed matched
