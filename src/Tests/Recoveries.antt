-- ===== src/Tests/Recoveries.antt =====
-- internal/ledger/transaction.go on the toy wire: a first pair of lines, interrupted and recovered.
use ueg.Common.{
  ℕ, ◌≡◌, refl, ◌⊎◌, Bool, true, false, List, [], ◌∷◌, ◌++◌, Option, none, some, Result, ok, err,
  Text, text, if◌then◌else◌, ltb, arith,
}
use ueg.Keys.{legacy_key_id}
use ueg.Strictjson.{unmarshal_by}
use ueg.Ledger.{Receipt, Petition}
use ueg.Ledger.Petitions.{named_receipt}
use ueg.Ledger.Parse.{parse_receipt_strict, parse_petition}
use ueg.Ledger.Recovery.{
  Files, journal, start_journal, interrupt, check_pending, plan_receipts, recover_pair,
  recover_pending_files,
}
use ueg.Ledger.Recovery.Atomic.{IsNext, completed, interrupt-recovered}
use ueg.Ledger.Recovery.Trusted.{recover_pair-one_key}
use ueg.Tests.Toy.{toy}
use ueg.Tests.Wires.{
  wire, the_pair, the_key, the_receipt, the_petition, the_pending, petition_line, receipt_parsed,
}

abbrev raw : List ℕ
raw = b'x' ∷ []

abbrev empty : Files
empty = record { receipts = none; petitions = some []; pending = none; temp = none }

checks : check_pending toy wire the_pair the_pending ≡ ok (the_receipt, the_petition)
unfolding check_pending parse_receipt_strict ueg.Strictjson.unmarshal ueg.Strictjson.validate
    ueg.Strictjson.valid_after ueg.Common.decode_rune ueg.Strictjson.scan_value ueg.Common.text_eq
    ueg.Ledger.Parse.exact_keys ueg.Ledger.Parse.entries ueg.Common.lookup ueg.Common.same_optional
    ueg.Ledger.compute_id ueg.Canon.hash_jcs ueg.Ledger.core ueg.Canon.object ueg.Canon.items
    ueg.Canon.decimal ueg.Canon.encode ueg.Canon.encode_string ueg.Canon.escape
    ueg.Canon.escape_rune ueg.Canon.format_int ueg.Canon.hex ueg.Canon.hex_digit
    ueg.Canon.sha256_hex ueg.Canon.text_lt ueg.Common.decode_four ueg.Common.decode_three
    ueg.Common.decode_two ueg.Common.join text ueg.Common.utf8 ueg.Common.utf8_rune ueg.Keys.key_id
    legacy_key_id ueg.Keys.public_pem ueg.Keys.validate_key_id ueg.Keys.verify_b64
    ueg.Ledger.Parse.absent_from ueg.Ledger.Parse.diff ueg.Ledger.Parse.insert_text
    ueg.Ledger.Parse.keys_of parse_petition ueg.Ledger.Parse.receipt_fields
    ueg.Ledger.Parse.sort_texts ueg.Ledger.Parse.summary_fields ueg.Ledger.Petitions.check_petition
    ueg.Ledger.Petitions.claimed_hash ueg.Ledger.Petitions.digits_value
    ueg.Ledger.Petitions.magnitude named_receipt ueg.Ledger.Petitions.normalize_numbers
    ueg.Ledger.Petitions.parse_int ueg.Ledger.Petitions.petition_body
    ueg.Ledger.Petitions.petition_digest ueg.Ledger.Petitions.receipt_by_id
    ueg.Ledger.Petitions.verify_petitions ueg.Ledger.Petitions.verify_petitions_from ueg.Ledger.fail
    ueg.Ledger.text_values unmarshal_by ueg.Tests.Toy.sum
checks = refl

petition_parsed : parse_petition wire petition_line ≡ ok the_petition
unfolding check_pending parse_receipt_strict ueg.Strictjson.unmarshal ueg.Strictjson.validate
    ueg.Strictjson.valid_after ueg.Common.decode_rune ueg.Strictjson.scan_value ueg.Common.text_eq
    ueg.Ledger.Parse.exact_keys ueg.Ledger.Parse.entries ueg.Common.lookup ueg.Common.same_optional
    ueg.Ledger.compute_id ueg.Canon.hash_jcs ueg.Ledger.core ueg.Canon.object ueg.Canon.items
    ueg.Canon.decimal ueg.Canon.encode ueg.Canon.encode_string ueg.Canon.escape
    ueg.Canon.escape_rune ueg.Canon.format_int ueg.Canon.hex ueg.Canon.hex_digit
    ueg.Canon.sha256_hex ueg.Canon.text_lt ueg.Common.decode_four ueg.Common.decode_three
    ueg.Common.decode_two ueg.Common.join text ueg.Common.utf8 ueg.Common.utf8_rune ueg.Keys.key_id
    legacy_key_id ueg.Keys.public_pem ueg.Keys.validate_key_id ueg.Keys.verify_b64
    ueg.Ledger.Parse.absent_from ueg.Ledger.Parse.diff ueg.Ledger.Parse.insert_text
    ueg.Ledger.Parse.keys_of parse_petition ueg.Ledger.Parse.receipt_fields
    ueg.Ledger.Parse.sort_texts ueg.Ledger.Parse.summary_fields ueg.Ledger.Petitions.check_petition
    ueg.Ledger.Petitions.claimed_hash ueg.Ledger.Petitions.digits_value
    ueg.Ledger.Petitions.magnitude named_receipt ueg.Ledger.Petitions.normalize_numbers
    ueg.Ledger.Petitions.parse_int ueg.Ledger.Petitions.petition_body
    ueg.Ledger.Petitions.petition_digest ueg.Ledger.Petitions.receipt_by_id
    ueg.Ledger.Petitions.verify_petitions ueg.Ledger.Petitions.verify_petitions_from ueg.Ledger.fail
    ueg.Ledger.text_values unmarshal_by ueg.Tests.Toy.sum
petition_parsed = refl

read_back : unmarshal_by wire.json wire.read_pending (b'x' ∷ 10 ∷ []) ≡ ok the_pending
unfolding check_pending parse_receipt_strict ueg.Strictjson.unmarshal ueg.Strictjson.validate
    ueg.Strictjson.valid_after ueg.Common.decode_rune ueg.Strictjson.scan_value ueg.Common.text_eq
    ueg.Ledger.Parse.exact_keys ueg.Ledger.Parse.entries ueg.Common.lookup ueg.Common.same_optional
    ueg.Ledger.compute_id ueg.Canon.hash_jcs ueg.Ledger.core ueg.Canon.object ueg.Canon.items
    ueg.Canon.decimal ueg.Canon.encode ueg.Canon.encode_string ueg.Canon.escape
    ueg.Canon.escape_rune ueg.Canon.format_int ueg.Canon.hex ueg.Canon.hex_digit
    ueg.Canon.sha256_hex ueg.Canon.text_lt ueg.Common.decode_four ueg.Common.decode_three
    ueg.Common.decode_two ueg.Common.join text ueg.Common.utf8 ueg.Common.utf8_rune ueg.Keys.key_id
    legacy_key_id ueg.Keys.public_pem ueg.Keys.validate_key_id ueg.Keys.verify_b64
    ueg.Ledger.Parse.absent_from ueg.Ledger.Parse.diff ueg.Ledger.Parse.insert_text
    ueg.Ledger.Parse.keys_of parse_petition ueg.Ledger.Parse.receipt_fields
    ueg.Ledger.Parse.sort_texts ueg.Ledger.Parse.summary_fields ueg.Ledger.Petitions.check_petition
    ueg.Ledger.Petitions.claimed_hash ueg.Ledger.Petitions.digits_value
    ueg.Ledger.Petitions.magnitude named_receipt ueg.Ledger.Petitions.normalize_numbers
    ueg.Ledger.Petitions.parse_int ueg.Ledger.Petitions.petition_body
    ueg.Ledger.Petitions.petition_digest ueg.Ledger.Petitions.receipt_by_id
    ueg.Ledger.Petitions.verify_petitions ueg.Ledger.Petitions.verify_petitions_from ueg.Ledger.fail
    ueg.Ledger.text_values unmarshal_by ueg.Tests.Toy.sum
read_back = refl

the-IsNext : IsNext toy wire the_pair the_pending [] []
unfolding check_pending parse_receipt_strict ueg.Strictjson.unmarshal ueg.Strictjson.validate
    ueg.Strictjson.valid_after ueg.Common.decode_rune ueg.Strictjson.scan_value ueg.Common.text_eq
    ueg.Ledger.Parse.exact_keys ueg.Ledger.Parse.entries ueg.Common.lookup ueg.Common.same_optional
    ueg.Ledger.compute_id ueg.Canon.hash_jcs ueg.Ledger.core ueg.Canon.object ueg.Canon.items
    ueg.Canon.decimal ueg.Canon.encode ueg.Canon.encode_string ueg.Canon.escape
    ueg.Canon.escape_rune ueg.Canon.format_int ueg.Canon.hex ueg.Canon.hex_digit
    ueg.Canon.sha256_hex ueg.Canon.text_lt ueg.Common.decode_four ueg.Common.decode_three
    ueg.Common.decode_two ueg.Common.join text ueg.Common.utf8 ueg.Common.utf8_rune ueg.Keys.key_id
    legacy_key_id ueg.Keys.public_pem ueg.Keys.validate_key_id ueg.Keys.verify_b64
    ueg.Ledger.Parse.absent_from ueg.Ledger.Parse.diff ueg.Ledger.Parse.insert_text
    ueg.Ledger.Parse.keys_of parse_petition ueg.Ledger.Parse.receipt_fields
    ueg.Ledger.Parse.sort_texts ueg.Ledger.Parse.summary_fields ueg.Ledger.Petitions.check_petition
    ueg.Ledger.Petitions.claimed_hash ueg.Ledger.Petitions.digits_value
    ueg.Ledger.Petitions.magnitude named_receipt ueg.Ledger.Petitions.normalize_numbers
    ueg.Ledger.Petitions.parse_int ueg.Ledger.Petitions.petition_body
    ueg.Ledger.Petitions.petition_digest ueg.Ledger.Petitions.receipt_by_id
    ueg.Ledger.Petitions.verify_petitions ueg.Ledger.Petitions.verify_petitions_from ueg.Ledger.fail
    ueg.Ledger.text_values unmarshal_by ueg.Tests.Toy.sum plan_receipts recover_pair
    ueg.Ledger.Recovery.plan_petitions ueg.Ledger.Recovery.plan ueg.Ledger.Recovery.replan
    ueg.Ledger.Recovery.parse_data ueg.Ledger.Recovery.parse_lines ueg.Ledger.Recovery.is_blank
    ueg.Ledger.Recovery.read_recovery_data ueg.Ledger.Recovery.cut_partial
    ueg.Ledger.Recovery.append_record ueg.Ledger.Recovery.end_line ueg.Ledger.Recovery.apply_plan
    ueg.Ledger.Recovery.continues_chain ueg.Ledger.Recovery.recovery_trust ueg.Ledger.verify
    ueg.Ledger.verify_from ueg.Ledger.check_receipt ueg.Ledger.check_link ueg.Common.is_hex64
    ueg.Common.is_hex ueg.Common.has_prefix ueg.Common.split_rune ueg.Common.trim_space
    ueg.Common.trim ueg.Common.trim_left ueg.Common.trim_right ueg.Common.is_space
    ueg.Common.decode_after ueg.Common.insert ueg.Common.replace
the-IsNext = record {
  receipt = the_receipt;
  petition = the_petition;
  receipts = [];
  petitions = [];
  receipt_parsed = receipt_parsed;
  petition_parsed = petition_parsed;
  checked = checks;
  same_id = refl;
  receipts_are_lines = tt;
  petitions_are_lines = tt;
  receipt_is_line = ground arith;
  petition_is_line = ground arith;
  receipt_not_blank = refl;
  petition_not_blank = refl;
  receipts_parsed = refl;
  petitions_parsed = refl;
  continuing = refl;
  verified = refl;
  bound = refl;
}

starts : start_journal raw the_pending empty ≡ ok (journal raw the_pending)
unfolding start_journal
starts = refl

interrupt-recovered_example :
    recover_pending_files toy wire the_pair (interrupt 3 1 (journal raw the_pending) empty)
    ≡ ok (if ltb 3 3 then record empty { temp = none } else completed [] [] the_pending)
interrupt-recovered_example =
    interrupt-recovered toy wire the_pair the_pending [] [] the-IsNext raw empty
      (journal raw the_pending) starts read_back refl refl 3 1

recovered : recover_pair toy wire the_pair the_pending empty ≡ ok (completed [] [] the_pending)
unfolding check_pending parse_receipt_strict ueg.Strictjson.unmarshal ueg.Strictjson.validate
    ueg.Strictjson.valid_after ueg.Common.decode_rune ueg.Strictjson.scan_value ueg.Common.text_eq
    ueg.Ledger.Parse.exact_keys ueg.Ledger.Parse.entries ueg.Common.lookup ueg.Common.same_optional
    ueg.Ledger.compute_id ueg.Canon.hash_jcs ueg.Ledger.core ueg.Canon.object ueg.Canon.items
    ueg.Canon.decimal ueg.Canon.encode ueg.Canon.encode_string ueg.Canon.escape
    ueg.Canon.escape_rune ueg.Canon.format_int ueg.Canon.hex ueg.Canon.hex_digit
    ueg.Canon.sha256_hex ueg.Canon.text_lt ueg.Common.decode_four ueg.Common.decode_three
    ueg.Common.decode_two ueg.Common.join text ueg.Common.utf8 ueg.Common.utf8_rune ueg.Keys.key_id
    legacy_key_id ueg.Keys.public_pem ueg.Keys.validate_key_id ueg.Keys.verify_b64
    ueg.Ledger.Parse.absent_from ueg.Ledger.Parse.diff ueg.Ledger.Parse.insert_text
    ueg.Ledger.Parse.keys_of parse_petition ueg.Ledger.Parse.receipt_fields
    ueg.Ledger.Parse.sort_texts ueg.Ledger.Parse.summary_fields ueg.Ledger.Petitions.check_petition
    ueg.Ledger.Petitions.claimed_hash ueg.Ledger.Petitions.digits_value
    ueg.Ledger.Petitions.magnitude named_receipt ueg.Ledger.Petitions.normalize_numbers
    ueg.Ledger.Petitions.parse_int ueg.Ledger.Petitions.petition_body
    ueg.Ledger.Petitions.petition_digest ueg.Ledger.Petitions.receipt_by_id
    ueg.Ledger.Petitions.verify_petitions ueg.Ledger.Petitions.verify_petitions_from ueg.Ledger.fail
    ueg.Ledger.text_values unmarshal_by ueg.Tests.Toy.sum plan_receipts recover_pair
    ueg.Ledger.Recovery.plan_petitions ueg.Ledger.Recovery.plan ueg.Ledger.Recovery.replan
    ueg.Ledger.Recovery.parse_data ueg.Ledger.Recovery.parse_lines ueg.Ledger.Recovery.is_blank
    ueg.Ledger.Recovery.read_recovery_data ueg.Ledger.Recovery.cut_partial
    ueg.Ledger.Recovery.append_record ueg.Ledger.Recovery.end_line ueg.Ledger.Recovery.apply_plan
    ueg.Ledger.Recovery.continues_chain ueg.Ledger.Recovery.recovery_trust ueg.Ledger.verify
    ueg.Ledger.verify_from ueg.Ledger.check_receipt ueg.Ledger.check_link ueg.Common.is_hex64
    ueg.Common.is_hex ueg.Common.has_prefix ueg.Common.split_rune ueg.Common.trim_space
    ueg.Common.trim ueg.Common.trim_left ueg.Common.trim_right ueg.Common.is_space
    ueg.Common.decode_after ueg.Common.insert ueg.Common.replace
recovered = refl

planned :
    plan_receipts toy wire the_pair the_pending the_receipt empty
    ≡ ok (b'r' ∷ 10 ∷ [], the_receipt ∷ [])
unfolding check_pending parse_receipt_strict ueg.Strictjson.unmarshal ueg.Strictjson.validate
    ueg.Strictjson.valid_after ueg.Common.decode_rune ueg.Strictjson.scan_value ueg.Common.text_eq
    ueg.Ledger.Parse.exact_keys ueg.Ledger.Parse.entries ueg.Common.lookup ueg.Common.same_optional
    ueg.Ledger.compute_id ueg.Canon.hash_jcs ueg.Ledger.core ueg.Canon.object ueg.Canon.items
    ueg.Canon.decimal ueg.Canon.encode ueg.Canon.encode_string ueg.Canon.escape
    ueg.Canon.escape_rune ueg.Canon.format_int ueg.Canon.hex ueg.Canon.hex_digit
    ueg.Canon.sha256_hex ueg.Canon.text_lt ueg.Common.decode_four ueg.Common.decode_three
    ueg.Common.decode_two ueg.Common.join text ueg.Common.utf8 ueg.Common.utf8_rune ueg.Keys.key_id
    legacy_key_id ueg.Keys.public_pem ueg.Keys.validate_key_id ueg.Keys.verify_b64
    ueg.Ledger.Parse.absent_from ueg.Ledger.Parse.diff ueg.Ledger.Parse.insert_text
    ueg.Ledger.Parse.keys_of parse_petition ueg.Ledger.Parse.receipt_fields
    ueg.Ledger.Parse.sort_texts ueg.Ledger.Parse.summary_fields ueg.Ledger.Petitions.check_petition
    ueg.Ledger.Petitions.claimed_hash ueg.Ledger.Petitions.digits_value
    ueg.Ledger.Petitions.magnitude named_receipt ueg.Ledger.Petitions.normalize_numbers
    ueg.Ledger.Petitions.parse_int ueg.Ledger.Petitions.petition_body
    ueg.Ledger.Petitions.petition_digest ueg.Ledger.Petitions.receipt_by_id
    ueg.Ledger.Petitions.verify_petitions ueg.Ledger.Petitions.verify_petitions_from ueg.Ledger.fail
    ueg.Ledger.text_values unmarshal_by ueg.Tests.Toy.sum plan_receipts recover_pair
    ueg.Ledger.Recovery.plan_petitions ueg.Ledger.Recovery.plan ueg.Ledger.Recovery.replan
    ueg.Ledger.Recovery.parse_data ueg.Ledger.Recovery.parse_lines ueg.Ledger.Recovery.is_blank
    ueg.Ledger.Recovery.read_recovery_data ueg.Ledger.Recovery.cut_partial
    ueg.Ledger.Recovery.append_record ueg.Ledger.Recovery.end_line ueg.Ledger.Recovery.apply_plan
    ueg.Ledger.Recovery.continues_chain ueg.Ledger.Recovery.recovery_trust ueg.Ledger.verify
    ueg.Ledger.verify_from ueg.Ledger.check_receipt ueg.Ledger.check_link ueg.Common.is_hex64
    ueg.Common.is_hex ueg.Common.has_prefix ueg.Common.split_rune ueg.Common.trim_space
    ueg.Common.trim ueg.Common.trim_left ueg.Common.trim_right ueg.Common.is_space
    ueg.Common.decode_after ueg.Common.insert ueg.Common.replace
planned = refl

recover_pair-one_key_example :
    (the_receipt.signing_key_id ≡ the_key) ⊎ (legacy_key_id toy the_pair ≡ ok the_key)
recover_pair-one_key_example =
    recover_pair-one_key toy wire the_pair the_pending empty (completed [] [] the_pending)
      the_receipt the_petition (b'r' ∷ 10 ∷ []) (the_receipt ∷ []) recovered checks planned 0
      the_receipt refl
