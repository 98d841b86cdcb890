-- ===== src/Tests/Appends.antt =====
-- internal/ledger/ledger.go, Append: a first receipt of a new ledger.
use ueg.Common.{
  ℕ, ◌≡◌, refl, Bool, true, false, List, [], ◌∷◌, ◌++◌, Option, none, some, Result, ok, err, ℤ, pos,
  Text, text, arith,
}
use ueg.Canon.{str}
use ueg.Ledger.{Receipt, Petition}
use ueg.Ledger.Petitions.{verify_petitions}
use ueg.Ledger.Home.{Ledger, Error, make_ledger, verify_receipts}
use ueg.Ledger.Append.{Request, append}
use ueg.Ledger.Append.Guards.{MaySign, append-verified}
use ueg.Ledger.Append.Chained.{IsWhole, append-IsWhole}
use ueg.Tests.Toy.{toy, toy_laws, summary, receipt}
use ueg.Tests.Wires.{the_pair, the_key}

abbrev fresh : Ledger
fresh = record (make_ledger the_key (some the_pair)) { is_bplus = false }

abbrev asked : Request
asked = record {
  petition = (text "action", str (text "execute")) ∷ [];
  summary = summary;
  actor = text "me";
  admission = text "ADMITTED";
  expression = text "EXPRESSED";
  policy_hash = text "00";
  clause_ids = text "R1" ∷ [];
}

abbrev made_or : Result Error (Ledger × Receipt) → Ledger × Receipt
made_or (ok x) = x
made_or (err e) = (fresh, receipt (pos 0) none [] [])

abbrev made : Ledger × Receipt
made = made_or (append toy fresh asked (text "now"))

appended : append toy fresh asked (text "now") ≡ ok (made.0, made.1)
unfolding ueg.Common.decode_rune ueg.Common.text_eq ueg.Common.lookup ueg.Common.same_optional
    ueg.Ledger.compute_id ueg.Canon.hash_jcs ueg.Ledger.core ueg.Canon.object ueg.Canon.items
    ueg.Canon.decimal ueg.Canon.encode ueg.Canon.encode_string ueg.Canon.escape
    ueg.Canon.escape_rune ueg.Canon.format_int ueg.Canon.hex ueg.Canon.hex_digit
    ueg.Canon.sha256_hex ueg.Canon.text_lt ueg.Common.decode_four ueg.Common.decode_three
    ueg.Common.decode_two ueg.Common.join text ueg.Common.utf8 ueg.Common.utf8_rune ueg.Keys.key_id
    ueg.Keys.legacy_key_id ueg.Keys.public_pem ueg.Keys.validate_key_id ueg.Keys.verify_b64
    ueg.Ledger.Petitions.check_petition ueg.Ledger.Petitions.claimed_hash
    ueg.Ledger.Petitions.digits_value ueg.Ledger.Petitions.magnitude
    ueg.Ledger.Petitions.named_receipt ueg.Ledger.Petitions.normalize_numbers
    ueg.Ledger.Petitions.parse_int ueg.Ledger.Petitions.petition_body
    ueg.Ledger.Petitions.petition_digest ueg.Ledger.Petitions.receipt_by_id
    ueg.Ledger.Petitions.verify_petitions ueg.Ledger.Petitions.verify_petitions_from ueg.Ledger.fail
    ueg.Ledger.text_values ueg.Tests.Toy.sum append make_ledger ueg.Ledger.Append.prepare
    ueg.Ledger.Append.extend ueg.Ledger.Append.stored ueg.Ledger.Append.set_key
    ueg.Ledger.Append.remove_key ueg.Ledger.Append.signed_receipt ueg.Ledger.Append.draft
    ueg.Ledger.Append.evaluation ueg.Ledger.Home.check_append verify_receipts
    ueg.Ledger.Home.trust_self ueg.Ledger.Home.trust_legacy ueg.Ledger.verify ueg.Ledger.verify_from
    ueg.Ledger.Home.check_identity ueg.Keys.sign_b64 ueg.Common.insert ueg.Common.replace
appended = refl

append-verified_example :
    ((verify_receipts toy fresh).is_ok ≡ true)
    × ((verify_petitions toy fresh.receipts fresh.petitions).is_ok ≡ true)
    × MaySign fresh
append-verified_example = append-verified toy fresh made.0 asked (text "now") made.1 appended

fresh-IsWhole : IsWhole toy fresh
unfolding make_ledger
fresh-IsWhole = record { chain = tt; head = refl; next = refl }

append-IsWhole_example : IsWhole toy made.0
unfolding make_ledger
append-IsWhole_example =
    append-IsWhole toy toy_laws fresh the_pair refl refl (λ m. refl) refl asked (text "now") made.0
      made.1 fresh-IsWhole appended tt (ground arith)
