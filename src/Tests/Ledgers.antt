-- ===== src/Tests/Ledgers.antt =====
-- internal/ledger at a chain of two receipts.
use ueg.Common.{
  ℕ, ◌≡◌, refl, ◌↔◌, Bool, true, false, List, [], ◌∷◌, ◌++◌, Option, none, some, ℤ, pos, Text, text,
  length, get_elem?,
}
use ueg.Keys.{Pair}
use ueg.Ledger.{Receipt, Petition, Trust, compute_id, verify}
use ueg.Canon.{str, number}
use ueg.Ledger.Petitions.{petition_digest, verify_petitions}
use ueg.Ledger.Petitions.Bound.{AreBound, verify_petitions_iff}
use ueg.Ledger.Chain.{IsChain}
use ueg.Ledger.Verified.{verify_iff, verify-linked_at}
use ueg.Tests.Toy.{toy, receipt, repeat}

abbrev trusted : Trust
trusted = (text "key", record { private = []; public = repeat 32 2 }) ∷ []

abbrev first_id : Text
first_id = text "26a2" ++ repeat 60 b'0'

abbrev second_id : Text
second_id = text "ebe0" ++ repeat 60 b'0'

abbrev first : Receipt
first = receipt (pos 0) none first_id (text "key")

abbrev second : Receipt
second = receipt (pos 1) (some first_id) second_id (text "key")

abbrev chain : List Receipt
chain = first ∷ second ∷ []

accepted : (verify toy chain trusted).is_ok ≡ true
unfolding verify ueg.Ledger.verify_from ueg.Ledger.check_receipt ueg.Common.is_hex64 text
    ueg.Common.is_hex compute_id ueg.Canon.hash_jcs ueg.Ledger.core ueg.Canon.object ueg.Canon.items
    ueg.Common.text_eq ueg.Tests.Toy.sum ueg.Common.utf8 ueg.Common.lookup ueg.Keys.verify_b64
    ueg.Ledger.check_link ueg.Canon.decimal ueg.Canon.encode ueg.Canon.encode_string
    ueg.Canon.escape ueg.Canon.escape_rune ueg.Canon.format_int ueg.Canon.hex_digit
    ueg.Common.utf8_rune ueg.Common.same_optional ueg.Ledger.fail ueg.Ledger.text_values
accepted = refl

verify_iff_example : ((verify toy chain trusted).is_ok ≡ true) ↔ IsChain toy trusted chain
verify_iff_example = verify_iff toy trusted chain

verify-linked_at_example : second.prev_receipt_id ≡ some first.receipt_id
verify-linked_at_example = verify-linked_at toy trusted chain 0 first second accepted refl refl

-- A request with a number as encoding/json reads it, of a receipt that holds its hash.
abbrev request_hash : Text
request_hash = text "af24" ++ repeat 60 b'0'

abbrev stored : Petition
stored =
    (text "action", str (text "execute"))
    ∷ (text "duration_ms", number (text "5"))
    ∷ (text "petition_hash", str request_hash)
    ∷ (text "receipt_id", str first_id)
    ∷ []

abbrev answered : Receipt
answered = record first { petition_hash = request_hash }

-- The request is accepted.
stored_accepted : (verify_petitions toy (answered ∷ []) (stored ∷ [])).is_ok ≡ true
unfolding verify_petitions ueg.Ledger.Petitions.verify_petitions_from
    ueg.Ledger.Petitions.check_petition petition_digest ueg.Ledger.Petitions.normalize_numbers
    ueg.Ledger.Petitions.parse_int ueg.Ledger.Petitions.magnitude ueg.Ledger.Petitions.digits_value
    ueg.Ledger.Petitions.claimed_hash ueg.Ledger.Petitions.named_receipt
    ueg.Ledger.Petitions.petition_body ueg.Ledger.Petitions.receipt_by_id text ueg.Canon.hash_jcs
    ueg.Canon.object ueg.Common.text_eq ueg.Tests.Toy.sum ueg.Common.utf8 ueg.Common.lookup
    ueg.Canon.decimal ueg.Canon.encode ueg.Canon.encode_string ueg.Canon.escape
    ueg.Canon.escape_rune ueg.Canon.format_int ueg.Canon.hex_digit ueg.Canon.hex
    ueg.Canon.sha256_hex ueg.Common.utf8_rune ueg.Ledger.fail
stored_accepted = refl

verify_petitions_iff_example :
    ((verify_petitions toy (answered ∷ []) (stored ∷ [])).is_ok ≡ true) ↔ (
      (length (answered ∷ []) ≡ length (stored ∷ []))
      × AreBound toy (answered ∷ []) [] (stored ∷ []))
verify_petitions_iff_example = verify_petitions_iff toy (answered ∷ []) (stored ∷ [])
