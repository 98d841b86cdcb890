-- ===== src/Tests/Wires.antt =====
-- A toy for encoding/json, of a receipt's line, a request's line and a pending record.
use ueg.Common.{
  ◌⊎◌, lookup, ℕ, ◌≡◌, refl, Bool, true, false, List, [], ◌∷◌, ◌++◌, Option, none, some, Result, ok,
  err, ℤ, pos, Text, text, ◌==◌, text_Eq, if◌then◌else◌,
}
use ueg.Canon.{Fields, field, end, null, str, obj}
use ueg.Keys.{Pair}
use ueg.Ledger.{Receipt, Petition}
use ueg.Strictjson.{Json, Lexed, Token, Delim, token, delim, string, scalar, validate, valid_after}
use ueg.Strictjson.Trees.{Tree, flatten, IsStrict}
use ueg.Strictjson.Trees.{member, leaf}
use ueg.Strictjson.Trees
use ueg.Strictjson.Complete.{IsValue, IsStrict-validate}
use ueg.Strictjson.Accepted.{validate-IsStrict}
use ueg.Ledger.Parse.{Wire, PendingPair, parse_receipt_strict, parse_petition, keys_of, object_at}
use ueg.Ledger.Parse
use ueg.Ledger.Parse.Exact.{clean, IsExactly, parse_receipt_strict-IsStrict}
use ueg.Tests.Toy.{receipt, repeat}

abbrev pub the_pair : Pair
the_pair = record { private = repeat 64 1; public = repeat 32 2 }

abbrev pub the_key : Text
the_key = text "ueg:sha256:4020" ++ repeat 60 b'0'

abbrev pub the_hash : Text
the_hash = text "2b14" ++ repeat 60 b'0'

abbrev pub the_id : Text
the_id = text "4a28" ++ repeat 60 b'0'

abbrev pub the_receipt : Receipt
the_receipt = record (receipt (pos 0) none the_id the_key) { petition_hash = the_hash }

abbrev pub receipt_line : List ℕ
receipt_line = b'r' ∷ []

abbrev pub petition_line : List ℕ
petition_line = b'p' ∷ []

abbrev pub the_pending : PendingPair
the_pending = record { receipt_line = receipt_line; petition_line = petition_line }

-- An object with a key, of a value with no parts.
abbrev tokens : List Lexed
tokens =
    token (delim Delim.open_object)
    ∷ token (string (text "a"))
    ∷ token scalar
    ∷ token (delim Delim.close_object)
    ∷ []

abbrev summary_fields : Fields
summary_fields =
    field (text "action") null (field (text "surface") null (field (text "target") null end))

abbrev receipt_fields : Fields
receipt_fields = field (text "actor") null (
    field (text "adapter_degraded") null (
      field (text "admission_outcome") null (
        field (text "clause_ids") null (
          field (text "engine_version") null (
            field (text "evaluation_hash") null (
              field (text "expression_outcome") null (
                field (text "passport_ref") null (
                  field (text "petition_hash") null (
                    field (text "petition_summary") (obj summary_fields) (
                      field (text "policy_hash") null (
                        field (text "prev_receipt_id") null (
                          field (text "receipt_id") null (
                            field (text "sequence_no") null (
                              field (text "signature_b64") null (
                                field (text "signing_key_id") null (
                                  field (text "time_source") null
                                    (field (text "timestamp_iso8601") null end)))))))))))))))))

abbrev pub the_petition : Petition
the_petition =
    (text "action", str (text "execute"))
    ∷ (text "petition_hash", str the_hash)
    ∷ (text "receipt_id", str the_id)
    ∷ []

abbrev petition_fields : Fields
petition_fields =
    field (text "action") (str (text "execute"))
      (field (text "petition_hash") (str the_hash) (field (text "receipt_id") (str the_id) end))

abbrev pub wire : Wire
wire = record {
  json = record {
    tokens = λ line. tokens;
    decode =
        λ line. some (if line == receipt_line then obj receipt_fields else obj petition_fields);
  };
  read_receipt = λ line. some the_receipt;
  read_pending = λ line. some the_pending;
}

validate-IsStrict_example :
    (valid_after 0 receipt_line ≡ true) × (t : Tree) × (tokens ≡ flatten t []) × IsStrict t
unfolding validate valid_after ueg.Common.decode_rune ueg.Strictjson.scan_value
validate-IsStrict_example = validate-IsStrict wire.json receipt_line refl

pub receipt_parsed : parse_receipt_strict wire receipt_line ≡ ok the_receipt
unfolding parse_receipt_strict ueg.Strictjson.unmarshal validate valid_after ueg.Common.decode_rune
    ueg.Strictjson.scan_value ueg.Common.text_eq ueg.Ledger.Parse.exact_keys
    ueg.Ledger.Parse.entries ueg.Common.lookup
receipt_parsed = refl

parse_receipt_strict-IsStrict_example :
    ((t : Tree) × (tokens ≡ flatten t []) × IsStrict t)
    × (wire.read_receipt receipt_line ≡ some the_receipt)
    × ((m s : Petition) × (parse_petition wire receipt_line ≡ ok m)
        × (object_at (lookup (text "petition_summary") m) ≡ some s)
        × ((clean (keys_of m) ≡ false) ⊎ IsExactly m ueg.Ledger.Parse.receipt_fields)
        × ((clean (keys_of s) ≡ false) ⊎ IsExactly s ueg.Ledger.Parse.summary_fields))
parse_receipt_strict-IsStrict_example =
    parse_receipt_strict-IsStrict wire receipt_line the_receipt receipt_parsed

IsStrict-validate_example : validate wire.json receipt_line ≡ ok tt
unfolding valid_after ueg.Common.decode_rune flatten IsStrict IsValue ueg.Common.decode_two
    ueg.Common.decode_three ueg.Common.decode_four text
IsStrict-validate_example =
    IsStrict-validate wire.json receipt_line (Trees.object (member (text "a") leaf Trees.end)) refl
      refl (tt, tt, tt) (tt, tt)
