-- ===== src/Ledger/Parse.antt =====
-- parse.go: a receipt from its line, with exactly the fields of a receipt; and a stored request from
-- its line. How encoding/json fills a struct is a parameter.
pub mod Exact
use ueg.Common.{
  map_err-eq-ok, ℕ, ◌≡◌, List, [], ◌∷◌, Option, none, some, Result, ok, ◌>>=◌, ◌>>◌, refuse_if,
  or_fail, map_err, >>=-eq-ok, Text, text, join, any, lookup, ◌==◌, ◌!=◌, text_Eq, if◌then◌else◌,
}
use ueg.Canon.{Value, Fields, null, obj, field, end, text_lt}
use ueg.Strictjson.{Json, unmarshal, unmarshal_by, validate}
use ueg.Strictjson.Trees.{Tree, flatten, IsStrict}
use ueg.Strictjson.Accepted.{validate-IsStrict}
use ueg.Ledger.{Receipt, Petition}

-- A record that an interrupted write leaves: the two lines to write.
pub record PendingPair : Type 0 where
  pub receipt_line : List ℕ
  pub petition_line : List ℕ

-- encoding/json, with Decode into a struct of the program.
pub record Wire : Type 0 where
  pub json : Json
  pub read_receipt : List ℕ → Option Receipt
  pub read_pending : List ℕ → Option PendingPair

pub data Error : Type 0 where
  not_json : ueg.Strictjson.Error → Error
  not_an_object : Error
  -- The missing fields and the unexpected ones.
  other_fields : List Text → List Text → Error

unfoldable pub receipt_fields : List Text
unfolding text
receipt_fields =
    text "actor"
    ∷ text "adapter_degraded"
    ∷ text "admission_outcome"
    ∷ text "clause_ids"
    ∷ text "engine_version"
    ∷ text "evaluation_hash"
    ∷ text "expression_outcome"
    ∷ text "passport_ref"
    ∷ text "petition_hash"
    ∷ text "petition_summary"
    ∷ text "policy_hash"
    ∷ text "prev_receipt_id"
    ∷ text "receipt_id"
    ∷ text "sequence_no"
    ∷ text "signature_b64"
    ∷ text "signing_key_id"
    ∷ text "time_source"
    ∷ text "timestamp_iso8601"
    ∷ []

unfoldable pub summary_fields : List Text
unfolding text
summary_fields = text "action" ∷ text "surface" ∷ text "target" ∷ []

-- Decode into a map: null leaves it nil.
unfoldable pub entries : Fields → Petition
entries end = []
entries (field k v fs) = (k, v) ∷ entries fs

abbrev pub as_map : Value → Option Petition
as_map null = some []
as_map (obj fs) = some (entries fs)
as_map _ = none

unfoldable pub keys_of : Petition → List Text
keys_of [] = []
keys_of ((k, v) ∷ p) = k ∷ keys_of p

-- sort.Strings.
unfoldable pub insert_text : Text → List Text → List Text
unfolding text_lt
insert_text s [] = s ∷ []
insert_text s (t ∷ l) = if text_lt t s then t ∷ insert_text s l else s ∷ t ∷ l

unfoldable pub sort_texts : List Text → List Text
unfolding insert_text
sort_texts [] = []
sort_texts (s ∷ l) = insert_text s (sort_texts l)

-- The texts of one list that another does not have.
unfoldable pub absent_from : List Text → List Text → List Text
absent_from other [] = []
absent_from other (s ∷ l) =
    let rest = absent_from other l in if any (λ t. t == s) other then rest else s ∷ rest

unfoldable pub diff : List Text → List Text → List Text × List Text
unfolding absent_from
diff expected got = (absent_from got expected, absent_from expected got)

unfoldable pub exact_keys : Petition → List Text → Result Error (Unit {0})
unfolding keys_of sort_texts diff text join
exact_keys m want =
    let got = sort_texts (keys_of m) in
    let expected = sort_texts want in
    let (missing, extra) = diff expected got in
    refuse_if (join (text ",") got != join (text ",") expected) (other_fields missing extra)

-- `generic["petition_summary"].(map[string]any)`.
abbrev pub object_at : Option Value → Option Petition
object_at (some (obj fs)) = some (entries fs)
object_at _ = none

module _ (w : Wire) where
  -- Unmarshal into a map.
  unfoldable pub parse_petition : List ℕ → Result Error Petition
  parse_petition line = do
    v ← map_err not_json (unmarshal w.json line)
    or_fail (as_map v) not_an_object

  unfoldable pub parse_receipt_strict : List ℕ → Result Error Receipt
  unfolding text parse_petition receipt_fields summary_fields
  parse_receipt_strict line = do
    generic ← parse_petition line
    exact_keys generic receipt_fields
    summary ← or_fail (object_at (lookup (text "petition_summary") generic)) not_an_object
    exact_keys summary summary_fields
    map_err not_json (unmarshal_by w.json w.read_receipt line)
