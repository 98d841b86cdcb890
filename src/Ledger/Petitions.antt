-- ===== src/Ledger/Petitions.antt =====
-- ledger.go, VerifyPetitions: the stored requests against the receipts that name their hashes.
pub mod Bound
use ueg.Common.{
  ℕ, zero, suc, ◌+◌, ◌-◌, ◌*◌, Bool, true, false, not, ◌&&◌, ◌||◌, List, [], ◌∷◌, Option, none,
  some, Result, ok, err, ◌>>=◌, ◌>>◌, refuse_if, or_fail, ℤ, pos, negsuc, max_int, Text, text,
  length, any, leb, ◌==◌, ◌!=◌, lookup, text_Eq, nat_Eq, nat_eq, if◌then◌else◌,
}
use ueg.Crypto.{Crypto}
use ueg.Canon.{
  Value, Items, Fields, null, bool, int, str, strs, arr, obj, float, number, unsupported, nil, cons,
  end, field, object, hash_jcs,
}
use ueg.Ledger.{
  Receipt, Petition, Finding, VerifyResult, fail, fresh_result, petition_not_canonicalizable,
  petition_changed, missing_petition_hash, duplicate_petition, orphan_petition, other_petition_hash,
  count_mismatch,
}

-- strconv.ParseInt in base 10 with 64 bits, which json.Number.Int64 calls.
abbrev pub is_digit : ℕ → Bool
is_digit r = leb b'0' r && leb r b'9'

unfoldable pub digits_value : ℕ → Text → Option ℕ
digits_value acc [] = some acc
digits_value acc (r ∷ s) =
    let rest = digits_value (10 * acc + (r - b'0')) s in if is_digit r then rest else none

unfoldable pub magnitude : Text → Option ℕ
magnitude [] = none
magnitude (r ∷ s) = digits_value 0 (r ∷ s)

abbrev pub positive_value : Option ℕ → Option ℤ
positive_value none = none
positive_value (some n) = if leb n max_int then some (pos n) else none

abbrev pub negative_value : Option ℕ → Option ℤ
negative_value none = none
negative_value (some zero) = some (pos 0)
negative_value (some (suc n)) = if leb n max_int then some (negsuc n) else none

unfoldable pub parse_int : Text → Option ℤ
unfolding magnitude
parse_int [] = none
parse_int (r ∷ s) =
    if nat_eq r b'-'
    then negative_value (magnitude s)
    else if nat_eq r b'+'
    then positive_value (magnitude s)
    else positive_value (magnitude (r ∷ s))

-- A number that is no integer stays as its text.
abbrev pub normal_number : Text → Option ℤ → Value
normal_number s none = str s
normal_number s (some n) = int n

unfoldable mutual
  unfolding parse_int

  pub normalize_numbers : Value → Value
  normalize_numbers (arr xs) = arr (normalize_items xs)
  normalize_numbers (obj fs) = obj (normalize_fields fs)
  normalize_numbers (float n) = int n
  normalize_numbers (number s) = normal_number s (parse_int s)
  normalize_numbers null = null
  normalize_numbers (bool b) = bool b
  normalize_numbers (int n) = int n
  normalize_numbers (str s) = str s
  normalize_numbers (strs l) = strs l
  normalize_numbers unsupported = unsupported

  pub normalize_items : Items → Items
  normalize_items nil = nil
  normalize_items (cons x xs) = cons (normalize_numbers x) (normalize_items xs)

  pub normalize_fields : Fields → Fields
  normalize_fields end = end
  normalize_fields (field k v fs) = field k (normalize_numbers v) (normalize_fields fs)

-- `p[key].(string)`, empty where there is none.
abbrev pub text_or_empty : Option Value → Text
text_or_empty (some (str s)) = s
text_or_empty _ = []

unfoldable pub claimed_hash : Petition → Text
claimed_hash p = text_or_empty (lookup (text "petition_hash") p)

unfoldable pub named_receipt : Petition → Text
named_receipt p = text_or_empty (lookup (text "receipt_id") p)

-- The request without what Append added to it.
unfoldable pub petition_body : Petition → Petition
petition_body [] = []
petition_body ((k, v) ∷ p) =
    let rest = petition_body p in
    if k == text "petition_hash" || k == text "receipt_id" then rest else (k, v) ∷ rest

-- The map of receipts by id: of two with one id the later one is kept.
unfoldable pub receipt_by_id : List Receipt → Text → Option Receipt
receipt_by_id [] id = none
receipt_by_id (r ∷ rs) id = elim (receipt_by_id rs id) [
  | some s ↦ some s
  | none ↦ if r.receipt_id == id then some r else none
]

module _ (c : Crypto) where
  unfoldable pub petition_digest : Petition → Option Text
  petition_digest p = hash_jcs c (normalize_numbers (object (petition_body p)))

  -- One round of the loop of VerifyPetitions.
  unfoldable pub check_petition : List Receipt → List Text → Petition → Result Finding (Unit {0})
  check_petition receipts seen p = do
    h ← or_fail (petition_digest p) petition_not_canonicalizable
    refuse_if (claimed_hash p != h) (petition_changed (claimed_hash p))
    refuse_if (claimed_hash p == []) missing_petition_hash
    refuse_if (named_receipt p == [] || any (λ id. id == named_receipt p) seen)
        (duplicate_petition (named_receipt p))
    r ← or_fail (receipt_by_id receipts (named_receipt p)) (orphan_petition (named_receipt p))
    refuse_if (r.petition_hash != claimed_hash p) (other_petition_hash (named_receipt p))

  unfoldable pub verify_petitions_from :
      List Receipt → List Text → VerifyResult → List Petition → VerifyResult
  verify_petitions_from receipts seen v [] = v
  verify_petitions_from receipts seen v (p ∷ ps) = elim (check_petition receipts seen p) [
    | err f ↦ fail v f
    | ok _ ↦
        verify_petitions_from receipts (named_receipt p ∷ seen)
          (record v { checked = suc v.checked }) ps
  ]

  unfoldable pub verify_petitions : List Receipt → List Petition → VerifyResult
  verify_petitions receipts petitions =
      if length receipts != length petitions
      then fail fresh_result (count_mismatch (length receipts) (length petitions))
      else verify_petitions_from receipts [] fresh_result petitions
