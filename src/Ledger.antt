-- ===== src/Ledger.antt =====
-- internal/ledger/ledger.go: receipts, stored requests, and the checks of a chain. A finding is a
-- constructor with the values that its message prints. Receipts are never nil in the model.
pub mod Petitions
pub mod Home
pub mod Append
pub mod Parse
pub mod Recovery
pub mod Open
pub mod Chain
pub mod Verified
pub mod Authority
use ueg.Common.{
  ℕ, zero, suc, ◌+◌, ◌≡◌, Bool, true, false, not, ◌&&◌, ◌||◌, List, [], ◌∷◌, ◌++◌, Option, none,
  some, Result, ok, err, ◌>>=◌, ◌>>◌, refuse_if, or_fail, ℤ, pos, negsuc, lt_int, le_int, minus_one,
  Text, text, utf8, is_hex64, length, any, is_some, leb, ltb, last?, ◌==◌, ◌!=◌, same_optional,
  lookup, insert, int_Eq, text_Eq, nat_Eq, nat_eq, if◌then◌else◌, max_int, get_elem?,
}
use ueg.Crypto.{Crypto}
use ueg.Canon.{
  Value, Items, Fields, null, bool, int, str, arr, obj, object, items, float, number, hash_jcs,
}
use ueg.Keys.{Pair, verify_b64, legacy_key_id}
use ueg.Identity.{
  Status, LedgerBoundary, LifecycleRecord, AuthorizationWindow, EpochState, State, status_Eq,
}

pub record PetitionSummary : Type 0 where
  pub surface : Text
  pub action : Text
  pub target : Text

pub record Receipt : Type 0 where
  pub receipt_id : Text
  pub prev_receipt_id : Option Text
  pub sequence_no : ℤ
  pub timestamp_iso8601 : Text
  pub time_source : Text
  pub actor : Text
  pub adapter_degraded : Bool
  pub petition_hash : Text
  pub petition_summary : PetitionSummary
  pub admission_outcome : Text
  pub expression_outcome : Text
  pub policy_hash : Text
  pub engine_version : Text
  pub clause_ids : List Text
  pub evaluation_hash : Text
  pub passport_ref : Option Text
  pub signing_key_id : Text
  pub signature_b64 : Text

-- A stored request: the map of its fields.
abbrev pub Petition : Type 0
Petition = List (Text × Value)

abbrev pub Trust : Type 0
Trust = List (Text × Pair)

-- The map that `receipt_id` is taken over: all fields but the id and the signature.
abbrev pub opt_text : Option Text → Value
opt_text none = null
opt_text (some s) = str s

unfoldable pub text_values : List Text → List Value
text_values [] = []
text_values (s ∷ l) = str s ∷ text_values l

unfoldable pub core : Receipt → Value
unfolding text text_values
core r = object (
    (text "actor", str r.actor)
    ∷ (text "adapter_degraded", bool r.adapter_degraded)
    ∷ (text "admission_outcome", str r.admission_outcome)
    ∷ (text "clause_ids", arr (items (text_values r.clause_ids)))
    ∷ (text "engine_version", str r.engine_version)
    ∷ (text "evaluation_hash", str r.evaluation_hash)
    ∷ (text "expression_outcome", str r.expression_outcome)
    ∷ (text "passport_ref", opt_text r.passport_ref)
    ∷ (text "petition_hash", str r.petition_hash)
    ∷ (
      text "petition_summary",
      object (
          (text "action", str r.petition_summary.action)
          ∷ (text "surface", str r.petition_summary.surface)
          ∷ (text "target", str r.petition_summary.target)
          ∷ []),
    )
    ∷ (text "policy_hash", str r.policy_hash)
    ∷ (text "prev_receipt_id", opt_text r.prev_receipt_id)
    ∷ (text "sequence_no", int r.sequence_no)
    ∷ (text "signing_key_id", str r.signing_key_id)
    ∷ (text "time_source", str r.time_source)
    ∷ (text "timestamp_iso8601", str r.timestamp_iso8601)
    ∷ [])

pub data Finding : Type 0 where
  out_of_order : ℤ → ℕ → Finding
  malformed_id duplicate_id not_canonicalizable contents_changed : ℤ → Finding
  untrusted_key bad_signature broken_link : ℤ → Finding
  first_has_previous : Finding
  count_mismatch : ℕ → ℕ → Finding
  petition_not_canonicalizable missing_petition_hash : Finding
  petition_changed duplicate_petition orphan_petition other_petition_hash : Text → Finding
  lifecycle_missing : Finding
  receipt_id_at_empty not_a_boundary : ℤ → Finding
  not_an_epoch outside_window : ℤ → Finding

-- `is_ok` is the field OK.
pub record VerifyResult : Type 0 where
  pub is_ok : Bool
  pub checked : ℕ
  pub findings : List Finding

unfoldable pub fail : VerifyResult → Finding → VerifyResult
fail v f = record v { is_ok = false; findings = v.findings ++ f ∷ [] }

abbrev pub fresh_result : VerifyResult
fresh_result = record { is_ok = true; checked = 0; findings = [] }

-- The link of the receipt at index `i` to the id before it. An empty text is accepted at index 0.
unfoldable pub check_link : ℕ → Option Text → Receipt → Result Finding (Unit {0})
check_link zero prev r = elim r.prev_receipt_id [
  | none ↦ ok tt
  | some p ↦ refuse_if (p != []) first_has_previous
]
check_link (suc i) prev r =
    refuse_if
      (not (is_some r.prev_receipt_id)
        || not (is_some prev)
        || not (same_optional r.prev_receipt_id prev))
      (broken_link r.sequence_no)

module _ (c : Crypto) where
  unfoldable pub compute_id : Receipt → Option Text
  compute_id r = hash_jcs c (core r)

  -- One round of the loop of Verify, at index `i`.
  unfoldable pub check_receipt :
      Trust → ℕ → List Text → Option Text → Receipt → Result Finding (Unit {0})
  check_receipt trust i seen prev r = do
    refuse_if (r.sequence_no != pos i) (out_of_order r.sequence_no i)
    refuse_if (not (is_hex64 r.receipt_id)) (malformed_id r.sequence_no)
    refuse_if (any (λ id. id == r.receipt_id) seen) (duplicate_id r.sequence_no)
    expected ← or_fail (compute_id r) (not_canonicalizable r.sequence_no)
    refuse_if (expected != r.receipt_id) (contents_changed r.sequence_no)
    pair ← or_fail (lookup r.signing_key_id trust) (untrusted_key r.sequence_no)
    refuse_if (not (verify_b64 c pair (utf8 r.receipt_id) r.signature_b64))
        (bad_signature r.sequence_no)
    check_link i prev r

  unfoldable pub verify_from :
      Trust → ℕ → List Text → Option Text → VerifyResult → List Receipt → VerifyResult
  verify_from trust i seen prev v [] = v
  verify_from trust i seen prev v (r ∷ rs) = elim (check_receipt trust i seen prev r) [
    | err f ↦ fail v f
    | ok _ ↦
        verify_from trust (suc i) (r.receipt_id ∷ seen) (some r.receipt_id)
          (record v { checked = suc v.checked }) rs
  ]

  unfoldable pub verify : List Receipt → Trust → VerifyResult
  verify receipts trust = verify_from trust 0 [] none fresh_result receipts

-- Whether one of an epoch's windows holds the sequence number.
unfoldable pub in_window : AuthorizationWindow → ℤ → Bool
in_window w sequence =
    not (le_int sequence w.start_after.sequence_no)
    && elim w.end_at [ none ↦ true | some b ↦ le_int sequence b.sequence_no ]

unfoldable pub sequence_authorized_in : List AuthorizationWindow → ℤ → Bool
sequence_authorized_in [] sequence = false
sequence_authorized_in (w ∷ ws) sequence =
    in_window w sequence || sequence_authorized_in ws sequence

unfoldable pub sequence_authorized : EpochState → ℤ → Bool
sequence_authorized e sequence = sequence_authorized_in e.windows sequence

-- The receipt id at a position that a boundary names.
abbrev pub id_at : List Receipt → ℤ → Option Text
id_at receipts (negsuc n) = none
id_at receipts (pos n) = elim (get_elem? receipts n) [ none ↦ none | some r ↦ some r.receipt_id ]

unfoldable pub check_boundary : List Receipt → LifecycleRecord → Result Finding (Unit {0})
check_boundary receipts r =
    if r.ledger_boundary.sequence_no == minus_one
    then refuse_if (is_some r.ledger_boundary.receipt_id) (receipt_id_at_empty r.lifecycle_sequence)
    else refuse_if
        (not (is_some r.ledger_boundary.receipt_id)
          || not (
              same_optional (id_at receipts r.ledger_boundary.sequence_no)
                r.ledger_boundary.receipt_id))
        (not_a_boundary r.lifecycle_sequence)

unfoldable pub verify_lifecycle_boundaries :
    List Receipt → List LifecycleRecord → Result Finding (Unit {0})
verify_lifecycle_boundaries receipts [] = ok tt
verify_lifecycle_boundaries receipts (r ∷ rs) = do
  check_boundary receipts r
  verify_lifecycle_boundaries receipts rs

-- The map from operational keys to epochs; of two epochs with one key, one is kept.
unfoldable pub epoch_by_key : List (ℤ × EpochState) → Text → Option EpochState
epoch_by_key [] key = none
epoch_by_key ((n, e) ∷ m) key = if e.operational_key_id == key then some e else epoch_by_key m key

unfoldable pub check_authority : List (ℤ × EpochState) → List Receipt → Result Finding (Unit {0})
check_authority epochs [] = ok tt
check_authority epochs (r ∷ rs) = do
  epoch ← or_fail (epoch_by_key epochs r.signing_key_id) (not_an_epoch r.sequence_no)
  refuse_if (not (sequence_authorized epoch r.sequence_no)) (outside_window r.sequence_no)
  check_authority epochs rs

abbrev pub fail_on : VerifyResult → Result Finding (Unit {0}) → VerifyResult
fail_on v (ok _) = v
fail_on v (err f) = fail v f

module _ (c : Crypto) where
  -- The state is nil for a home that has no lifecycle.
  unfoldable pub verify_bplus : List Receipt → Option State → VerifyResult
  verify_bplus receipts none = record {
    is_ok = false;
    checked = 0;
    findings = lifecycle_missing ∷ [];
  }
  verify_bplus receipts (some s) =
      let v = verify c receipts s.trust in
      if v.is_ok
      then fail_on v
          (do verify_lifecycle_boundaries receipts s.records; check_authority s.epochs receipts)
      else v
