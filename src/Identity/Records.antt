-- ===== src/Identity/Records.antt =====
-- internal/identity/crypto.go and the record functions of lifecycle.go: the canonical forms that
-- digests and signatures are taken over, signing, and the checks of one genesis or one record.
use ueg.Common.{
  ℕ, Bool, true, false, not, ◌&&◌, ◌||◌, List, [], ◌∷◌, ◌++◌, Option, none, some, Result, ok, err,
  ◌>>=◌, ◌>>◌, refuse_if, or_fail, map_err, pos, lt_int, minus_one, Text, text, utf8, trim_space,
  is_hex64, is_hex64_after, length, ltb, is_some, is_none, ◌==◌, ◌!=◌, int_Eq, text_Eq, nat_Eq,
  if◌then◌else◌,
}
use ueg.Crypto.{Crypto}
use ueg.Canon.{Value, null, bool, int, str, object, encode, hash_jcs}
use ueg.Keys.{Pair, sign_b64, verify_b64, validate_key_id}
use ueg.Identity.{Status, Action, Genesis, LedgerBoundary, PreviousEpoch, LifecycleRecord, Error}

abbrev pub protocol_version_text : Text
protocol_version_text = text "ueg-bplus/1"

abbrev pub genesis_schema : Text
genesis_schema = text "ueg.identity-genesis.v1"

abbrev pub lifecycle_schema : Text
lifecycle_schema = text "ueg.identity-lifecycle-record.v1"

abbrev pub genesis_domain : Text
genesis_domain = text "UEG-BPLUS-GENESIS-v1"

abbrev pub record_domain : Text
record_domain = text "UEG-BPLUS-LIFECYCLE-v1"

unfoldable pub status_text : Status → Text
unfolding text
status_text Status.active = text "ACTIVE"
status_text Status.retired = text "RETIRED"
status_text Status.suspended = text "SUSPENDED"
status_text Status.revoked = text "REVOKED"
status_text (Status.other s) = s

unfoldable pub action_text : Action → Text
unfolding text
action_text Action.genesis = text "GENESIS"
action_text Action.migration = text "MIGRATION"
action_text Action.rotate = text "ROTATE"
action_text Action.recover = text "RECOVER"
action_text Action.suspend = text "SUSPEND"
action_text Action.resume = text "RESUME"
action_text Action.revoke = text "REVOKE"
action_text (Action.other s) = s

-- A nil pointer is written as null.
abbrev pub opt_text : Option Text → Value
opt_text none = null
opt_text (some s) = str s

-- The members of a canonical object.
abbrev pub Members : Type 0
Members = List (Text × Value)

unfoldable pub genesis_core : Genesis → Members
unfolding text
genesis_core g =
    (text "advisory_label", str g.advisory_label)
    ∷ (text "canonicalization", str g.canonicalization)
    ∷ (text "epoch_zero_key_id", str g.epoch_zero_key_id)
    ∷ (text "epoch_zero_public_key_pem", str g.epoch_zero_public_key_pem)
    ∷ (
      text "genesis_policy",
      object (
          (text "concurrent_signing", bool g.genesis_policy.concurrent_signing)
          ∷ (text "one_active_operational_key", bool g.genesis_policy.one_active_operational_key)
          ∷ (text "recovery_root_rotation", bool g.genesis_policy.recovery_root_rotation)
          ∷ []),
    )
    ∷ (text "identity_nonce_b64", str g.identity_nonce_b64)
    ∷ (text "protocol_version", str g.protocol_version)
    ∷ (text "recovery_root_key_id", str g.recovery_root_key_id)
    ∷ (text "recovery_root_public_key_pem", str g.recovery_root_public_key_pem)
    ∷ (text "schema", str g.schema)
    ∷ []

unfoldable pub genesis_signed : Genesis → Members
unfolding text genesis_core
genesis_signed g = genesis_core g ++ (text "identity_id", str g.identity_id) ∷ []

unfoldable pub boundary_map : LedgerBoundary → Value
unfolding text
boundary_map b =
    object
      ((text "receipt_id", opt_text b.receipt_id) ∷ (text "sequence_no", int b.sequence_no) ∷ [])

unfoldable pub previous_epoch_map : Option PreviousEpoch → Value
unfolding text boundary_map status_text
previous_epoch_map none = null
previous_epoch_map (some p) = object (
    (text "epoch_number", int p.epoch_number)
    ∷ (text "final_ledger_boundary", boundary_map p.final_ledger_boundary)
    ∷ (text "operational_key_id", str p.operational_key_id)
    ∷ (text "operational_status", str (status_text p.operational_status))
    ∷ [])

unfoldable pub record_core : LifecycleRecord → Members
unfolding text boundary_map previous_epoch_map status_text action_text
record_core r =
    (text "action", str (action_text r.action))
    ∷ (text "epoch_number", int r.epoch_number)
    ∷ (text "evidence_anchor_digest", opt_text r.evidence_anchor_digest)
    ∷ (text "identity_id", str r.identity_id)
    ∷ (text "ledger_boundary", boundary_map r.ledger_boundary)
    ∷ (text "lifecycle_sequence", int r.lifecycle_sequence)
    ∷ (text "operational_key_id", str r.operational_key_id)
    ∷ (text "operational_public_key_pem", str r.operational_public_key_pem)
    ∷ (text "operational_status", str (status_text r.operational_status))
    ∷ (text "previous_epoch", previous_epoch_map r.previous_epoch)
    ∷ (text "previous_record_digest", opt_text r.previous_record_digest)
    ∷ (text "protocol_version", str r.protocol_version)
    ∷ (text "reason_code", str r.reason_code)
    ∷ (text "schema", str r.schema)
    ∷ []

unfoldable pub record_signed : LifecycleRecord → Members
unfolding text record_core
record_signed r = record_core r ++ (text "record_digest", str r.record_digest) ∷ []

unfoldable pub domain_payload : Text → Members → Option (List ℕ)
domain_payload domain m = elim (encode (object m)) [
  | none ↦ none
  | some canonical ↦ some (utf8 (domain ++ 0 ∷ []) ++ utf8 canonical)
]

abbrev pub some_hex64 : Option Text → Bool
some_hex64 none = false
some_hex64 (some id) = is_hex64 id

unfoldable pub validate_boundary : LedgerBoundary → Bool
validate_boundary b =
    if b.sequence_no == minus_one
    then is_none b.receipt_id
    else not (lt_int b.sequence_no (pos 0)) && some_hex64 b.receipt_id

-- `len` counts bytes.
unfoldable pub validate_reason : Text → Bool
validate_reason reason = trim_space reason != [] && not (ltb 128 (length (utf8 reason)))

unfoldable pub is_identity_id : Text → Bool
unfolding text
is_identity_id = is_hex64_after (text "ueg:identity:sha256:")

unfoldable pub is_key_id : Text → Bool
unfolding text
is_key_id = is_hex64_after (text "ueg:sha256:")

abbrev pub optional_hex64 : Option Text → Bool
optional_hex64 none = true
optional_hex64 (some s) = is_hex64 s

abbrev pub needs_retiring : Action → Bool
needs_retiring Action.rotate = true
needs_retiring Action.suspend = true
needs_retiring _ = false

abbrev pub needs_proof : Action → Bool
needs_proof Action.genesis = true
needs_proof Action.migration = true
needs_proof Action.rotate = true
needs_proof Action.recover = true
needs_proof Action.resume = true
needs_proof _ = false

abbrev pub is_ok : {E A : Type 0} → Result E A → Bool
is_ok (ok a) = true
is_ok (err e) = false

module _ (c : Crypto) where
  unfoldable pub sign_domain : Pair → Text → Members → Result Error Text
  sign_domain p domain m = do
    payload ← or_fail (domain_payload domain m) Error.not_canonical
    map_err (λ _. Error.key_error) (sign_b64 c p payload)

  unfoldable pub verify_domain : Pair → Text → Members → Text → Bool
  verify_domain p domain m signature = elim (domain_payload domain m) [
    | none ↦ false
    | some payload ↦ verify_b64 c p payload signature
  ]

  unfoldable pub compute_identity_id : Genesis → Option Text
  unfolding text genesis_core
  compute_identity_id g = elim (hash_jcs c (object (genesis_core g))) [
    | none ↦ none
    | some digest ↦ some (text "ueg:identity:sha256:" ++ digest)
  ]

  unfoldable pub compute_record_digest : LifecycleRecord → Option Text
  compute_record_digest r = hash_jcs c (object (record_core r))

  unfoldable pub validate_signature_encoding : Text → Bool
  validate_signature_encoding s = elim (c.base64_decode s) [
    | none ↦ false
    | some raw ↦ length raw == 64
  ]

  -- `validateSignatureEncoding(s) != nil || !verifyDomain(...)`, negated.
  abbrev pub signed_by : Pair → Text → Members → Text → Bool
  signed_by p domain m s = validate_signature_encoding s && verify_domain p domain m s

  abbrev pub signed_by_optional : Option Pair → LifecycleRecord → Option Text → Bool
  signed_by_optional none r s = false
  signed_by_optional (some p) r none = false
  signed_by_optional (some p) r (some s) = signed_by p record_domain (record_signed r) s

  unfoldable pub validate_retiring : LifecycleRecord → Option Pair → Result Error (Unit {0})
  validate_retiring r retiring =
      if needs_retiring r.action
      then refuse_if (not (signed_by_optional retiring r r.retiring_signature_b64))
          Error.retiring_signature
      else refuse_if (is_some r.retiring_signature_b64) Error.unauthorized_retiring

  unfoldable pub validate_proof : LifecycleRecord → Pair → Result Error (Unit {0})
  validate_proof r operational =
      if needs_proof r.action
      then refuse_if (not (signed_by_optional (some operational) r r.operational_proof_b64))
          Error.operational_proof
      else refuse_if (is_some r.operational_proof_b64) Error.unauthorized_proof

  unfoldable pub validate_record_basics :
      LifecycleRecord → Pair → Pair → Option Pair → Result Error (Unit {0})
  validate_record_basics r recovery operational retiring = do
    refuse_if
        (r.schema != lifecycle_schema
          || r.protocol_version != protocol_version_text
          || not (is_identity_id r.identity_id)
          || lt_int r.lifecycle_sequence (pos 0)
          || lt_int r.epoch_number (pos 0)
          || not (is_key_id r.operational_key_id)
          || not (is_hex64 r.record_digest))
        Error.record_fields
    refuse_if (not (validate_boundary r.ledger_boundary)) Error.record_boundary
    refuse_if (not (validate_reason r.reason_code)) Error.record_reason
    refuse_if (not (optional_hex64 r.evidence_anchor_digest)) Error.anchor_digest
    refuse_if (not (is_ok (validate_key_id c operational r.operational_key_id false)))
        Error.operational_fingerprint
    expected ← or_fail (compute_record_digest r) Error.record_digest_mismatch
    refuse_if (expected != r.record_digest) Error.record_digest_mismatch
    refuse_if (not (signed_by recovery record_domain (record_signed r) r.recovery_signature_b64))
        Error.recovery_signature
    validate_retiring r retiring
    validate_proof r operational
