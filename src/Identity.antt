-- ===== src/Identity.antt =====
-- internal/identity/types.go: the identity authority, lifecycle records and the state derived from
-- them. Records and epochs are never nil in the model; a pointer to a text is an optional text.
pub mod Records
pub mod Lifecycle
pub mod Mutation
pub mod Artifacts
pub mod Storage
use ueg.Common.{
  ℕ, ◌≡◌, refl, ◌↔◌, Bool, true, false, ◌&&◌, List, Option, ℤ, Text, text, text_eq, text_eq_iff, Eq,
  ◌==◌, int_Eq, text_Eq, same_optional, none, some, lookup, arith,
}
use ueg.Keys.{Pair}

-- The Status constants; `other` is any other text.
pub data Status : Type 0 where
  active retired suspended revoked : Status
  other : Text → Status

-- The Action constants; `other` is any other text.
pub data Action : Type 0 where
  genesis migration rotate recover suspend resume revoke : Action
  other : Text → Action

abbrev pub status_eq : Status → Status → Bool
status_eq Status.active Status.active = true
status_eq Status.retired Status.retired = true
status_eq Status.suspended Status.suspended = true
status_eq Status.revoked Status.revoked = true
status_eq (Status.other a) (Status.other b) = text_eq a b
status_eq _ _ = false

pub status_eq_iff : (a b : Status) → (status_eq a b ≡ true) ↔ (a ≡ b)
status_eq_iff (Status.other a) (Status.other b) = ground (arith, text_eq_iff a b)
status_eq_iff Status.active b = ground arith
status_eq_iff Status.retired b = ground arith
status_eq_iff Status.suspended b = ground arith
status_eq_iff Status.revoked b = ground arith
status_eq_iff (Status.other a) b = ground arith

instance abbrev pub status_Eq : Eq Status
status_Eq = record { beq = status_eq; beq_iff = status_eq_iff }

pub record GenesisPolicy : Type 0 where
  pub one_active_operational_key : Bool
  pub concurrent_signing : Bool
  pub recovery_root_rotation : Bool

pub record Genesis : Type 0 where
  pub schema : Text
  pub protocol_version : Text
  pub identity_nonce_b64 : Text
  pub recovery_root_key_id : Text
  pub recovery_root_public_key_pem : Text
  pub epoch_zero_key_id : Text
  pub epoch_zero_public_key_pem : Text
  pub canonicalization : Text
  pub genesis_policy : GenesisPolicy
  pub advisory_label : Text
  pub identity_id : Text
  pub recovery_signature_b64 : Text
  pub epoch_zero_proof_b64 : Text

pub record LedgerBoundary : Type 0 where
  pub sequence_no : ℤ
  pub receipt_id : Option Text

pub record PreviousEpoch : Type 0 where
  pub epoch_number : ℤ
  pub operational_key_id : Text
  pub operational_status : Status
  pub final_ledger_boundary : LedgerBoundary

pub record LifecycleRecord : Type 0 where
  pub schema : Text
  pub protocol_version : Text
  pub identity_id : Text
  pub lifecycle_sequence : ℤ
  pub previous_record_digest : Option Text
  pub action : Action
  pub epoch_number : ℤ
  pub operational_key_id : Text
  pub operational_public_key_pem : Text
  pub operational_status : Status
  pub ledger_boundary : LedgerBoundary
  pub previous_epoch : Option PreviousEpoch
  pub evidence_anchor_digest : Option Text
  pub reason_code : Text
  pub record_digest : Text
  pub recovery_signature_b64 : Text
  pub retiring_signature_b64 : Option Text
  pub operational_proof_b64 : Option Text

pub record AuthorizationWindow : Type 0 where
  pub start_after : LedgerBoundary
  pub end_at : Option LedgerBoundary

pub record EpochState : Type 0 where
  pub epoch_number : ℤ
  pub operational_key_id : Text
  pub operational_public_pem : Text
  pub status : Status
  pub windows : List AuthorizationWindow
  pub known_good_anchor : Option Text

-- `active_epoch` is a key of `epochs`; `active_pair` is there for signing opens.
pub record State : Type 0 where
  pub home : Text
  pub genesis : Genesis
  pub records : List LifecycleRecord
  pub epochs : List (ℤ × EpochState)
  pub trust : List (Text × Pair)
  pub recovery_public : Pair
  pub active_epoch : Option ℤ
  pub active_pair : Option Pair
  pub last_sequence : ℤ
  pub last_record_digest : Text
  pub pending_mutation : Bool

-- Errors of the package, named for their messages; `at_sequence` is the wrapping of DeriveState.
pub data Error : Type 0 where
  genesis_fields genesis_nonce genesis_recovery_root genesis_epoch_zero : Error
  genesis_digest genesis_recovery_signature genesis_epoch_zero_proof : Error
  record_count : Error
  sequence_mismatch broken_record_chain boundary_backward : ℕ → Error
  public_key : ℕ → Error
  at_sequence : ℕ → Error → Error
  record_fields record_boundary record_reason anchor_digest : Error
  operational_fingerprint record_digest_mismatch recovery_signature : Error
  retiring_signature unauthorized_retiring operational_proof unauthorized_proof : Error
  genesis_record genesis_not_empty : Error
  not_successor not_previous_epoch rotation_not_active recovery_not_current : Error
  recovery_not_revoking key_reused suspension_refused resumption_refused : Error
  revocation_refused unknown_action no_epochs : Error
  state_required recovery_package rotation_key rotation_new_key recovery_new_key : Error
  suspension_key resumption_key already_final unsupported_action subject_missing : Error
  retiring_required proof_required not_canonical key_error : Error

unfoldable pub equal_boundary : LedgerBoundary → LedgerBoundary → Bool
equal_boundary l r = l.sequence_no == r.sequence_no && same_optional l.receipt_id r.receipt_id

-- State.Active: the entry of the active epoch, which a derived state has.
unfoldable pub active_of : State → Option EpochState
unfolding lookup
active_of s = elim s.active_epoch [ none ↦ none | some n ↦ lookup n s.epochs ]
