-- ===== src/Identity/Mutation.antt =====
-- lifecycle.go, NewLifecycleRecord and signRecord: how the records of an identity are made and signed.
-- State.Epochs with no entry, where NewLifecycleRecord would stop on a nil epoch, is refused with
-- no_epochs.
pub mod Creation
pub mod Signed
use ueg.Common.{
  ℕ, zero, suc, Bool, true, false, not, ◌&&◌, ◌||◌, List, [], ◌∷◌, Option, none, some, Result, ok,
  err, ◌>>=◌, ◌>>◌, refuse_if, or_fail, map_err, ℤ, pos, int_succ, lt_int, Text, text, trim_space,
  is_some, lookup, ◌==◌, ◌!=◌, int_Eq, text_Eq, if◌then◌else◌,
}
use ueg.Crypto.{Crypto}
use ueg.Keys.{Pair, key_id, public_pem, validate_key_id}
use ueg.Identity.{
  Status, Action, Genesis, GenesisPolicy, LedgerBoundary, PreviousEpoch, LifecycleRecord,
  EpochState, State, Error, status_Eq, active_of,
}
use ueg.Identity.Records.{
  genesis_schema, lifecycle_schema, protocol_version_text, genesis_domain, record_domain,
  genesis_signed, record_signed, validate_boundary, validate_reason, needs_retiring, needs_proof,
  is_ok, sign_domain, compute_identity_id, compute_record_digest,
}
use ueg.Identity.Lifecycle.{latest_epoch_number}

pub record MutationRequest : Type 0 where
  pub action : Action
  pub reason_code : Text
  pub boundary : LedgerBoundary
  pub evidence_anchor_digest : Option Text

-- A record to be signed, the pair it makes operational, and the pair that retires.
pub record Change : Type 0 where
  pub drafted : LifecycleRecord
  pub subject : Option Pair
  pub retiring : Option Pair

abbrev pub proof_pair : Action → Option Pair → Option Pair
proof_pair Action.revoke subject = none
proof_pair _ subject = subject

abbrev pub genesis_reason : Action → Text
genesis_reason Action.migration = text "LEGACY_IDENTITY_ENROLLED"
genesis_reason _ = text "IDENTITY_INITIALIZED"

abbrev pub is_first_action : Action → Bool
is_first_action Action.genesis = true
is_first_action Action.migration = true
is_first_action _ = false

-- What every lifecycle record starts as.
unfoldable pub draft : State → MutationRequest → LifecycleRecord
draft s q = record {
  schema = lifecycle_schema;
  protocol_version = protocol_version_text;
  identity_id = s.genesis.identity_id;
  lifecycle_sequence = int_succ s.last_sequence;
  previous_record_digest = some s.last_record_digest;
  action = q.action;
  epoch_number = pos 0;
  operational_key_id = [];
  operational_public_key_pem = [];
  operational_status = Status.other [];
  ledger_boundary = q.boundary;
  previous_epoch = none;
  evidence_anchor_digest = q.evidence_anchor_digest;
  reason_code = q.reason_code;
  record_digest = [];
  recovery_signature_b64 = [];
  retiring_signature_b64 = none;
  operational_proof_b64 = none;
}

abbrev pub closing : EpochState → Status → LedgerBoundary → Option PreviousEpoch
closing e status boundary = some (record {
  epoch_number = e.epoch_number;
  operational_key_id = e.operational_key_id;
  operational_status = status;
  final_ledger_boundary = boundary;
})

module _ (c : Crypto) where
  abbrev pub controls : Option Pair → Text → Bool
  controls none id = false
  controls (some p) id = is_ok (validate_key_id c p id false)

  -- The active epoch, if the pair is its key.
  abbrev pub controlled : Option EpochState → Option Pair → Error → Result Error EpochState
  controlled none current e = err e
  controlled (some active) current e =
      if controls current active.operational_key_id then ok active else err e

  unfoldable pub change_rotate :
      State → Option Pair → Option Pair → MutationRequest → Result Error Change
  unfolding draft
  change_rotate s current new q = do
    active ← controlled (active_of s) current Error.rotation_key
    refuse_if (not (is_some new)) Error.rotation_new_key
    ok (record {
      drafted = record (draft s q) {
        previous_epoch = closing active Status.retired q.boundary;
        epoch_number = int_succ active.epoch_number;
        operational_status = Status.active;
      };
      subject = new;
      retiring = current;
    })

  unfoldable pub change_recover :
      State → EpochState → Option Pair → MutationRequest → Result Error Change
  unfolding draft
  change_recover s latest new q = do
    refuse_if (not (is_some new)) Error.recovery_new_key
    ok (record {
      drafted = record (draft s q) {
        previous_epoch = closing latest Status.revoked q.boundary;
        epoch_number = int_succ latest.epoch_number;
        operational_status = Status.active;
      };
      subject = new;
      retiring = none;
    })

  unfoldable pub change_suspend : State → Option Pair → MutationRequest → Result Error Change
  unfolding draft
  change_suspend s current q = do
    active ← controlled (active_of s) current Error.suspension_key
    ok (record {
      drafted = record (draft s q) {
        epoch_number = active.epoch_number;
        operational_status = Status.suspended;
      };
      subject = current;
      retiring = current;
    })

  unfoldable pub change_resume :
      State → EpochState → Option Pair → MutationRequest → Result Error Change
  unfolding draft
  change_resume s latest current q = do
    refuse_if
        (is_some (active_of s)
          || latest.status != Status.suspended
          || not (controls current latest.operational_key_id))
        Error.resumption_key
    ok (record {
      drafted = record (draft s q) {
        epoch_number = latest.epoch_number;
        operational_status = Status.active;
      };
      subject = current;
      retiring = none;
    })

  unfoldable pub change_revoke : State → EpochState → MutationRequest → Result Error Change
  unfolding draft
  change_revoke s latest q = do
    refuse_if (latest.status == Status.retired || latest.status == Status.revoked)
        Error.already_final
    ok (record {
      drafted = record (draft s q) {
        epoch_number = latest.epoch_number;
        operational_status = Status.revoked;
      };
      subject = lookup latest.operational_key_id s.trust;
      retiring = none;
    })

  -- The switch on the action.
  unfoldable pub change_for :
      Action
      → State
      → EpochState
      → Option Pair
      → Option Pair
      → MutationRequest
      → Result Error Change
  change_for Action.rotate s latest current new q = change_rotate s current new q
  change_for Action.recover s latest current new q = change_recover s latest new q
  change_for Action.suspend s latest current new q = change_suspend s current q
  change_for Action.resume s latest current new q = change_resume s latest current q
  change_for Action.revoke s latest current new q = change_revoke s latest q
  change_for Action.genesis s latest current new q = err Error.unsupported_action
  change_for Action.migration s latest current new q = err Error.unsupported_action
  change_for (Action.other name) s latest current new q = err Error.unsupported_action

  unfoldable pub sign_root : LifecycleRecord → Pair → Result Error LifecycleRecord
  sign_root r root = do
    signature ← sign_domain c root record_domain (record_signed r)
    ok (record r { recovery_signature_b64 = signature })

  unfoldable pub sign_retiring : LifecycleRecord → Option Pair → Result Error LifecycleRecord
  sign_retiring r retiring =
      if needs_retiring r.action
      then (do
        pair ← or_fail retiring Error.retiring_required
        signature ← sign_domain c pair record_domain (record_signed r)
        ok (record r { retiring_signature_b64 = some signature }))
      else ok r

  unfoldable pub sign_proof : LifecycleRecord → Option Pair → Result Error LifecycleRecord
  sign_proof r operational =
      if needs_proof r.action
      then (do
        pair ← or_fail operational Error.proof_required
        signature ← sign_domain c pair record_domain (record_signed r)
        ok (record r { operational_proof_b64 = some signature }))
      else ok r

  unfoldable pub sign_record :
      LifecycleRecord → Pair → Option Pair → Option Pair → Result Error LifecycleRecord
  sign_record r root retiring operational = do
    digest ← or_fail (compute_record_digest c r) Error.not_canonical
    rooted ← sign_root (record r { record_digest = digest }) root
    retired ← sign_retiring rooted retiring
    sign_proof retired operational

  -- A change with the pair that it makes operational, signed.
  unfoldable pub finish : Change → Pair → Result Error LifecycleRecord
  finish change root = do
    subject ← or_fail change.subject Error.subject_missing
    id ← map_err (λ _. Error.key_error) (key_id c subject)
    pem ← map_err (λ _. Error.key_error) (public_pem c subject)
    sign_record
        (record change.drafted { operational_key_id = id; operational_public_key_pem = pem }) root
        change.retiring (proof_pair change.drafted.action change.subject)

  unfoldable pub latest_epoch : State → Option EpochState
  latest_epoch s = elim (latest_epoch_number s.epochs) [ none ↦ none | some n ↦ lookup n s.epochs ]

  unfoldable pub new_lifecycle_record :
      State
      → Option Pair
      → Option Pair
      → Option Pair
      → MutationRequest
      → Result Error LifecycleRecord
  new_lifecycle_record s root current new q = do
    refuse_if (lt_int s.last_sequence (pos 0)) Error.state_required
    root_pair ← or_fail root Error.recovery_package
    refuse_if (not (controls root s.genesis.recovery_root_key_id)) Error.recovery_package
    refuse_if (not (validate_boundary q.boundary)) Error.record_boundary
    refuse_if (not (validate_reason q.reason_code)) Error.record_reason
    latest ← or_fail (latest_epoch s) Error.no_epochs
    change ← change_for q.action s latest current new q
    finish change root_pair
