-- ===== src/Identity/Lifecycle.antt =====
-- internal/identity/lifecycle.go: the transitions of an identity, and the state that a chain of
-- records derives. The `active` pointer of DeriveState is the key of the epoch it points to. The
-- source returns no state with an error, so a refused transition has no state here.
pub mod Windows
pub mod Shape
pub mod Steps
pub mod Marks
pub mod Invariant
pub mod Derive
pub mod Kept
use ueg.Common.{
  ℕ, zero, suc, Bool, true, false, not, ◌&&◌, ◌||◌, List, [], ◌∷◌, ◌++◌, Option, none, some, Result,
  ok, err, ◌>>=◌, ◌>>◌, refuse_if, or_fail, map_err, ℤ, pos, lt_int, le_int, int_succ, minus_one,
  Text, text, utf8, length, ltb, leb, is_some, is_none, ◌==◌, ◌!=◌, same_optional, lookup, insert,
  int_Eq, text_Eq, nat_Eq, if◌then◌else◌,
}
use ueg.Crypto.{Crypto}
use ueg.Keys.{Pair, load_public_pem_text, validate_key_id}
use ueg.Identity.{
  Status, Action, Genesis, LedgerBoundary, PreviousEpoch, LifecycleRecord, AuthorizationWindow,
  EpochState, State, Error, equal_boundary, status_Eq,
}
use ueg.Identity.Records.{
  genesis_schema, protocol_version_text, genesis_domain, genesis_signed, is_identity_id, is_key_id,
  is_ok, compute_identity_id, signed_by, validate_record_basics,
}

-- The last entry of the sorted epoch numbers; the source panics where there is none.
unfoldable pub latest_epoch_number : List (ℤ × EpochState) → Option ℤ
latest_epoch_number [] = none
latest_epoch_number ((k, e) ∷ m) = elim (latest_epoch_number m) [
  | none ↦ some k
  | some j ↦ if lt_int j k then some k else some j
]

-- An open last window ends at the boundary.
unfoldable pub close_last : LedgerBoundary → List AuthorizationWindow → List AuthorizationWindow
close_last b [] = []
close_last b (w ∷ []) = (if is_none w.end_at then record w { end_at = some b } else w) ∷ []
close_last b (w ∷ v ∷ ws) = w ∷ close_last b (v ∷ ws)

unfoldable pub close_epoch : EpochState → Status → LedgerBoundary → Option Text → EpochState
close_epoch e status b anchor = record e {
  windows = close_last b e.windows;
  status = status;
  known_good_anchor = anchor;
}

-- The loop of DeriveState: the state, the `active` pointer and the digest of the last record.
pub record Loop : Type 0 where
  pub state : State
  pub active : Option ℤ
  pub previous_digest : Option Text

abbrev pub open_window : LedgerBoundary → AuthorizationWindow
open_window b = record { start_after = b; end_at = none }

abbrev pub new_epoch : LifecycleRecord → LedgerBoundary → EpochState
new_epoch r start = record {
  epoch_number = r.epoch_number;
  operational_key_id = r.operational_key_id;
  operational_public_pem = r.operational_public_key_pem;
  status = Status.active;
  windows = open_window start ∷ [];
  known_good_anchor = none;
}

-- What ROTATE and RECOVER ask of the epoch that they close.
unfoldable pub check_prior :
    Action → Option ℤ → PreviousEpoch → EpochState → Result Error (Unit {0})
check_prior Action.rotate active p prior =
    refuse_if
      (not (same_optional active (some p.epoch_number))
        || prior.status != Status.active
        || p.operational_status != Status.retired)
      Error.rotation_not_active
check_prior _ active p prior = do
  refuse_if (is_some active && not (same_optional active (some p.epoch_number)))
      Error.recovery_not_current
  refuse_if (p.operational_status != Status.revoked) Error.recovery_not_revoking

unfoldable pub apply_transition : ℤ → Loop → LifecycleRecord → Pair → Result Error Loop
apply_transition latest l r operational = do
  p ← or_fail r.previous_epoch Error.not_successor
  refuse_if (r.epoch_number != int_succ latest || r.operational_status != Status.active)
      Error.not_successor
  prior ← or_fail (lookup p.epoch_number l.state.epochs) Error.not_previous_epoch
  refuse_if
      (prior.operational_key_id != p.operational_key_id
        || prior.epoch_number != latest
        || not (equal_boundary p.final_ledger_boundary r.ledger_boundary))
      Error.not_previous_epoch
  check_prior r.action l.active p prior
  refuse_if
      (is_some (lookup r.operational_key_id l.state.trust)
        || r.operational_key_id == prior.operational_key_id)
      Error.key_reused
  let closed = close_epoch prior p.operational_status r.ledger_boundary r.evidence_anchor_digest
  ok (record l {
    state = record l.state {
      epochs =
          insert r.epoch_number (new_epoch r r.ledger_boundary)
            (insert p.epoch_number closed l.state.epochs);
      trust = insert r.operational_key_id operational l.state.trust;
      active_epoch = some r.epoch_number;
    };
    active = some r.epoch_number;
  })

unfoldable pub apply_suspend : Loop → LifecycleRecord → Result Error Loop
apply_suspend l r = do
  k ← or_fail l.active Error.suspension_refused
  e ← or_fail (lookup k l.state.epochs) Error.suspension_refused
  refuse_if
      (r.epoch_number != e.epoch_number
        || r.operational_key_id != e.operational_key_id
        || r.operational_status != Status.suspended
        || is_some r.previous_epoch)
      Error.suspension_refused
  let closed = close_epoch e Status.suspended r.ledger_boundary r.evidence_anchor_digest
  ok (record l {
    state = record l.state { epochs = insert k closed l.state.epochs; active_epoch = none };
    active = none;
  })

unfoldable pub apply_resume : ℤ → Loop → LifecycleRecord → Result Error Loop
apply_resume latest l r = do
  refuse_if (is_some l.active) Error.resumption_refused
  e ← or_fail (lookup r.epoch_number l.state.epochs) Error.resumption_refused
  refuse_if
      (r.epoch_number != latest
        || e.status != Status.suspended
        || r.operational_key_id != e.operational_key_id
        || r.operational_status != Status.active
        || is_some r.previous_epoch)
      Error.resumption_refused
  let opened = record e {
    status = Status.active;
    windows = e.windows ++ open_window r.ledger_boundary ∷ [];
  }
  ok (record l {
    state = record l.state {
      epochs = insert r.epoch_number opened l.state.epochs;
      active_epoch = some e.epoch_number;
    };
    active = some r.epoch_number;
  })

unfoldable pub apply_revoke : ℤ → Loop → LifecycleRecord → Result Error Loop
apply_revoke latest l r = do
  e ← or_fail (lookup r.epoch_number l.state.epochs) Error.revocation_refused
  refuse_if
      (r.epoch_number != latest
        || r.operational_key_id != e.operational_key_id
        || r.operational_status != Status.revoked
        || is_some r.previous_epoch
        || e.status == Status.revoked
        || e.status == Status.retired)
      Error.revocation_refused
  let closed = close_epoch e Status.revoked r.ledger_boundary r.evidence_anchor_digest
  let marked = record e { status = Status.revoked; known_good_anchor = r.evidence_anchor_digest }
  ok (
      if same_optional l.active (some r.epoch_number)
      then record l {
        state = record l.state {
          epochs = insert r.epoch_number closed l.state.epochs;
          active_epoch = none;
        };
        active = none;
      }
      else record l {
        state = record l.state { epochs = insert r.epoch_number marked l.state.epochs };
      })

unfoldable pub apply_action : Action → ℤ → Loop → LifecycleRecord → Pair → Result Error Loop
apply_action Action.rotate latest l r operational = apply_transition latest l r operational
apply_action Action.recover latest l r operational = apply_transition latest l r operational
apply_action Action.suspend latest l r operational = apply_suspend l r
apply_action Action.resume latest l r operational = apply_resume latest l r
apply_action Action.revoke latest l r operational = apply_revoke latest l r
apply_action _ latest l r operational = err Error.unknown_action

unfoldable pub apply_lifecycle_record : Loop → LifecycleRecord → Pair → Result Error Loop
apply_lifecycle_record l r operational = do
  latest ← or_fail (latest_epoch_number l.state.epochs) Error.no_epochs
  apply_action r.action latest l r operational

-- The record at index 0.
abbrev pub is_genesis_action : Action → Bool
is_genesis_action Action.genesis = true
is_genesis_action Action.migration = true
is_genesis_action _ = false

abbrev pub is_plain_genesis : Action → Bool
is_plain_genesis Action.genesis = true
is_plain_genesis _ = false

unfoldable pub begin_lifecycle : Genesis → Pair → Loop → LifecycleRecord → Result Error Loop
begin_lifecycle g epoch_zero l r = do
  refuse_if
      (not (is_genesis_action r.action)
        || is_some r.previous_record_digest
        || r.epoch_number != pos 0
        || r.operational_key_id != g.epoch_zero_key_id
        || r.operational_status != Status.active
        || is_some r.previous_epoch
        || is_some r.evidence_anchor_digest)
      Error.genesis_record
  refuse_if (is_plain_genesis r.action && r.ledger_boundary.sequence_no != minus_one)
      Error.genesis_not_empty
  ok (record l {
    state = record l.state {
      trust = insert r.operational_key_id epoch_zero l.state.trust;
      epochs =
          insert (pos 0) (new_epoch r (record { sequence_no = minus_one; receipt_id = none }))
            l.state.epochs;
      active_epoch = some (pos 0);
    };
    active = some (pos 0);
  })

-- The boundary of a record is not below that of the record before it, nor beside it.
unfoldable pub boundary_follows : Option LedgerBoundary → LedgerBoundary → Bool
boundary_follows none b = true
boundary_follows (some prior) b =
    not (lt_int b.sequence_no prior.sequence_no)
    && not (b.sequence_no == prior.sequence_no && not (equal_boundary b prior))

-- The key that closes an epoch: of the named previous epoch, else of the active one.
unfoldable pub trusted_key : Option EpochState → State → Option Pair
trusted_key none s = none
trusted_key (some e) s = lookup e.operational_key_id s.trust

unfoldable pub retiring_key : Loop → Option PreviousEpoch → Option Pair
retiring_key l (some p) = trusted_key (lookup p.epoch_number l.state.epochs) l.state
retiring_key l none = elim l.active [
  | none ↦ none
  | some k ↦ trusted_key (lookup k l.state.epochs) l.state
]

abbrev pub empty_state : Text → Genesis → List LifecycleRecord → Pair → State
empty_state home g records recovery = record {
  home = home;
  genesis = g;
  records = records;
  epochs = [];
  trust = [];
  recovery_public = recovery;
  active_epoch = none;
  active_pair = none;
  last_sequence = minus_one;
  last_record_digest = [];
  pending_mutation = false;
}

-- What DeriveState starts its loop with.
abbrev pub start_loop : Text → Genesis → List LifecycleRecord → Pair → Loop
start_loop home g records recovery = record {
  state = empty_state home g records recovery;
  active = none;
  previous_digest = none;
}

module _ (c : Crypto) where
  unfoldable pub validate_genesis : Genesis → Result Error (Pair × Pair)
  validate_genesis g = do
    refuse_if
        (g.schema != genesis_schema
          || g.protocol_version != protocol_version_text
          || g.canonicalization != text "RFC8785-JCS"
          || not g.genesis_policy.one_active_operational_key
          || g.genesis_policy.concurrent_signing
          || g.genesis_policy.recovery_root_rotation
          || not (is_identity_id g.identity_id)
          || not (is_key_id g.recovery_root_key_id)
          || not (is_key_id g.epoch_zero_key_id)
          || ltb 200 (length (utf8 g.advisory_label)))
        Error.genesis_fields
    nonce ← or_fail (c.base64_decode g.identity_nonce_b64) Error.genesis_nonce
    refuse_if (length nonce != 32) Error.genesis_nonce
    recovery ←
        map_err (λ _. Error.genesis_recovery_root)
          (load_public_pem_text c g.recovery_root_public_key_pem)
    refuse_if (not (is_ok (validate_key_id c recovery g.recovery_root_key_id false)))
        Error.genesis_recovery_root
    epoch_zero ←
        map_err (λ _. Error.genesis_epoch_zero) (load_public_pem_text c g.epoch_zero_public_key_pem)
    refuse_if (not (is_ok (validate_key_id c epoch_zero g.epoch_zero_key_id false)))
        Error.genesis_epoch_zero
    expected ← or_fail (compute_identity_id c g) Error.genesis_digest
    refuse_if (expected != g.identity_id) Error.genesis_digest
    refuse_if
        (not (signed_by c recovery genesis_domain (genesis_signed g) g.recovery_signature_b64))
        Error.genesis_recovery_signature
    refuse_if
        (not (signed_by c epoch_zero genesis_domain (genesis_signed g) g.epoch_zero_proof_b64))
        Error.genesis_epoch_zero_proof
    ok (recovery, epoch_zero)

  unfoldable pub enter_record :
      Genesis → Pair → ℕ → Loop → LifecycleRecord → Pair → Result Error Loop
  enter_record g epoch_zero zero l r operational = begin_lifecycle g epoch_zero l r
  enter_record g epoch_zero (suc n) l r operational =
      map_err (Error.at_sequence (suc n)) (apply_lifecycle_record l r operational)

  -- One round of the loop of DeriveState.
  unfoldable pub derive_step :
      Genesis → Pair → Pair → ℕ → Option LedgerBoundary → Loop → LifecycleRecord → Result Error Loop
  derive_step g recovery epoch_zero index prior l r = do
    refuse_if (r.lifecycle_sequence != pos index || r.identity_id != g.identity_id)
        (Error.sequence_mismatch index)
    refuse_if (not (same_optional r.previous_record_digest l.previous_digest))
        (Error.broken_record_chain index)
    refuse_if (not (boundary_follows prior r.ledger_boundary)) (Error.boundary_backward index)
    operational ←
        map_err (λ _. Error.public_key index) (load_public_pem_text c r.operational_public_key_pem)
    map_err (Error.at_sequence index)
        (validate_record_basics c r recovery operational (retiring_key l r.previous_epoch))
    l' ← enter_record g epoch_zero index l r operational
    ok (record l' {
      previous_digest = some r.record_digest;
      state = record l'.state { last_sequence = pos index; last_record_digest = r.record_digest };
    })

  unfoldable pub derive_from :
      Genesis
      → Pair
      → Pair
      → ℕ
      → Option LedgerBoundary
      → Loop
      → List LifecycleRecord
      → Result Error Loop
  derive_from g recovery epoch_zero index prior l [] = ok l
  derive_from g recovery epoch_zero index prior l (r ∷ rs) = do
    l' ← derive_step g recovery epoch_zero index prior l r
    derive_from g recovery epoch_zero (suc index) (some r.ledger_boundary) l' rs

  unfoldable pub derive_state : Text → Genesis → List LifecycleRecord → Result Error State
  derive_state home g records = do
    (recovery, epoch_zero) ← validate_genesis g
    refuse_if (length records == 0 || ltb 10000 (length records)) Error.record_count
    l ← derive_from g recovery epoch_zero 0 none (start_loop home g records recovery) records
    ok l.state
