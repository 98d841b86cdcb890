-- ===== src/Bundle/Checkpoint.antt =====
-- verify_bplus.go: the lifecycle that a verifier brings along, against the bundle's own, and what it
-- says about the keys that signed.
use ueg.Common.{
  ℕ, ◌*◌, Bool, true, false, not, ◌&&◌, ◌||◌, List, [], ◌∷◌, ◌++◌, Option, none, some, Result, ok,
  err, ◌>>=◌, ◌>>◌, refuse_if, or_fail, map_err, ℤ, pos, lt_int, le_int, Text, text, join, length,
  is_some, ltb, same_optional, ◌==◌, ◌!=◌, int_Eq, text_Eq, if◌then◌else◌,
}
use ueg.Crypto.{Crypto}
use ueg.Identity.{Status, LifecycleRecord, EpochState, State, status_Eq}
use ueg.Identity.Records.{status_text}
use ueg.Identity.Artifacts.{
  EvidenceAnchor, LifecycleCheckpoint, digest_at, is_digest, validate_evidence_anchor,
}
use ueg.Identity.Artifacts.Checkpoints.{
  parse_lifecycle_checkpoint, parse_evidence_anchor, load_stored_checkpoint,
}
use ueg.Ledger.{Receipt, id_at, check_authority}
use ueg.Ledger.Parse.{sort_texts}
use ueg.Bundle.{Options, Outside, BundleWire, BundleResult, Reason, Code, Mark}
use ueg.Bundle.Trust.{unique}
use ueg.Bundle.Authority.{new_bplus_result, not_trusted_bplus}

-- readExternalRegular.
unfoldable pub read_external_regular : Outside → Text → ℕ → Result Reason (List ℕ)
read_external_regular o path maximum = do
  raw ← or_fail (o.regular_file path) Reason.external_unreadable
  refuse_if (ltb maximum (length raw)) Reason.external_too_large
  ok raw

abbrev not_trusted : Code → Reason → BundleResult
not_trusted = not_trusted_bplus new_bplus_result

-- The checkpoint of a lifecycle that goes on from the embedded one.
unfoldable pub check_descends : State → LifecycleCheckpoint × State → Result BundleResult (Unit {0})
check_descends embedded (k, t) = do
  refuse_if
      (k.identity_id != embedded.genesis.identity_id
        || lt_int t.last_sequence embedded.last_sequence)
      (not_trusted Code.checkpoint_rollback (Reason.of_code Code.checkpoint_rollback))
  refuse_if
      (not (is_digest (digest_at t.records embedded.last_sequence) embedded.last_record_digest))
      (not_trusted Code.checkpoint_fork (Reason.of_code Code.checkpoint_fork))

module _ (c : Crypto) (w : BundleWire) (o : Outside) where
  unfoldable pub supplied_checkpoint : Text → Result Reason (LifecycleCheckpoint × State)
  supplied_checkpoint path = do
    raw ← read_external_regular o path (12 * 1024 * 1024)
    map_err Reason.bad_artifact (parse_lifecycle_checkpoint c w.wire.json w.read_checkpoint raw)

  unfoldable pub retained_checkpoint : Text → Text → Result Reason (LifecycleCheckpoint × State)
  retained_checkpoint store id =
      map_err Reason.bad_artifact
        (load_stored_checkpoint c w.wire.json w.read_checkpoint id (o.stored_checkpoint store id))

  abbrev pub from_outside :
      State
      → Mark
      → Result Reason (LifecycleCheckpoint × State)
      → Result BundleResult (State × Mark)
  from_outside embedded source found = do
    (k, t) ← map_err (not_trusted Code.checkpoint_invalid) found
    check_descends embedded (k, t)
    ok (t, source)

  unfoldable pub select_checkpoint : Options → State → Result BundleResult (State × Mark)
  select_checkpoint options embedded =
      if options.external_checkpoint_path != [] && options.trust_store != []
      then err (
          not_trusted Code.checkpoint_source_conflict
            (Reason.of_code Code.checkpoint_source_conflict))
      else if options.external_checkpoint_path != []
      then from_outside embedded Mark.supplied_file
          (supplied_checkpoint options.external_checkpoint_path)
      else if options.trust_store != []
      then from_outside embedded Mark.retained_store
          (retained_checkpoint options.trust_store options.expected_identity_id)
      else ok (embedded, Mark.embedded_only)

  -- An anchor must be of a receipt in the bundle.
  unfoldable pub load_external_anchor :
      Text → State → List Receipt → Result Reason (Option EvidenceAnchor)
  load_external_anchor path s receipts = if path == [] then ok none else do
    raw ← read_external_regular o path (1024 * 1024)
    a ← map_err Reason.bad_artifact (parse_evidence_anchor c w.wire.json w.read_anchor raw)
    map_err Reason.bad_artifact (validate_evidence_anchor c a s)
    refuse_if
        (not (is_some (id_at receipts a.ledger_boundary.sequence_no))
          || not (is_some a.ledger_boundary.receipt_id)
          || not (
              same_optional (id_at receipts a.ledger_boundary.sequence_no)
                a.ledger_boundary.receipt_id))
        Reason.anchor_elsewhere
    ok (some a)

unfoldable pub check_checkpoint_boundary : List Receipt → LifecycleRecord → Result Reason (Unit {0})
check_checkpoint_boundary receipts r = elim (id_at receipts r.ledger_boundary.sequence_no) [
  | none ↦ ok tt
  | some id ↦
      refuse_if (not (same_optional (some id) r.ledger_boundary.receipt_id)) Reason.boundary_differs
]

unfoldable pub verify_checkpoint_receipt_boundaries :
    List Receipt → List LifecycleRecord → Result Reason (Unit {0})
verify_checkpoint_receipt_boundaries receipts [] = ok tt
verify_checkpoint_receipt_boundaries receipts (r ∷ rs) = do
  check_checkpoint_boundary receipts r
  verify_checkpoint_receipt_boundaries receipts rs

unfoldable pub verify_checkpoint_requirements : Options → State → Result Reason (Unit {0})
verify_checkpoint_requirements options s = elim options.minimum_checkpoint_sequence [
  | none ↦ refuse_if (options.minimum_checkpoint_digest != []) Reason.digest_without_sequence
  | some sequence ↦ do
    refuse_if (lt_int sequence (pos 0) || lt_int s.last_sequence sequence) Reason.below_minimum
    refuse_if
        (options.minimum_checkpoint_digest != []
          && not (is_digest (digest_at s.records sequence) options.minimum_checkpoint_digest))
        Reason.digest_not_contained
]

-- The same windows and the same map of epochs as in package ledger.
unfoldable pub verify_receipt_authorization_at_state :
    List Receipt → State → Result Reason (Unit {0})
verify_receipt_authorization_at_state receipts s =
    map_err (λ _. Reason.outside_windows) (check_authority s.epochs receipts)

-- The last place that a key signed.
abbrev later : ℤ → Option ℤ → Option ℤ
later n none = some n
later n (some m) = some (if lt_int m n then n else m)

unfoldable pub last_signed : Text → List Receipt → Option ℤ
last_signed key [] = none
last_signed key (r ∷ rs) =
    let rest = last_signed key rs in
    if r.signing_key_id == key then later r.sequence_no rest else rest

abbrev pub needs_anchor : Status → Bool
needs_anchor st = st == Status.suspended || st == Status.revoked

unfoldable pub is_covered : Option EvidenceAnchor → EpochState → ℤ → Bool
is_covered none e last = false
is_covered (some a) e last =
    same_optional e.known_good_anchor (some a.anchor_digest)
    && a.epoch_number == e.epoch_number
    && le_int last a.ledger_boundary.sequence_no

module _ (receipts : List Receipt) (anchor : Option EvidenceAnchor) where
  -- Whether an epoch's signatures are left open by its status.
  abbrev pub leaves_open : EpochState → Option ℤ → Bool
  leaves_open e none = false
  leaves_open e (some last) = needs_anchor e.status && not (is_covered anchor e last)

  unfoldable pub is_indeterminate : List (ℤ × EpochState) → Bool
  is_indeterminate [] = false
  is_indeterminate ((n, e) ∷ epochs) =
      leaves_open e (last_signed e.operational_key_id receipts) || is_indeterminate epochs

  unfoldable pub used_statuses : List (ℤ × EpochState) → List Text
  used_statuses [] = []
  used_statuses ((n, e) ∷ epochs) =
      let rest = used_statuses epochs in
      if is_some (last_signed e.operational_key_id receipts)
      then status_text e.status ∷ rest
      else rest

  unfoldable pub signing_status_for_evidence : State → Mark × Bool
  unfolding text
  signing_status_for_evidence s =
      let names : Text = join (text "+") (sort_texts (unique (used_statuses s.epochs))) in
      if is_indeterminate s.epochs
      then (Mark.status (text "INDETERMINATE_" ++ names), true)
      else if is_some anchor
      then (Mark.status (text "AUTHORIZED_AT_INDEPENDENT_ANCHOR_" ++ names), false)
      else (Mark.status (text "AUTHORIZED_" ++ names), false)
