-- ===== src/Identity/Storage/Transaction.antt =====
-- internal/identity/transaction.go: a lifecycle mutation as a journal and steps on the home's files,
-- and its recovery. Renaming, removing and replacing a file, and removing a directory, happen at once;
-- no other process changes the files.
pub mod Loaded
pub mod Journal
pub mod NewPair
pub mod Published
pub mod Resumed
use ueg.Common.{
  ℕ, zero, suc, ◌*◌, Bool, true, false, not, ◌&&◌, ◌||◌, List, [], ◌∷◌, ◌++◌, Option, none, some,
  Result, ok, err, ◌>>=◌, ◌>>◌, refuse_if, or_fail, map_err, ℤ, pos, Text, text, is_hex64, is_some,
  ◌==◌, ◌!=◌, int_Eq, text_Eq, if◌then◌else◌,
}
use ueg.Crypto.{Crypto}
use ueg.Canon.{sha256_hex}
use ueg.Strictjson.{unmarshal_by}
use ueg.Keys.{Pair, validate_key_id}
use ueg.Identity.{Action, LifecycleRecord, State, active_of}
use ueg.Identity.Records.{is_ok}
use ueg.Identity.Lifecycle.{derive_state}
use ueg.Identity.Storage.{
  PendingTransaction, AuthorityFiles, EpochFiles, HomeFiles, HomeWire, Error, not_exist,
  journal_invalid, journal_fields, guard_exists, other_identity, changed_outside, hash_mismatch,
  transition, publish_failed, published_mismatch, read_bounded_regular, marshal_lifecycle,
  load_public, load_existing, load_signing,
}

abbrev pub pending_schema : Text
pending_schema = text "ueg.lifecycle-pending-transaction.v1"

-- What recovery does to the files, one call after the other.
pub data Step : Type 0 where
  publish_private publish_public clear_pending_private clear_pending_public : ℤ → Step
  remove_private remove_epoch : ℤ → Step
  replace_lifecycle : List ℕ → Step
  clear_journal : Step

abbrev pub no_epoch : EpochFiles
no_epoch = record {
  exists = false;
  private = none;
  public = none;
  pending_private = none;
  pending_public = none;
}

abbrev pub at_epoch : ℤ → (EpochFiles → EpochFiles) → HomeFiles → HomeFiles
at_epoch n change f = record f { epochs = λ m. if m == n then change (f.epochs m) else f.epochs m }

-- renameNew, where the file is not there yet.
abbrev pub publish_private_file : EpochFiles → EpochFiles
publish_private_file f =
    if is_some f.private
    then f
    else record f { private = f.pending_private; pending_private = none }

abbrev pub publish_public_file : EpochFiles → EpochFiles
publish_public_file f =
    if is_some f.public then f else record f { public = f.pending_public; pending_public = none }

unfoldable pub apply : Step → HomeFiles → HomeFiles
apply (publish_private n) f = at_epoch n publish_private_file f
apply (publish_public n) f = at_epoch n publish_public_file f
apply (clear_pending_private n) f =
    at_epoch n (λ (e : EpochFiles). record e { pending_private = none }) f
apply (clear_pending_public n) f =
    at_epoch n (λ (e : EpochFiles). record e { pending_public = none }) f
apply (remove_private n) f = at_epoch n (λ (e : EpochFiles). record e { private = none }) f
apply (remove_epoch n) f = at_epoch n (λ (e : EpochFiles). no_epoch) f
apply (replace_lifecycle bytes) f = record f {
  authority = record f.authority { lifecycle = some bytes };
}
apply clear_journal f = record f { authority = record f.authority { pending = none } }

unfoldable pub run_steps : List Step → HomeFiles → HomeFiles
unfolding apply
run_steps [] f = f
run_steps (s ∷ steps) f = run_steps steps (apply s f)

-- completePendingOrFinalPair.
unfoldable pub complete_pair : EpochFiles → Bool
complete_pair f =
    (is_some f.pending_private && is_some f.pending_public)
    || (is_some f.private && is_some f.public)
    || (is_some f.private && is_some f.pending_public)
    || (is_some f.pending_private && is_some f.public)

-- A journal that was checked against the home. `applied` is whether its record is in the lifecycle.
pub record Checked : Type 0 where
  pub transaction : PendingTransaction
  pub new_record : LifecycleRecord
  pub records : List LifecycleRecord
  pub candidate : State
  pub after : List ℕ
  pub applied : Bool

abbrev same_presence : Bool → Option ℤ → Bool
same_presence true none = false
same_presence true (some n) = true
same_presence false none = true
same_presence false (some n) = false

unfoldable pub check_fields : PendingTransaction → Result Error LifecycleRecord
check_fields p = do
  refuse_if
      (p.schema != pending_schema
        || not (is_some p.new_record)
        || p.identity_id == []
        || not (is_hex64 p.base_record_digest)
        || not (is_hex64 p.lifecycle_after_sha256)
        || not (same_presence p.has_new_key p.new_epoch))
      journal_fields
  or_fail p.new_record journal_fields

unfoldable pub is_applied : State → LifecycleRecord → Bool
is_applied s r = s.last_sequence == r.lifecycle_sequence && s.last_record_digest == r.record_digest

unfoldable pub candidate_records : State → LifecycleRecord → Bool → List LifecycleRecord
candidate_records s r applied = if applied then s.records else s.records ++ r ∷ []

-- The steps of publishPendingPair, and those that follow it.
unfoldable pub publish_steps : ℤ → List Step
publish_steps n = publish_private n ∷ publish_public n ∷ []

unfoldable pub clear_steps : ℤ → List Step
clear_steps n = clear_pending_private n ∷ clear_pending_public n ∷ []

abbrev remove_steps : Option ℤ → List Step
remove_steps none = []
remove_steps (some n) = remove_private n ∷ []

unfoldable pub finish_steps : Checked → List Step
finish_steps k =
    (if k.applied then [] else replace_lifecycle k.after ∷ [])
    ++ (remove_steps k.transaction.remove_private_epoch ++ clear_journal ∷ [])

unfoldable pub rollback_steps : ℤ → List Step
rollback_steps n = remove_epoch n ∷ clear_journal ∷ []

abbrev pub names_pair : Option Pair → (Pair → Bool) → Bool
names_pair none test = false
names_pair (some p) test = test p

module _ (c : Crypto) (w : HomeWire) (home : Text) where
  -- loadPublicIgnoringPending.
  unfoldable pub load_ignoring_pending : AuthorityFiles → Result Error State
  load_ignoring_pending a = do
    refuse_if (is_some a.read_guard) guard_exists
    s ← load_public c w home a
    ok (record s { pending_mutation = false })

  -- RecoverPendingMutation up to the first change of a file.
  unfoldable pub check_journal : AuthorityFiles → List ℕ → Result Error Checked
  check_journal a file = do
    raw ← read_bounded_regular (2 * 1024 * 1024) (some file)
    p ← map_err (λ _. journal_invalid) (unmarshal_by w.json w.read_pending raw)
    r ← check_fields p
    s ← load_ignoring_pending a
    refuse_if (s.genesis.identity_id != p.identity_id) other_identity
    refuse_if
        (not (is_applied s r)
          && (s.last_sequence != p.base_sequence || s.last_record_digest != p.base_record_digest))
        changed_outside
    candidate ←
        map_err transition (derive_state c home s.genesis (candidate_records s r (is_applied s r)))
    refuse_if
        (sha256_hex c (marshal_lifecycle c w (candidate_records s r (is_applied s r)))
          != p.lifecycle_after_sha256)
        hash_mismatch
    ok (record {
      transaction = p;
      new_record = r;
      records = candidate_records s r (is_applied s r);
      candidate = candidate;
      after = marshal_lifecycle c w (candidate_records s r (is_applied s r));
      applied = is_applied s r;
    })

  -- What is loaded at the end.
  unfoldable pub reload : Checked → HomeFiles → Result Error State
  reload k f =
      if is_some (active_of k.candidate)
      then load_signing c w home f
      else load_public c w home f.authority

  unfoldable pub finish_mutation : Checked → HomeFiles → HomeFiles × Result Error State
  finish_mutation k f = let done = run_steps (finish_steps k) f in (done, reload k done)

  -- The key that publishPendingPair finds under its final names.
  unfoldable pub is_published : LifecycleRecord → EpochFiles → Bool
  is_published r e =
      names_pair (load_existing c w e)
        (λ (p : Pair). is_ok (validate_key_id c p r.operational_key_id false))

  -- A file that is neither there nor staged cannot be published.
  unfoldable pub publish_pending_pair : Checked → ℤ → HomeFiles → HomeFiles × Result Error State
  publish_pending_pair k n f =
      let first = apply (publish_private n) f in
      let published = apply (publish_public n) first in
      if not (is_some (f.epochs n).private || is_some (f.epochs n).pending_private)
      then (f, err publish_failed)
      else if not (is_some (first.epochs n).public || is_some (first.epochs n).pending_public)
      then (first, err publish_failed)
      else if is_published k.new_record (published.epochs n)
      then finish_mutation k (run_steps (clear_steps n) published)
      else (published, err published_mismatch)

  unfoldable pub complete_mutation : Checked → HomeFiles → HomeFiles × Result Error State
  complete_mutation k f = elim k.transaction.new_epoch [
    | none ↦ finish_mutation k f
    | some n ↦
        if not k.applied && not (complete_pair (f.epochs n))
        then (
          run_steps (rollback_steps n) f,
          load_public c w home (run_steps (rollback_steps n) f).authority,
        )
        else publish_pending_pair k n f
  ]

  unfoldable pub recover_pending_mutation : HomeFiles → HomeFiles × Result Error State
  recover_pending_mutation f = elim f.authority.pending [
    | none ↦ (f, load_public c w home f.authority)
    | some raw ↦ elim (check_journal f.authority raw) [
      | err e ↦ (f, err e)
      | ok k ↦ complete_mutation k f
    ]
  ]

  -- All that a recovery which goes through does, behind a mutation with a new key or without one.
  unfoldable pub recovery_steps : Checked → List Step
  recovery_steps k = elim k.transaction.new_epoch [
    | none ↦ finish_steps k
    | some n ↦ publish_steps n ++ (clear_steps n ++ finish_steps k)
  ]
