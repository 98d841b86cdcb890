-- ===== src/Identity/Lifecycle/Invariant.antt =====
-- lifecycle.go, DeriveState: what holds of the state between two records.
use ueg.Common.{
  ℕ, suc, ◌≡◌, refl, sym, ◌∙◌, ◌≢◌, Option, none, some, false, ℤ, pos, ◌≤ℤ◌, lt_int, ok, arith,
}
use ueg.Keys.{Pair}
use ueg.Identity.{Status, Action, LedgerBoundary, LifecycleRecord, EpochState}
use ueg.Identity.Lifecycle.{
  Loop, latest_epoch_number, close_epoch, close_last, new_epoch, apply_transition, apply_suspend,
  apply_resume, apply_revoke, apply_action, apply_lifecycle_record,
}
use ueg.Identity.Lifecycle.Windows.{
  Spans, OpenSpans, Spans-mono, OpenSpans-mono, close_last-OpenSpans, close_last-Spans,
  OpenSpans-append,
}
use ueg.Identity.Lifecycle.Shape.{Epochs, latest_top}
use ueg.Identity.Lifecycle.Steps.{Holds, transition_lem}
use ueg.Identity.Lifecycle.Marks.{
  Marked, resumed, suspend_lem, suspend_idle, resume_lem, revoke_live, revoke_idle,
}

-- The newest epoch is active with an open last window, or no epoch is active and all are closed.
pub data Phase (hi lo : ℤ) (n : ℕ) (top : EpochState) (active : Option ℤ) : Type 0 where
  live :
      active ≡ some (pos n)
      → top.status ≡ Status.active
      → OpenSpans lo hi top.windows
      → Phase hi lo n top active
  idle :
      active ≡ none
      → top.status ≢ Status.active
      → Spans lo hi top.windows
      → Phase hi lo n top active

-- `hi` is the sequence number of the last record's boundary.
pub record Inv (hi : ℤ) (l : Loop) : Type 0 where
  pub n : ℕ
  pub top : EpochState
  pub older : Epochs
  pub holds : Holds l n top older
  pub same : l.state.active_epoch ≡ l.active
  pub phase : Phase hi holds.lo n top l.active

Phase-mono :
    (hi hi' lo : ℤ) (n : ℕ) (top : EpochState) (a : Option ℤ)
    → hi ≤ℤ hi'
    → Phase hi lo n top a
    → Phase hi' lo n top a
Phase-mono hi hi' lo n top a h (live p q s) = live p q (OpenSpans-mono lo hi hi' top.windows h s)
Phase-mono hi hi' lo n top a h (idle p q s) = idle p q (Spans-mono lo hi hi' top.windows h s)

-- Closing the newest epoch at a later boundary leaves all its windows closed.
Phase-closed :
    (hi lo : ℤ) (n : ℕ) (top : EpochState) (a : Option ℤ) (b : LedgerBoundary)
    → hi ≤ℤ b.sequence_no
    → Phase hi lo n top a
    → Spans lo b.sequence_no (close_last b top.windows)
Phase-closed hi lo n top a b h (live p q s) = close_last-OpenSpans lo hi b top.windows h s
Phase-closed hi lo n top a b h (idle p q s) =
    rw (close_last-Spans lo hi b top.windows s) (Spans-mono lo hi b.sequence_no top.windows h s)

Marked-Inv :
    (hi : ℤ) (l l' : Loop) (n : ℕ) (top d : EpochState) (older : Epochs) (a : Option ℤ)
    (holds : Holds l n top older)
    → d.epoch_number ≡ top.epoch_number
    → Marked n older d a l'
    → Phase hi holds.lo n d a
    → Inv hi l'
Marked-Inv hi l l' n top d older a holds q m ph = record {
  n = n;
  top = d;
  older = older;
  holds = record { lo = holds.lo; epochs = m.epochs; number = q ∙ holds.number; past = holds.past };
  same = m.active_epoch ∙ sym m.active;
  phase = rw m.active ph;
}

module _ (l : Loop) (r : LifecycleRecord) (operational : Pair) (l' : Loop) (hi : ℤ) (v : Inv hi l)
    (later : hi ≤ℤ r.ledger_boundary.sequence_no) where
  open v use {n, top, older, holds}

  hi' : ℤ
  hi' = r.ledger_boundary.sequence_no

  transition-Inv :
      lt_int r.epoch_number (pos 0) ≡ false
      → apply_transition (pos n) l r operational ≡ ok l'
      → Inv hi' l'
  unfolding hi' close_epoch
  transition-Inv nn h =
      let s = transition_lem l r n top older holds operational l' nn h in
      record {
        n = suc n;
        top = new_epoch r r.ledger_boundary;
        older = _;
        holds = record {
          lo = r.ledger_boundary.sequence_no;
          epochs = s.epochs;
          number = s.number;
          past = (
            holds.lo,
            refl,
            holds.number,
            s.is_final,
            Phase-closed hi holds.lo n top l.active r.ledger_boundary later v.phase,
            holds.past,
          );
        };
        same = s.active_epoch ∙ sym s.active;
        phase = live s.active refl (refl, omega arith, omega arith);
      }

  suspend-Inv : apply_suspend l r ≡ ok l' → Inv hi' l'
  unfolding hi' close_epoch
  suspend-Inv h = go v.phase
    where
      go : Phase hi holds.lo n top l.active → Inv r.ledger_boundary.sequence_no l'
      go (live p q s) =
          Marked-Inv r.ledger_boundary.sequence_no l l' n top _ older none holds refl
            (suspend_lem l r n top older holds l' p h)
            (idle refl (λ e. cc)
              (close_last-OpenSpans holds.lo hi r.ledger_boundary top.windows later s))
      go (idle p q s) = absurd (suspend_idle l r n top older holds l' p h)

  resume-Inv : apply_resume (pos n) l r ≡ ok l' → Inv hi' l'
  unfolding hi'
  resume-Inv h =
      let (a, st, m) = resume_lem l r n top older holds l' h in
      Marked-Inv r.ledger_boundary.sequence_no l l' n top _ older (some (pos n)) holds refl m
        (go v.phase a)
    where
      go :
          Phase hi holds.lo n top l.active
          → l.active ≡ none
          → Phase r.ledger_boundary.sequence_no holds.lo n
              (resumed l r n top older holds)
              (some (pos n))
      go (live p q s) a = absurd (cc)
      go (idle p q s) a =
          live refl refl (OpenSpans-append holds.lo hi r.ledger_boundary top.windows later s)

  revoke-Inv : apply_revoke (pos n) l r ≡ ok l' → Inv hi' l'
  unfolding hi' close_epoch
  revoke-Inv h = go v.phase
    where
      go : Phase hi holds.lo n top l.active → Inv r.ledger_boundary.sequence_no l'
      go (live p q s) =
          Marked-Inv r.ledger_boundary.sequence_no l l' n top _ older none holds refl
            (revoke_live l r n top older holds l' p h)
            (idle refl (λ e. cc)
              (close_last-OpenSpans holds.lo hi r.ledger_boundary top.windows later s))
      go (idle p q s) =
          Marked-Inv r.ledger_boundary.sequence_no l l' n top _ older none holds refl
            (revoke_idle l r n top older holds l' p (v.same ∙ p) h)
            (idle refl (λ e. cc)
              (Spans-mono holds.lo hi r.ledger_boundary.sequence_no top.windows later s))

  action-Inv :
      (a : Action)
      → lt_int r.epoch_number (pos 0) ≡ false
      → apply_action a (pos n) l r operational ≡ ok l'
      → Inv hi' l'
  unfolding apply_action
  action-Inv Action.rotate nn h = transition-Inv nn h
  action-Inv Action.recover nn h = transition-Inv nn h
  action-Inv Action.suspend nn h = suspend-Inv h
  action-Inv Action.resume nn h = resume-Inv h
  action-Inv Action.revoke nn h = revoke-Inv h
  action-Inv _ nn h = cc

  -- An accepted record at a later boundary keeps the invariant, at its own boundary.
  pub apply_lifecycle_record-Inv :
      lt_int r.epoch_number (pos 0) ≡ false
      → apply_lifecycle_record l r operational ≡ ok l'
      → Inv r.ledger_boundary.sequence_no l'
  unfolding apply_lifecycle_record hi'
  apply_lifecycle_record-Inv nn h =
      let latest : latest_epoch_number l.state.epochs ≡ some (pos n) =
        rw holds.epochs (latest_top holds.lo n top older holds.past) in
      action-Inv r.action nn (rw latest at h)
