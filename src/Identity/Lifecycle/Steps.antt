-- ===== src/Identity/Lifecycle/Steps.antt =====
-- lifecycle.go, applyLifecycleRecord: what an accepted record does to the epochs.
use ueg.Common.{
  ℕ, suc, ◌≡◌, sym, ap, ◌∙◌, inl, inr, ◌∷◌, Option, none, some, false, ℤ, pos, lt_int, int_succ, ok,
  lookup, insert, int_Eq, int_eq_iff, Option-cases, arith,
}
use ueg.Keys.{Pair}
use ueg.Identity.{Status, Action, LifecycleRecord, PreviousEpoch, EpochState, status_eq_iff}
use ueg.Identity.Lifecycle.{Loop, close_epoch, new_epoch, check_prior, apply_transition}
use ueg.Identity.Lifecycle.Shape.{
  Epochs, IsFinal, Past, lookup_top, lookup_top_number, insert_top, insert_next,
}

-- The loop holds a newest epoch `top` of number `n` above the closed epochs `older`.
pub record Holds (l : Loop) (n : ℕ) (top : EpochState) (older : Epochs) : Type 0 where
  pub lo : ℤ
  pub epochs : l.state.epochs ≡ (pos n, top) ∷ older
  pub number : top.epoch_number ≡ pos n
  pub past : Past lo n older

succ_pos : (n : ℕ) (k : ℤ) → lt_int k (pos 0) ≡ false → k ≡ int_succ (pos n) → k ≡ pos (suc n)
succ_pos n k h e = ground arith

-- ROTATE and RECOVER close the newest epoch and open its successor.
pub record Succeeded (r : LifecycleRecord) (n : ℕ) (top : EpochState) (older : Epochs) (l' : Loop)
    : Type 0 where
  pub p : PreviousEpoch
  pub active : l'.active ≡ some (pos (suc n))
  pub active_epoch : l'.state.active_epoch ≡ some (pos (suc n))
  pub epochs :
      l'.state.epochs
      ≡ (pos (suc n), new_epoch r r.ledger_boundary)
        ∷ (pos n, close_epoch top p.operational_status r.ledger_boundary r.evidence_anchor_digest)
        ∷ older
  pub number : r.epoch_number ≡ pos (suc n)
  pub is_final : IsFinal p.operational_status

check_prior-IsFinal :
    (a : Action) (active : Option ℤ) (p : PreviousEpoch) (e : EpochState)
    → check_prior a active p e ≡ ok tt
    → IsFinal p.operational_status
unfolding check_prior
check_prior-IsFinal Action.rotate active p e h =
    ground (arith, status_eq_iff p.operational_status Status.retired)
check_prior-IsFinal _ active p e h =
    ground (arith, status_eq_iff p.operational_status Status.revoked)

module _ (l : Loop) (r : LifecycleRecord) (n : ℕ) (top : EpochState) (older : Epochs)
    (holds : Holds l n top older) where
  transition_checks :
      (operational : Pair) (p : PreviousEpoch) (e : EpochState) (l' : Loop)
      → r.previous_epoch ≡ some p
      → lookup p.epoch_number l.state.epochs ≡ some e
      → apply_transition (pos n) l r operational ≡ ok l'
      → (r.epoch_number ≡ int_succ (pos n))
        × (e.epoch_number ≡ pos n)
        × (check_prior r.action l.active p e ≡ ok tt)
        × (l'.active ≡ some r.epoch_number)
        × (l'.state.active_epoch ≡ some r.epoch_number)
        × (l'.state.epochs
            ≡ insert r.epoch_number (new_epoch r r.ledger_boundary) (
                insert p.epoch_number
                  (close_epoch e p.operational_status r.ledger_boundary r.evidence_anchor_digest)
                  l.state.epochs))
  unfolding apply_transition
  transition_checks operational p e l' pe le h =
      ground
        (arith, int_eq_iff r.epoch_number (int_succ (pos n)), int_eq_iff e.epoch_number (pos n))

  -- The epoch that the loop finds under a number which is the latest is the newest one.
  pub found_top :
      (k : ℤ) (e : EpochState)
      → lookup k l.state.epochs ≡ some e
      → e.epoch_number ≡ pos n
      → (k ≡ pos n) × (e ≡ top)
  found_top k e f q =
      let g : lookup k ((pos n, top) ∷ older) ≡ some e = rw holds.epochs at f in
      let kn : k ≡ pos n =
        sym (lookup_top_number holds.lo n top older k e holds.number holds.past g) ∙ q in
      (
        kn,
        (let g' : lookup (pos n) ((pos n, top) ∷ older) ≡ some e = rw kn at g in
            cc (lookup_top n top older)),
      )

  transition_found :
      (operational : Pair) (p : PreviousEpoch) (e : EpochState) (l' : Loop)
      → lt_int r.epoch_number (pos 0) ≡ false
      → r.previous_epoch ≡ some p
      → lookup p.epoch_number l.state.epochs ≡ some e
      → apply_transition (pos n) l r operational ≡ ok l'
      → Succeeded r n top older l'
  transition_found operational p e l' nn pe le h =
      let (num, en, prior_ok, act, act', eps) = transition_checks operational p e l' pe le h in
      let (pk, et) = found_top p.epoch_number e le en in
      let rn = succ_pos n r.epoch_number nn num in
      record {
        p = p;
        active = act ∙ ap some rn;
        active_epoch = act' ∙ ap some rn;
        epochs =
            eps
            ∙ rw (rn, pk, et, holds.epochs, insert_top n top)
                (insert_next _ n _ _ older holds.past);
        number = rn;
        is_final = check_prior-IsFinal r.action l.active p e prior_ok;
      }

  -- Both pointers of ROTATE and RECOVER are there when the record is accepted.
  pub transition_lem :
      (operational : Pair) (l' : Loop)
      → lt_int r.epoch_number (pos 0) ≡ false
      → apply_transition (pos n) l r operational ≡ ok l'
      → Succeeded r n top older l'
  transition_lem operational l' nn h = elim (Option-cases r.previous_epoch) [
    | inl e ↦ absurd (no_previous e)
    | inr (p, e) ↦ elim (Option-cases (lookup p.epoch_number l.state.epochs)) [
      | inl f ↦ absurd (no_prior p e f)
      | inr (d, f) ↦ transition_found operational p d l' nn e f h
    ]
  ]
    where
      no_previous : r.previous_epoch ≡ none → ⊥
      no_previous e = unfold apply_transition in ground (arith, h)

      no_prior :
          (p : PreviousEpoch)
          → r.previous_epoch ≡ some p
          → lookup p.epoch_number l.state.epochs ≡ none
          → ⊥
      no_prior p e f = unfold apply_transition in ground (arith, h)
