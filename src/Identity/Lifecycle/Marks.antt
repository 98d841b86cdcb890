-- ===== src/Identity/Lifecycle/Marks.antt =====
-- lifecycle.go, applyLifecycleRecord: SUSPEND, RESUME and REVOKE change the newest epoch alone.
use ueg.Common.{
  ℕ, ◌≡◌, refl, sym, ap, ◌∙◌, inl, inr, ◌≢◌, [], ◌∷◌, ◌++◌, Option, none, some, ℤ, pos, ok, lookup,
  insert, int_Eq, int_eq_iff, same_optional, same_optional_iff, Option-cases, arith,
}
use ueg.Identity.{Status, LifecycleRecord, EpochState, status_eq_iff}
use ueg.Identity.Lifecycle.{
  Loop, close_epoch, open_window, apply_suspend, apply_resume, apply_revoke,
}
use ueg.Identity.Lifecycle.Shape.{Epochs, lookup_top, lookup_top_number, insert_top}
use ueg.Identity.Lifecycle.Steps.{Holds, found_top}

-- The newest epoch became `d`, and both pointers to the active epoch became `active`.
pub record Marked (n : ℕ) (older : Epochs) (d : EpochState) (a : Option ℤ) (l' : Loop)
    : Type 0 where
  pub active : l'.active ≡ a
  pub active_epoch : l'.state.active_epoch ≡ a
  pub epochs : l'.state.epochs ≡ (pos n, d) ∷ older

module _ (l : Loop) (r : LifecycleRecord) (n : ℕ) (top : EpochState) (older : Epochs)
    (holds : Holds l n top older) where
  abbrev pub closed_as : Status → EpochState
  closed_as s = close_epoch top s r.ledger_boundary r.evidence_anchor_digest

  abbrev pub resumed : EpochState
  resumed = record top {
    status = Status.active;
    windows = top.windows ++ open_window r.ledger_boundary ∷ [];
  }

  abbrev pub marked_revoked : EpochState
  marked_revoked = record top {
    status = Status.revoked;
    known_good_anchor = r.evidence_anchor_digest;
  }

  replaced :
      (k : ℤ) (e d : EpochState) (es : Epochs)
      → k ≡ pos n
      → es ≡ insert k d l.state.epochs
      → es ≡ (pos n, d) ∷ older
  replaced k e d es q h = h ∙ rw (q, holds.epochs) (insert_top n top d older)

  lookup_number : (k : ℤ) (e : EpochState) → lookup k l.state.epochs ≡ some e → e.epoch_number ≡ k
  lookup_number k e f =
      lookup_top_number holds.lo n top older k e holds.number holds.past (rw holds.epochs at f)

  pub suspend_lem :
      (l' : Loop)
      → l.active ≡ some (pos n)
      → apply_suspend l r ≡ ok l'
      → Marked n older (closed_as Status.suspended) none l'
  unfolding apply_suspend
  suspend_lem l' a h =
      let f : lookup (pos n) l.state.epochs ≡ some top = rw holds.epochs (lookup_top n top older) in
      record {
        active = ground arith;
        active_epoch = ground arith;
        epochs = replaced (pos n) top _ _ refl (ground arith);
      }

  pub suspend_idle : (l' : Loop) → l.active ≡ none → apply_suspend l r ≢ ok l'
  unfolding apply_suspend
  suspend_idle l' a h = ground arith

  resume_checks :
      (e : EpochState) (l' : Loop)
      → lookup r.epoch_number l.state.epochs ≡ some e
      → apply_resume (pos n) l r ≡ ok l'
      → (r.epoch_number ≡ pos n)
        × (l.active ≡ none)
        × (e.status ≡ Status.suspended)
        × (l'.active ≡ some r.epoch_number)
        × (l'.state.active_epoch ≡ some e.epoch_number)
        × (l'.state.epochs
            ≡ insert r.epoch_number
                (record e {
                  status = Status.active;
                  windows = e.windows ++ open_window r.ledger_boundary ∷ [];
                })
                l.state.epochs)
  unfolding apply_resume
  resume_checks e l' f h =
      ground (arith, int_eq_iff r.epoch_number (pos n), status_eq_iff e.status Status.suspended)

  pub resume_lem :
      (l' : Loop)
      → apply_resume (pos n) l r ≡ ok l'
      → (l.active ≡ none)
        × (top.status ≡ Status.suspended)
        × Marked n older resumed (some (pos n)) l'
  resume_lem l' h = elim (Option-cases (lookup r.epoch_number l.state.epochs)) [
    | inl f ↦ absurd (missing f)
    | inr (e, f) ↦
        let (rn, idle, st, act, act', eps) = resume_checks e l' f h in
        let (en, et) = found_top l r n top older holds r.epoch_number e f (found_number e f) in
        (
          idle,
          (ap (λ (d : EpochState). d.status) (sym et) ∙ st),
          record {
            active = act ∙ ap some rn;
            active_epoch = act' ∙ ap some (found_number e f);
            epochs = replaced r.epoch_number e resumed _ rn (eps ∙ rw et);
          },
        )
  ]
    where
      missing : lookup r.epoch_number l.state.epochs ≡ none → ⊥
      missing f = unfold apply_resume in ground (arith, h)

      found_number :
          (e : EpochState) → lookup r.epoch_number l.state.epochs ≡ some e → e.epoch_number ≡ pos n
      found_number e f = lookup_number r.epoch_number e f ∙ (resume_checks e l' f h).0

  revoke_checks :
      (e : EpochState) (l' : Loop)
      → lookup r.epoch_number l.state.epochs ≡ some e
      → apply_revoke (pos n) l r ≡ ok l'
      → (r.epoch_number ≡ pos n) × (e.status ≢ Status.revoked) × (e.status ≢ Status.retired)
  unfolding apply_revoke
  revoke_checks e l' f h = ground (
    arith,
    int_eq_iff r.epoch_number (pos n),
    status_eq_iff e.status Status.revoked,
    status_eq_iff e.status Status.retired,
  )

  revoke_found :
      (l' : Loop)
      → apply_revoke (pos n) l r ≡ ok l'
      → (r.epoch_number ≡ pos n)
        × (lookup r.epoch_number l.state.epochs ≡ some top)
        × (top.status ≢ Status.revoked)
        × (top.status ≢ Status.retired)
  revoke_found l' h = elim (Option-cases (lookup r.epoch_number l.state.epochs)) [
    | inl f ↦ absurd (missing f)
    | inr (e, f) ↦
        let (rn, nr, nt) = revoke_checks e l' f h in
        let (en, et) =
          found_top l r n top older holds r.epoch_number e f
            (lookup_number r.epoch_number e f ∙ rn) in
        (
          rn,
          f ∙ ap some et,
          (λ q. nr (ap (λ (d : EpochState). d.status) et ∙ q)),
          λ q. nt (ap (λ (d : EpochState). d.status) et ∙ q),
        )
  ]
    where
      missing : lookup r.epoch_number l.state.epochs ≡ none → ⊥
      missing f = unfold apply_revoke in ground (arith, h)

  -- REVOKE of the active epoch closes it.
  pub revoke_live :
      (l' : Loop)
      → l.active ≡ some (pos n)
      → apply_revoke (pos n) l r ≡ ok l'
      → Marked n older (closed_as Status.revoked) none l'
  unfolding apply_revoke
  revoke_live l' a h =
      let (rn, f, nr, nt) = revoke_found l' h in
      let same = (same_optional_iff l.active (some r.epoch_number)).1 (a ∙ ap some (sym rn)) in
      record {
        active = ground arith;
        active_epoch = ground arith;
        epochs = replaced r.epoch_number top _ _ rn (ground arith);
      }

  -- REVOKE of an epoch that is not active marks it.
  pub revoke_idle :
      (l' : Loop)
      → l.active ≡ none
      → l.state.active_epoch ≡ none
      → apply_revoke (pos n) l r ≡ ok l'
      → Marked n older marked_revoked none l'
  unfolding apply_revoke same_optional
  revoke_idle l' a a' h =
      let (rn, f, nr, nt) = revoke_found l' h in
      record {
        active = ground arith;
        active_epoch = ground arith;
        epochs = replaced r.epoch_number top _ _ rn (ground arith);
      }
