-- ===== src/Identity/Storage/Transaction/Resumed.antt =====
-- transaction.go, RecoverPendingMutation: a recovery that is interrupted is taken up again.
use mathlib.Core.Path.{subst}
use ueg.Common.{
  ℕ, zero, suc, ◌≡◌, ◌≢◌, refl, sym, ap, ◌∙◌, inl, inr, Bool, true, false, List, none, some, Result,
  ok, ℤ, take, Bool-cases, Text, ◌==◌, int_Eq, int_eq_iff, text_Eq, arith,
}
use ueg.Crypto.{Crypto}
use ueg.Identity.{State}
use ueg.Identity.Storage.Transaction.Journal.{check_journal-again}
use ueg.Identity.Storage.{AuthorityFiles, HomeFiles, HomeWire, Error, read_lifecycle}
use ueg.Identity.Storage.Transaction.{
  Step, apply, run_steps, complete_pair, Checked, check_journal, publish_private_file,
  publish_public_file, is_published, recover_pending_mutation, recovery_steps,
}
use ueg.Identity.Storage.Transaction.NewPair.{
  Same, filed, Fits, Fits-first, Fits-filed, Fits-half, Fits-cleared,
}
use ueg.Identity.Storage.Transaction.Published.{
  seven, six, recovery_steps-seven, recovery_steps-six, self, recover-none, take-empty, finished,
  run-seven, run-six, recover-steps,
}

module _ (c : Crypto) (w : HomeWire) (home : Text) where
  -- Recovery of files that hold the journal ends like the steps do.
  module _ (f : HomeFiles) (raw : List ℕ) (k : Checked) (n m : ℤ)
      (new : k.transaction.new_epoch ≡ some n) (old : k.transaction.remove_private_epoch ≡ some m)
      (good : is_published c w home k.new_record (filed (f.epochs n)) ≡ true) where
    from-unwritten :
        (x : HomeFiles)
        → k.applied ≡ false
        → check_journal c w home f.authority raw ≡ ok k
        → x.authority ≡ f.authority
        → f.authority.pending ≡ some raw
        → Fits (f.epochs n) (x.epochs n)
        → ((j : ℤ) → finished c w home n m x j ≡ finished c w home n m f j)
        → Same (recover_pending_mutation c w home x).0 (run_steps (seven c w home k.after n m) f)
    from-unwritten x unwritten hc same hp fits ends =
        let steps = recovery_steps-seven c w home k n m unwritten new old in
        let all =
          recover-steps c w home (f.epochs n) x raw k n
            (ap (λ (a : AuthorityFiles). a.pending) same ∙ hp)
            (ap (λ (a : AuthorityFiles). check_journal c w home a raw) same ∙ hc) new good fits
          ∙ ap (λ (l : List Step). run_steps l x) steps in
        let (ax, ex) = run-seven c w home k.after n m x in
        let (af, ef) = run-seven c w home k.after n m f in
        (
          ap (λ (y : HomeFiles). y.authority) all
              ∙ ax
              ∙ ap (λ (a : AuthorityFiles). record a { lifecycle = some k.after; pending = none })
                  same
              ∙ sym af,
          λ j. ap (λ (y : HomeFiles). y.epochs j) all ∙ ex j ∙ ends j ∙ sym (ef j),
        )

    from-written :
        (x : HomeFiles) (k' : Checked)
        → k' ≡ record k { applied = true }
        → check_journal c w home x.authority raw ≡ ok k'
        → x.authority.pending ≡ some raw
        → Fits (f.epochs n) (x.epochs n)
        → Same (recover_pending_mutation c w home x).0 (run_steps (six c w home n m) x)
    from-written x k' is hc hp fits =
        let all =
          recover-steps c w home (f.epochs n) x raw k' n hp hc
            (ap (λ (l : Checked). l.transaction.new_epoch) is ∙ new)
            (ap (λ (l : Checked). is_published c w home l.new_record (filed (f.epochs n))) is
              ∙ good)
            fits
          ∙ ap (λ (l : List Step). run_steps l x)
              (recovery_steps-six c w home k' n m (ap (λ (l : Checked). l.applied) is)
                (ap (λ (l : Checked). l.transaction.new_epoch) is ∙ new)
                (ap (λ (l : Checked). l.transaction.remove_private_epoch) is ∙ old)) in
        (ap (λ (y : HomeFiles). y.authority) all, λ j. ap (λ (y : HomeFiles). y.epochs j) all)

    module _ (hp : f.authority.pending ≡ some raw)
        (hc : check_journal c w home f.authority raw ≡ ok k)
        (whole : complete_pair (f.epochs n) ≡ true) (apart : (n == m) ≡ false) where
      from-rewritten :
          k.applied ≡ false
          → read_lifecycle c w (some k.after) ≡ ok k.records
          → (x : HomeFiles) → x.authority ≡ record f.authority { lifecycle = some k.after }
          → Fits (f.epochs n) (x.epochs n)
          → ((j : ℤ) → finished c w home n m x j ≡ finished c w home n m f j)
          → Same (recover_pending_mutation c w home x).0 (run_steps (seven c w home k.after n m) f)
      from-rewritten u read x same fits ends =
          let (a, e) =
            from-written x (record k { applied = true }) refl
              (ap (λ (a : AuthorityFiles). check_journal c w home a raw) same
                ∙ check_journal-again c w home f.authority raw k hc u read)
              (ap (λ (a : AuthorityFiles). a.pending) same ∙ hp) fits in
          let (ax, ex) = run-six c w home n m x in
          let (af, ef) = run-seven c w home k.after n m f in
          (
            a ∙ ax ∙ ap (λ (a : AuthorityFiles). record a { pending = none }) same ∙ sym af,
            λ j. e j ∙ ex j ∙ ends j ∙ sym (ef j),
          )

      from-applied :
          k.applied ≡ true
          → (x : HomeFiles) → x.authority ≡ f.authority
          → Fits (f.epochs n) (x.epochs n)
          → ((j : ℤ) → finished c w home n m x j ≡ finished c w home n m f j)
          → Same (recover_pending_mutation c w home x).0 (run_steps (six c w home n m) f)
      from-applied t x same fits ends =
          let (a, e) =
            from-written x k (ap (λ (b : Bool). record k { applied = b }) t)
              (ap (λ (a : AuthorityFiles). check_journal c w home a raw) same ∙ hc)
              (ap (λ (a : AuthorityFiles). a.pending) same ∙ hp) fits in
          let (ax, ex) = run-six c w home n m x in
          let (af, ef) = run-six c w home n m f in
          (
            a ∙ ax ∙ ap (λ (a : AuthorityFiles). record a { pending = none }) same ∙ sym af,
            λ j. e j ∙ ex j ∙ ends j ∙ sym (ef j),
          )

      -- Once the journal is gone nothing more happens.
      past-end :
          (l : List Step)
          → (run_steps l f).authority.pending ≡ none
          → (l' : List Step) → l' ≡ l
          → Same (recover_pending_mutation c w home (run_steps l' f)).0 (run_steps l f)
      past-end l gone l' e =
          subst
            (λ (x : List Step).
              Same (recover_pending_mutation c w home (run_steps x f)).0 (run_steps l f))
            (sym e)
            (let same = recover-none c w home (run_steps l f) gone in
              (
                ap (λ (y : HomeFiles × Result Error State). y.0.authority) same,
                λ j. ap (λ (y : HomeFiles × Result Error State). y.0.epochs j) same,
              ))

      resumed-unwritten :
          k.applied ≡ false
          → read_lifecycle c w (some k.after) ≡ ok k.records
          → (i : ℕ)
          → Same
              (recover_pending_mutation c w home
                (run_steps (take i (seven c w home k.after n m)) f)).0
              (run_steps (seven c w home k.after n m) f)
      unfolding run_steps apply
      resumed-unwritten u read zero = from-unwritten f u hc refl hp (whole, refl, refl) (λ j. refl)
      resumed-unwritten u read (suc zero) =
          from-unwritten (run_steps (take 1 (seven c w home k.after n m)) f) u hc refl hp
            (rw (self c w home n) (Fits-first (f.epochs n) whole))
            (λ j. unfold finished in ground (arith, Bool-cases (j == n), Bool-cases (j == m)))
      resumed-unwritten u read (suc (suc zero)) =
          from-unwritten (run_steps (take 2 (seven c w home k.after n m)) f) u hc refl hp
            (rw (self c w home n) (Fits-filed (f.epochs n) whole))
            (λ j. unfold finished in ground (arith, Bool-cases (j == n), Bool-cases (j == m)))
      resumed-unwritten u read (suc (suc (suc zero))) =
          from-unwritten (run_steps (take 3 (seven c w home k.after n m)) f) u hc refl hp
            (rw (self c w home n) (Fits-half (f.epochs n) whole))
            (λ j. unfold finished in ground (arith, Bool-cases (j == n), Bool-cases (j == m)))
      resumed-unwritten u read (suc (suc (suc (suc zero)))) =
          from-unwritten (run_steps (take 4 (seven c w home k.after n m)) f) u hc refl hp
            (rw (self c w home n) (Fits-cleared (f.epochs n) whole))
            (λ j. unfold finished in ground (arith, Bool-cases (j == n), Bool-cases (j == m)))
      resumed-unwritten u read (suc (suc (suc (suc (suc zero))))) =
          from-rewritten u read (run_steps (take 5 (seven c w home k.after n m)) f) refl
            (rw (self c w home n) (Fits-cleared (f.epochs n) whole))
            (λ j. unfold finished in ground (arith, Bool-cases (j == n), Bool-cases (j == m)))
      resumed-unwritten u read (suc (suc (suc (suc (suc (suc zero)))))) =
          from-rewritten u read (run_steps (take 6 (seven c w home k.after n m)) f) refl
            (rw (self c w home n, apart) (Fits-cleared (f.epochs n) whole))
            (λ j. unfold finished in ground (arith, Bool-cases (j == n), Bool-cases (j == m)))
      resumed-unwritten u read (suc (suc (suc (suc (suc (suc (suc i))))))) =
          past-end (seven c w home k.after n m) refl
            (take (suc (suc (suc (suc (suc (suc (suc i))))))) (seven c w home k.after n m))
            (rw (take-empty c w home i) refl)

      resumed-written :
          k.applied ≡ true
          → (i : ℕ)
          → Same
              (recover_pending_mutation c w home (run_steps (take i (six c w home n m)) f)).0
              (run_steps (six c w home n m) f)
      unfolding run_steps apply
      resumed-written t zero = from-applied t f refl (whole, refl, refl) (λ j. refl)
      resumed-written t (suc zero) =
          from-applied t (run_steps (take 1 (six c w home n m)) f) refl
            (rw (self c w home n) (Fits-first (f.epochs n) whole))
            (λ j. unfold finished in ground (arith, Bool-cases (j == n), Bool-cases (j == m)))
      resumed-written t (suc (suc zero)) =
          from-applied t (run_steps (take 2 (six c w home n m)) f) refl
            (rw (self c w home n) (Fits-filed (f.epochs n) whole))
            (λ j. unfold finished in ground (arith, Bool-cases (j == n), Bool-cases (j == m)))
      resumed-written t (suc (suc (suc zero))) =
          from-applied t (run_steps (take 3 (six c w home n m)) f) refl
            (rw (self c w home n) (Fits-half (f.epochs n) whole))
            (λ j. unfold finished in ground (arith, Bool-cases (j == n), Bool-cases (j == m)))
      resumed-written t (suc (suc (suc (suc zero)))) =
          from-applied t (run_steps (take 4 (six c w home n m)) f) refl
            (rw (self c w home n) (Fits-cleared (f.epochs n) whole))
            (λ j. unfold finished in ground (arith, Bool-cases (j == n), Bool-cases (j == m)))
      resumed-written t (suc (suc (suc (suc (suc zero))))) =
          from-applied t (run_steps (take 5 (six c w home n m)) f) refl
            (rw (self c w home n, apart) (Fits-cleared (f.epochs n) whole))
            (λ j. unfold finished in ground (arith, Bool-cases (j == n), Bool-cases (j == m)))
      resumed-written t (suc (suc (suc (suc (suc (suc i)))))) =
          past-end (six c w home n m) refl
            (take (suc (suc (suc (suc (suc (suc i)))))) (six c w home n m))
            (rw (take-empty c w home i) refl)

  -- Take files whose journal is accepted, of a mutation that replaces the key of one epoch by the
  -- key of another epoch, where each half of the new pair is at its final or its staged name and the
  -- pair is the one of the record; and take a new lifecycle file that can be read back. A recovery
  -- that is lost after any number of its steps, followed by a recovery, leaves the files
  -- that one recovery leaves, which are those after all the steps of the journal.
  pub recover_pending_mutation-resumed :
      (f : HomeFiles) (raw : List ℕ) (k : Checked) (n m : ℤ)
      → f.authority.pending ≡ some raw
      → check_journal c w home f.authority raw ≡ ok k
      → k.transaction.new_epoch ≡ some n
      → k.transaction.remove_private_epoch ≡ some m
      → n ≢ m
      → complete_pair (f.epochs n) ≡ true
      → is_published c w home k.new_record (publish_public_file (publish_private_file (f.epochs n)))
        ≡ true
      → read_lifecycle c w (some k.after) ≡ ok k.records
      → (i : ℕ)
      → Same (recover_pending_mutation c w home f).0 (run_steps (recovery_steps c w home k) f)
        × Same
            (recover_pending_mutation c w home (run_steps (take i (recovery_steps c w home k)) f)).0
            (run_steps (recovery_steps c w home k) f)
  unfolding run_steps
  recover_pending_mutation-resumed f raw k n m hp hc new old apart whole good read i =
      elim (Bool-cases k.applied) [
        | inl t ↦ rw (recovery_steps-six c w home k n m t new old) (
          resumed-written f raw k n m new old good hp hc whole differ t 0,
          resumed-written f raw k n m new old good hp hc whole differ t i,
        )
        | inr u ↦ rw (recovery_steps-seven c w home k n m u new old) (
          resumed-unwritten f raw k n m new old good hp hc whole differ u read 0,
          resumed-unwritten f raw k n m new old good hp hc whole differ u read i,
        )
      ]
    where
      differ : (n == m) ≡ false
      differ = ground (arith, int_eq_iff n m, apart)
