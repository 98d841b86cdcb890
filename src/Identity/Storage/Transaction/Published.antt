-- ===== src/Identity/Storage/Transaction/Published.antt =====
-- transaction.go, publishPendingPair: the new pair under its final names, from each point at which the
-- publication may have been lost.
use ueg.Common.{
  ℕ, zero, suc, ◌≡◌, refl, ap, ◌∙◌, true, false, ◌||◌, List, [], ◌∷◌, ◌++◌, Option, none, some,
  Result, ok, err, ℤ, take, is_some, Bool-cases, Text, ◌==◌, int_Eq, int_eq_iff, text_Eq, arith,
}
use ueg.Crypto.{Crypto}
use ueg.Identity.{LifecycleRecord, State}
use ueg.Identity.Storage.{EpochFiles, HomeFiles, HomeWire, Error, load_public, load_existing}
use ueg.Identity.Storage.Transaction.{
  Step, publish_private, publish_public, clear_pending_private, clear_pending_public,
  remove_private, replace_lifecycle, clear_journal, apply, run_steps, complete_pair, Checked,
  publish_steps, clear_steps, finish_steps, check_journal, publish_private_file,
  publish_public_file, reload, finish_mutation, is_published, publish_pending_pair,
  complete_mutation, recover_pending_mutation, recovery_steps,
}
use ueg.Identity.Storage.Transaction.NewPair.{filed, clean, strip, Fits, complete-there}

module _ (c : Crypto) (w : HomeWire) (home : Text) where
  -- The journal of a new key `n` in place of the key of epoch `m`.
  abbrev pub seven : List ℕ → ℤ → ℤ → List Step
  seven after n m =
      publish_private n
      ∷ publish_public n
      ∷ clear_pending_private n
      ∷ clear_pending_public n
      ∷ replace_lifecycle after
      ∷ remove_private m
      ∷ clear_journal
      ∷ []

  abbrev pub six : ℤ → ℤ → List Step
  six n m =
      publish_private n
      ∷ publish_public n
      ∷ clear_pending_private n
      ∷ clear_pending_public n
      ∷ remove_private m
      ∷ clear_journal
      ∷ []

  pub recovery_steps-seven :
      (k : Checked) (n m : ℤ)
      → k.applied ≡ false
      → k.transaction.new_epoch ≡ some n
      → k.transaction.remove_private_epoch ≡ some m
      → recovery_steps c w home k ≡ seven k.after n m
  unfolding recovery_steps publish_steps clear_steps finish_steps
  recovery_steps-seven k n m a b d = rw (a, b, d) refl

  pub recovery_steps-six :
      (k : Checked) (n m : ℤ)
      → k.applied ≡ true
      → k.transaction.new_epoch ≡ some n
      → k.transaction.remove_private_epoch ≡ some m
      → recovery_steps c w home k ≡ six n m
  unfolding recovery_steps publish_steps clear_steps finish_steps
  recovery_steps-six k n m a b d = rw (a, b, d) refl

  pub self : (n : ℤ) → (n == n) ≡ true
  self n = (int_eq_iff n n).1 refl

  recover_complete :
      (x : HomeFiles) (raw : List ℕ) (k : Checked)
      → x.authority.pending ≡ some raw
      → check_journal c w home x.authority raw ≡ ok k
      → recover_pending_mutation c w home x ≡ complete_mutation c w home k x
  unfolding recover_pending_mutation
  recover_complete x raw k hp hc =
      ap
        (λ (o : Option (List ℕ)). elim o [
          | none ↦ (x, load_public c w home x.authority)
          | some raw ↦ elim (check_journal c w home x.authority raw) [
            | err e ↦ (x, err e)
            | ok k ↦ complete_mutation c w home k x
          ]
        ])
        hp
      ∙ ap
          (λ (o : Result Error Checked). elim o [
            | err e ↦ (x, err e)
            | ok k ↦ complete_mutation c w home k x
          ])
          hc

  pub recover-none :
      (x : HomeFiles)
      → x.authority.pending ≡ none
      → recover_pending_mutation c w home x ≡ (x, load_public c w home x.authority)
  unfolding recover_pending_mutation
  recover-none x h =
      ap
        (λ (o : Option (List ℕ)). elim o [
          | none ↦ (x, load_public c w home x.authority)
          | some raw ↦ elim (check_journal c w home x.authority raw) [
            | err e ↦ (x, err e)
            | ok k ↦ complete_mutation c w home k x
          ]
        ])
        h

  complete-publish :
      (x : HomeFiles) (k : Checked) (n : ℤ)
      → k.transaction.new_epoch ≡ some n
      → complete_pair (x.epochs n) ≡ true
      → complete_mutation c w home k x ≡ publish_pending_pair c w home k n x
  unfolding complete_mutation
  complete-publish x k n hn hp = ground arith

  pub take-empty : (i : ℕ) → take {A = Step} i [] ≡ []
  take-empty zero = refl
  take-empty (suc i) = refl

  run-steps_append :
      (a b : List Step) (f : HomeFiles) → run_steps (a ++ b) f ≡ run_steps b (run_steps a f)
  unfolding run_steps
  run-steps_append [] b f = refl
  run-steps_append (s ∷ a) b f = run-steps_append a b (apply s f)

  published-private :
      (x : HomeFiles) (n : ℤ)
      → (apply (publish_private n) x).epochs n ≡ publish_private_file (x.epochs n)
  unfolding apply
  published-private x n = rw (self n) refl

  published-public :
      (x : HomeFiles) (n : ℤ)
      → (apply (publish_public n) x).epochs n ≡ publish_public_file (x.epochs n)
  unfolding apply
  published-public x n = rw (self n) refl

  same-public :
      (e : EpochFiles)
      → (is_some (publish_private_file e).public || is_some (publish_private_file e).pending_public)
        ≡ (is_some e.public || is_some e.pending_public)
  same-public e = ground arith

  recovery-append :
      (k : Checked) (n : ℤ) (x : HomeFiles)
      → k.transaction.new_epoch ≡ some n
      → run_steps (recovery_steps c w home k) x
        ≡ run_steps
            (finish_steps k)
            (run_steps (clear_steps n) (apply (publish_public n) (apply (publish_private n) x)))
  unfolding recovery_steps publish_steps run_steps
  recovery-append k n x hn =
      ap
        (λ (o : Option ℤ).
          run_steps
            (elim o [
              | none ↦ finish_steps k
              | some n ↦ publish_steps n ++ (clear_steps n ++ finish_steps k)
            ])
            x)
        hn
      ∙ run-steps_append (clear_steps n) (finish_steps k)
          (apply (publish_public n) (apply (publish_private n) x))

  -- The new epoch as it stands while the pair is published.
  publish-steps :
      (x : HomeFiles) (k : Checked) (n : ℤ)
      → k.transaction.new_epoch ≡ some n
      → (is_some (x.epochs n).private || is_some (x.epochs n).pending_private) ≡ true
      → (is_some (x.epochs n).public || is_some (x.epochs n).pending_public) ≡ true
      → is_published c w home k.new_record (publish_public_file (publish_private_file (x.epochs n)))
        ≡ true
      → publish_pending_pair c w home k n x ≡ (
        run_steps (recovery_steps c w home k) x,
        reload c w home k (run_steps (recovery_steps c w home k) x),
      )
  unfolding publish_pending_pair finish_mutation
  publish-steps x k n hn h1 h2 good =
      let first = apply (publish_private n) x in
      let good1 : is_published c w home k.new_record ((apply (publish_public n) first).epochs n)
          ≡ true =
        ap (is_published c w home k.new_record)
          (published-public first n ∙ ap publish_public_file (published-private x n))
        ∙ good in
      let there : (is_some (first.epochs n).public || is_some (first.epochs n).pending_public)
          ≡ true =
        ap (λ (e : EpochFiles). is_some e.public || is_some e.pending_public)
          (published-private x n)
        ∙ same-public (x.epochs n)
        ∙ h2 in
      rw (recovery-append k n x hn) (rw (good1, h1, there) refl)

  is_published-same :
      (r : LifecycleRecord) (e f : EpochFiles)
      → f.private ≡ e.private
      → f.public ≡ e.public
      → is_published c w home r f ≡ is_published c w home r e
  unfolding is_published load_existing
  is_published-same r e f a b =
      ap (λ (p : Option (List ℕ)). is_published c w home r (record f { private = p })) a
      ∙ ap
          (λ (p : Option (List ℕ)).
            is_published c w home r (record f { private = e.private; public = p }))
          b

  -- What the steps leave of the files.
  unfoldable pub finished : ℤ → ℤ → HomeFiles → ℤ → EpochFiles
  finished n m x j = strip (j == m) (clean (j == n) (x.epochs j))

  pub run-seven :
      (after : List ℕ) (n m : ℤ) (x : HomeFiles)
      → ((run_steps (seven after n m) x).authority
          ≡ record x.authority { lifecycle = some after; pending = none })
        × ((j : ℤ) → (run_steps (seven after n m) x).epochs j ≡ finished n m x j)
  unfolding run_steps apply finished
  run-seven after n m x = (refl, λ j. ground (arith, Bool-cases (j == n), Bool-cases (j == m)))

  pub run-six :
      (n m : ℤ) (x : HomeFiles)
      → ((run_steps (six n m) x).authority ≡ record x.authority { pending = none })
        × ((j : ℤ) → (run_steps (six n m) x).epochs j ≡ finished n m x j)
  unfolding run_steps apply finished
  run-six n m x = (refl, λ j. ground (arith, Bool-cases (j == n), Bool-cases (j == m)))

  -- Recovery where the new pair can be published runs all the steps of the journal.
  pub recover-steps :
      (e : EpochFiles) (x : HomeFiles) (raw : List ℕ) (k : Checked) (n : ℤ)
      → x.authority.pending ≡ some raw
      → check_journal c w home x.authority raw ≡ ok k
      → k.transaction.new_epoch ≡ some n
      → is_published c w home k.new_record (filed e) ≡ true
      → Fits e (x.epochs n)
      → (recover_pending_mutation c w home x).0 ≡ run_steps (recovery_steps c w home k) x
  recover-steps e x raw k n hp hc hn good (whole, priv, publ) =
      let (h1, h2) = complete-there (x.epochs n) whole in
      ap (λ (r : HomeFiles × Result Error State). r.0)
        (recover_complete x raw k hp hc
          ∙ complete-publish x k n hn whole
          ∙ publish-steps x k n hn h1 h2
              (is_published-same k.new_record (filed e) (filed (x.epochs n)) priv publ ∙ good))
