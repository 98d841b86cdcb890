-- ===== src/Identity/Lifecycle/Kept.antt =====
-- lifecycle.go, DeriveState: the state keeps the genesis and the records that it is derived from, and
-- ends at the last of them.
use ueg.Common.{
  ℕ, zero, suc, ◌≡◌, sym, ap, ◌∙◌, inl, inr, List, [], ◌∷◌, ◌++◌, Option, none, some, ok, ℤ, pos,
  >>=-eq-ok, Result-cases, Option-cases, Text, length, ltb, ◌==◌, ◌||◌, nat_Eq, refuse_if,
  int_eq_iff, arith,
}
use ueg.Crypto.{Crypto}
use ueg.Keys.{Pair, load_public_pem_text}
use ueg.Identity.{Genesis, LedgerBoundary, LifecycleRecord, State, Action, Error}
use ueg.Identity.Lifecycle.{
  Loop, apply_transition, apply_suspend, apply_resume, apply_revoke, apply_action,
  apply_lifecycle_record, begin_lifecycle, enter_record, derive_step, derive_from, derive_state,
  start_loop, validate_genesis, latest_epoch_number,
}
use ueg.Identity.Lifecycle.Derive.{derive_step-parts}

-- What no transition changes.
abbrev pub Kept : Loop → Loop → Type 0
Kept l l' = (l'.state.genesis ≡ l.state.genesis) × (l'.state.records ≡ l.state.records)

apply_transition-Kept :
    (latest : ℤ) (l l' : Loop) (r : LifecycleRecord) (op : Pair)
    → apply_transition latest l r op ≡ ok l'
    → Kept l l'
unfolding apply_transition
apply_transition-Kept latest l l' r op h = ground arith

apply_suspend-Kept : (l l' : Loop) (r : LifecycleRecord) → apply_suspend l r ≡ ok l' → Kept l l'
unfolding apply_suspend
apply_suspend-Kept l l' r h = ground arith

apply_resume-Kept :
    (latest : ℤ) (l l' : Loop) (r : LifecycleRecord) → apply_resume latest l r ≡ ok l' → Kept l l'
unfolding apply_resume
apply_resume-Kept latest l l' r h = ground arith

apply_revoke-Kept :
    (latest : ℤ) (l l' : Loop) (r : LifecycleRecord) → apply_revoke latest l r ≡ ok l' → Kept l l'
unfolding apply_revoke
apply_revoke-Kept latest l l' r h = ground arith

apply_action-Kept :
    (a : Action) (latest : ℤ) (l l' : Loop) (r : LifecycleRecord) (op : Pair)
    → apply_action a latest l r op ≡ ok l'
    → Kept l l'
unfolding apply_action
apply_action-Kept Action.rotate latest l l' r op h = apply_transition-Kept latest l l' r op h
apply_action-Kept Action.recover latest l l' r op h = apply_transition-Kept latest l l' r op h
apply_action-Kept Action.suspend latest l l' r op h = apply_suspend-Kept l l' r h
apply_action-Kept Action.resume latest l l' r op h = apply_resume-Kept latest l l' r h
apply_action-Kept Action.revoke latest l l' r op h = apply_revoke-Kept latest l l' r h
apply_action-Kept Action.genesis latest l l' r op h = cc
apply_action-Kept Action.migration latest l l' r op h = cc
apply_action-Kept (Action.other name) latest l l' r op h = cc

module _ (c : Crypto) (g : Genesis) (recovery epoch_zero : Pair) where
  begin_lifecycle-Kept :
      (l l' : Loop) (r : LifecycleRecord) → begin_lifecycle g epoch_zero l r ≡ ok l' → Kept l l'
  unfolding begin_lifecycle
  begin_lifecycle-Kept l l' r h = ground arith

  enter_record-Kept :
      (index : ℕ) (l l' : Loop) (r : LifecycleRecord) (op : Pair)
      → enter_record c g epoch_zero index l r op ≡ ok l'
      → Kept l l'
  unfolding enter_record
  enter_record-Kept zero l l' r op h = begin_lifecycle-Kept l l' r h
  enter_record-Kept (suc n) l l' r op h = elim (Result-cases (apply_lifecycle_record l r op)) [
    | inr (e, q) ↦ absurd (ground arith)
    | inl (m, q) ↦ let same : m ≡ l' = ground arith in rw (← same) (applied m q)
  ]
    where
      applied : (m : Loop) → apply_lifecycle_record l r op ≡ ok m → Kept l m
      applied m q = elim (Option-cases (latest_epoch_number l.state.epochs)) [
        | inl e ↦ absurd (unfold apply_lifecycle_record in ground (arith, q))
        | inr (k, e) ↦
            apply_action-Kept r.action k l m r op
              (unfold apply_lifecycle_record in ground (arith, q))
      ]

  derive_step-Kept :
      (index : ℕ) (prior : Option LedgerBoundary) (l l' : Loop) (r : LifecycleRecord)
      → derive_step c g recovery epoch_zero index prior l r ≡ ok l'
      → Kept l l'
        × (l'.state.last_sequence ≡ r.lifecycle_sequence)
        × (l'.state.last_record_digest ≡ r.record_digest)
  derive_step-Kept index prior l l' r h =
      elim (Result-cases (load_public_pem_text c r.operational_public_key_pem)) [
        | inr (e, f) ↦ absurd (unfold derive_step in ground (arith, h))
        | inl (op, f) ↦ elim (Result-cases (enter_record c g epoch_zero index l r op)) [
          | inr (e, q) ↦ absurd (unfold derive_step in ground (arith, h))
          | inl (m, q) ↦
              let (fo, ba, eq) =
                derive_step-parts c g recovery epoch_zero index prior l r l' m op f q h in
              let (same_g, same_r) = enter_record-Kept index l m r op q in
              (
                (
                  ap (λ (t : Loop). t.state.genesis) eq ∙ same_g,
                  ap (λ (t : Loop). t.state.records) eq ∙ same_r,
                ),
                ap (λ (t : Loop). t.state.last_sequence) eq ∙ sym (numbered h),
                ap (λ (t : Loop). t.state.last_record_digest) eq,
              )
        ]
      ]
    where
      numbered :
          derive_step c g recovery epoch_zero index prior l r ≡ ok l'
          → r.lifecycle_sequence ≡ pos index
      numbered q =
          unfold derive_step in ground (arith, q, int_eq_iff r.lifecycle_sequence (pos index))

  derive_from-Kept :
      (index : ℕ) (prior : Option LedgerBoundary) (l l' : Loop) (rs : List LifecycleRecord)
      → derive_from c g recovery epoch_zero index prior l rs ≡ ok l'
      → Kept l l'
  unfolding derive_from
  derive_from-Kept index prior l l' [] h = (ground arith, ground arith)
  derive_from-Kept index prior l l' (r ∷ rs) h =
      let (m, hm, h1) = >>=-eq-ok (derive_step c g recovery epoch_zero index prior l r) _ h in
      let (kept, n, d) = derive_step-Kept index prior l m r hm in
      let (a', b') = derive_from-Kept (suc index) (some r.ledger_boundary) m l' rs h1 in
      (a' ∙ kept.0, b' ∙ kept.1)

  derive_from-last :
      (index : ℕ) (prior : Option LedgerBoundary) (l l' : Loop) (rs : List LifecycleRecord)
      (r : LifecycleRecord)
      → derive_from c g recovery epoch_zero index prior l (rs ++ r ∷ []) ≡ ok l'
      → (l'.state.last_sequence ≡ r.lifecycle_sequence)
        × (l'.state.last_record_digest ≡ r.record_digest)
  unfolding derive_from
  derive_from-last index prior l l' [] r h =
      let (m, hm, h1) = >>=-eq-ok (derive_step c g recovery epoch_zero index prior l r) _ h in
      let (k, n, d) = derive_step-Kept index prior l m r hm in
      let same : m ≡ l' = ground arith in (rw (← same) n, rw (← same) d)
  derive_from-last index prior l l' (x ∷ rs) r h =
      let (m, hm, h1) = >>=-eq-ok (derive_step c g recovery epoch_zero index prior l x) _ h in
      derive_from-last (suc index) (some x.ledger_boundary) m l' rs r h1

module _ (c : Crypto) (home : Text) (g : Genesis) where
  pub derive_state-Kept :
      (rs : List LifecycleRecord) (s : State)
      → derive_state c home g rs ≡ ok s
      → (s.genesis ≡ g) × (s.records ≡ rs)
  unfolding derive_state
  derive_state-Kept rs s h =
      let (keys, hv, h1) = >>=-eq-ok (validate_genesis c g) _ h in
      let (u, hr, h2) =
        >>=-eq-ok (refuse_if (length rs == 0 || ltb 10000 (length rs)) Error.record_count) _ h1 in
      let (l, hl, h3) =
        >>=-eq-ok (derive_from c g keys.0 keys.1 0 none (start_loop home g rs keys.0) rs) _ h2 in
      let (a, b) = derive_from-Kept c g keys.0 keys.1 0 none _ l rs hl in
      let same : l.state ≡ s = ground arith in
      (ap (λ (t : State). t.genesis) (sym same) ∙ a, ap (λ (t : State). t.records) (sym same) ∙ b)

  pub derive_state-last :
      (rs : List LifecycleRecord) (r : LifecycleRecord) (s : State)
      → derive_state c home g (rs ++ r ∷ []) ≡ ok s
      → (s.last_sequence ≡ r.lifecycle_sequence) × (s.last_record_digest ≡ r.record_digest)
  unfolding derive_state
  derive_state-last rs r s h =
      let all = rs ++ r ∷ [] in
      let (keys, hv, h1) = >>=-eq-ok (validate_genesis c g) _ h in
      let (u, hr, h2) =
        >>=-eq-ok (refuse_if (length all == 0 || ltb 10000 (length all)) Error.record_count) _ h1 in
      let (l, hl, h3) =
        >>=-eq-ok (derive_from c g keys.0 keys.1 0 none (start_loop home g all keys.0) all) _ h2 in
      let (a, b) = derive_from-last c g keys.0 keys.1 0 none _ l rs r hl in
      let same : l.state ≡ s = ground arith in
      (
        ap (λ (t : State). t.last_sequence) (sym same) ∙ a,
        ap (λ (t : State). t.last_record_digest) (sym same) ∙ b,
      )
