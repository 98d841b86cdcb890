-- ===== src/Identity/Lifecycle/Derive.antt =====
-- lifecycle.go, DeriveState: the invariant along the loop, and of the state that it returns.
use ueg.Common.{
  ℕ, suc, ◌≡◌, refl, sym, ap, ◌∙◌, inl, inr, ◌≢◌, List, [], ◌∷◌, Option, none, some, true, false, ℤ,
  pos, ◌≤ℤ◌, lt_int, minus_one, ok, err, >>=-eq-ok, Text, Result-cases, arith, insert, lookup,
  int_eq_iff,
}
use ueg.Crypto.{Crypto}
use ueg.Keys
use ueg.Keys.{Pair, load_public_pem_text}
use ueg.Identity.{Genesis, LedgerBoundary, LifecycleRecord, State, Error}
use ueg.Identity.Records.{validate_record_basics, validate_boundary}
use ueg.Identity.Lifecycle.{
  Loop, boundary_follows, begin_lifecycle, validate_genesis, enter_record, derive_step, derive_from,
  derive_state, new_epoch, retiring_key, start_loop,
}
use ueg.Identity.Lifecycle.Invariant.{Inv, live, apply_lifecycle_record-Inv}

module _ (c : Crypto) where
  -- A record that passed the checks of its fields names an epoch and a boundary of the ledger.
  pub record_basics :
      (r : LifecycleRecord) (recovery operational : Pair) (retiring : Option Pair)
      → validate_record_basics c r recovery operational retiring ≡ ok tt
      → (lt_int r.epoch_number (pos 0) ≡ false) × (validate_boundary r.ledger_boundary ≡ true)
  unfolding validate_record_basics
  record_basics r recovery operational retiring h = ground arith

validate_boundary-le :
    (b : LedgerBoundary) → validate_boundary b ≡ true → minus_one ≤ℤ b.sequence_no
unfolding validate_boundary
validate_boundary-le b h = ground (arith, int_eq_iff b.sequence_no minus_one)

boundary_follows-le :
    (prior b : LedgerBoundary)
    → boundary_follows (some prior) b ≡ true
    → prior.sequence_no ≤ℤ b.sequence_no
unfolding boundary_follows
boundary_follows-le prior b h = ground arith

begin-Inv :
    (g : Genesis) (epoch_zero : Pair) (l l' : Loop) (r : LifecycleRecord)
    → l.state.epochs ≡ []
    → minus_one ≤ℤ r.ledger_boundary.sequence_no
    → begin_lifecycle g epoch_zero l r ≡ ok l'
    → Inv r.ledger_boundary.sequence_no l'
unfolding begin_lifecycle insert lookup
begin-Inv g epoch_zero l l' r e le h = record {
  n = 0;
  top = new_epoch r (record { sequence_no = minus_one; receipt_id = none });
  older = [];
  holds = record {
    lo = minus_one;
    epochs = ground arith;
    number = ground (arith, int_eq_iff r.epoch_number (pos 0));
    past = tt;
  };
  same = ground arith;
  phase = live (ground arith) refl (refl, omega arith, omega arith);
}

-- The state between two records, with the pointer of the loop where the state has it.
abbrev pub at_rest : State → Loop
at_rest s = record { state = s; active = s.active_epoch; previous_digest = none }

-- The boundary of the last record.
abbrev pub last_boundary : LedgerBoundary → List LifecycleRecord → LedgerBoundary
last_boundary b [] = b
last_boundary b (r ∷ rs) = last_boundary r.ledger_boundary rs

-- The epochs and the pointers alone matter to the invariant.
Inv-of_same :
    (hi : ℤ) (l l' : Loop)
    → l'.state.epochs ≡ l.state.epochs
    → l'.state.active_epoch ≡ l.state.active_epoch
    → l'.active ≡ l.active
    → Inv hi l
    → Inv hi l'
Inv-of_same hi l l' e a p v = record {
  n = v.n;
  top = v.top;
  older = v.older;
  holds = record {
    lo = v.holds.lo;
    epochs = e ∙ v.holds.epochs;
    number = v.holds.number;
    past = v.holds.past;
  };
  same = a ∙ v.same ∙ sym p;
  phase = rw p v.phase;
}

module _ (c : Crypto) (g : Genesis) (recovery epoch_zero : Pair) where
  -- What one accepted round has checked and done.
  pub record Round (index : ℕ) (prior : Option LedgerBoundary) (l : Loop) (r : LifecycleRecord)
      (l' : Loop) : Type 0 where
    pub entered : Loop
    pub operational : Pair
    pub entry : enter_record c g epoch_zero index l r operational ≡ ok entered
    pub follows : boundary_follows prior r.ledger_boundary ≡ true
    pub number : lt_int r.epoch_number (pos 0) ≡ false
    pub boundary : validate_boundary r.ledger_boundary ≡ true
    pub epochs : l'.state.epochs ≡ entered.state.epochs
    pub trust : l'.state.trust ≡ entered.state.trust
    pub active_epoch : l'.state.active_epoch ≡ entered.state.active_epoch
    pub active : l'.active ≡ entered.active

  pub derive_step-parts :
      (index : ℕ) (prior : Option LedgerBoundary) (l : Loop) (r : LifecycleRecord) (l' m : Loop)
      (op : Pair)
      → load_public_pem_text c r.operational_public_key_pem ≡ ok op
      → enter_record c g epoch_zero index l r op ≡ ok m
      → derive_step c g recovery epoch_zero index prior l r ≡ ok l'
      → (boundary_follows prior r.ledger_boundary ≡ true)
        × (validate_record_basics c r recovery op (retiring_key l r.previous_epoch) ≡ ok tt)
        × (l' ≡ record m {
          previous_digest = some r.record_digest;
          state = record m.state {
            last_sequence = pos index;
            last_record_digest = r.record_digest;
          };
        })
  unfolding derive_step
  derive_step-parts index prior l r l' m op a b h = (ground arith, ground arith, ground arith)

  pub derive_step-Round :
      (index : ℕ) (prior : Option LedgerBoundary) (l : Loop) (r : LifecycleRecord) (l' : Loop)
      → derive_step c g recovery epoch_zero index prior l r ≡ ok l'
      → Round index prior l r l'
  derive_step-Round index prior l r l' h =
      elim (Result-cases (load_public_pem_text c r.operational_public_key_pem)) [
        | inr (e, f) ↦ absurd (no_key e f)
        | inl (op, f) ↦ elim (Result-cases (enter_record c g epoch_zero index l r op)) [
          | inr (e, q) ↦ absurd (refused op e f q)
          | inl (m, q) ↦
              let (fo, ba, eq) = derive_step-parts index prior l r l' m op f q h in
              let (nn, bo) = record_basics c r recovery op (retiring_key l r.previous_epoch) ba in
              record {
                entered = m;
                operational = op;
                entry = q;
                follows = fo;
                number = nn;
                boundary = bo;
                epochs = ap (λ (t : Loop). t.state.epochs) eq;
                trust = ap (λ (t : Loop). t.state.trust) eq;
                active_epoch = ap (λ (t : Loop). t.state.active_epoch) eq;
                active = ap (λ (t : Loop). t.active) eq;
              }
        ]
      ]
    where
      no_key : (e : Keys.Error) → load_public_pem_text c r.operational_public_key_pem ≡ err e → ⊥
      no_key e f = unfold derive_step in ground (arith, h)

      refused :
          (op : Pair) (e : Error)
          → load_public_pem_text c r.operational_public_key_pem ≡ ok op
          → enter_record c g epoch_zero index l r op ≡ err e
          → ⊥
      refused op e f q = unfold derive_step in ground (arith, h)

  step-Inv :
      (n : ℕ) (b : LedgerBoundary) (l : Loop) (r : LifecycleRecord) (l' : Loop)
      → Inv b.sequence_no l
      → derive_step c g recovery epoch_zero (suc n) (some b) l r ≡ ok l'
      → Inv r.ledger_boundary.sequence_no l'
  unfolding enter_record
  step-Inv n b l r l' v h =
      let d = derive_step-Round (suc n) (some b) l r l' h in
      Inv-of_same r.ledger_boundary.sequence_no d.entered l' d.epochs d.active_epoch d.active (
        apply_lifecycle_record-Inv l r d.operational d.entered b.sequence_no v
          (boundary_follows-le b r.ledger_boundary d.follows) d.number (ground (arith, d.entry)))

  first_step-Inv :
      (l : Loop) (r : LifecycleRecord) (l' : Loop)
      → l.state.epochs ≡ []
      → derive_step c g recovery epoch_zero 0 none l r ≡ ok l'
      → Inv r.ledger_boundary.sequence_no l'
  unfolding enter_record
  first_step-Inv l r l' e h =
      let d = derive_step-Round 0 none l r l' h in
      Inv-of_same r.ledger_boundary.sequence_no d.entered l' d.epochs d.active_epoch d.active (
        begin-Inv g epoch_zero l d.entered r e (validate_boundary-le r.ledger_boundary d.boundary)
          d.entry)

  derive_from-Inv :
      (n : ℕ) (b : LedgerBoundary) (l : Loop) (rs : List LifecycleRecord) (l' : Loop)
      → Inv b.sequence_no l
      → derive_from c g recovery epoch_zero (suc n) (some b) l rs ≡ ok l'
      → Inv (last_boundary b rs).sequence_no l'
  unfolding derive_from
  derive_from-Inv n b l [] l' v h =
      Inv-of_same b.sequence_no l l' (ground arith) (ground arith) (ground arith) v
  derive_from-Inv n b l (r ∷ rs) l' v h =
      let (l₁, e, rest) =
        >>=-eq-ok (derive_step c g recovery epoch_zero (suc n) (some b) l r) _ h in
      derive_from-Inv (suc n) r.ledger_boundary l₁ rs l' (step-Inv n b l r l₁ v e) rest

  -- Of a whole chain, from the state that the loop starts in.
  chain-Inv :
      (l : Loop) (r : LifecycleRecord) (rs : List LifecycleRecord) (l' : Loop)
      → l.state.epochs ≡ []
      → derive_from c g recovery epoch_zero 0 none l (r ∷ rs) ≡ ok l'
      → Inv (last_boundary r.ledger_boundary rs).sequence_no l'
  unfolding derive_from
  chain-Inv l r rs l' e h =
      let (l₁, s, rest) = >>=-eq-ok (derive_step c g recovery epoch_zero 0 none l r) _ h in
      derive_from-Inv 0 r.ledger_boundary l₁ rs l' (first_step-Inv l r l₁ e s) rest

-- A returned state is that of the finished loop.
pub derive_state-loop :
    (c : Crypto) (home : Text) (g : Genesis) (rs : List LifecycleRecord) (s : State)
    → derive_state c home g rs ≡ ok s
    → (recovery : Pair) × (zero_pair : Pair) × (l : Loop) × (derive_from c g recovery zero_pair 0
          none
          (start_loop home g rs recovery)
          rs
        ≡ ok l)
      × (s ≡ l.state)
      × (rs ≢ [])
derive_state-loop c home g rs s h = elim (Result-cases (validate_genesis c g)) [
  | inr (e, f) ↦ absurd (unfold derive_state in ground (arith, h))
  | inl ((a, b), f) ↦ elim (Result-cases (derive_from c g a b 0 none (start_loop home g rs a) rs)) [
    | inr (e, q) ↦ absurd (unfold derive_state in ground (arith, h))
    | inl (l, q) ↦ (
      a,
      b,
      l,
      q,
      unfold derive_state in ground (arith, h),
      λ z. unfold derive_state in ground (arith, h),
    )
  ]
]

-- A state that DeriveState returns holds the invariant at the boundary of its last record: epochs
-- numbered from 0 without a gap, the older ones final with all windows closed and in order on the
-- ledger, and at most the newest active, whose last window is then the only open one.
pub derive_state-Inv :
    (c : Crypto) (home : Text) (g : Genesis) (r : LifecycleRecord) (rs : List LifecycleRecord)
    (s : State)
    → derive_state c home g (r ∷ rs) ≡ ok s
    → Inv (last_boundary r.ledger_boundary rs).sequence_no (at_rest s)
derive_state-Inv c home g r rs s h =
    let (a, b, l, q, e, ne) = derive_state-loop c home g (r ∷ rs) s h in
    let v = chain-Inv c g a b (start_loop home g (r ∷ rs) a) r rs l refl q in
    Inv-of_same (last_boundary r.ledger_boundary rs).sequence_no l (at_rest s)
      (ap (λ (t : State). t.epochs) e) (ap (λ (t : State). t.active_epoch) e)
      (ap (λ (t : State). t.active_epoch) e ∙ v.same) v
