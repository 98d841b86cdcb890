-- ===== src/Ledger/Authority.antt =====
-- ledger.go, sequenceAuthorized, over the epochs that DeriveState returns: which epoch may sign at
-- which place of the ledger.
use ueg.Common.{
  ℕ, zero, suc, ◌≡◌, sym, ◌∙◌, inl, inr, true, false, List, [], ◌∷◌, none, some, ℤ, pos, ◌≤ℤ◌, ◌<ℤ◌,
  lookup, int_Eq, int_eq_iff, Bool-cases, Text, ok, arith,
}
use ueg.Crypto.{Crypto}
use ueg.Identity.{AuthorizationWindow, EpochState, State, Genesis, LifecycleRecord}
use ueg.Identity.Lifecycle.{derive_state}
use ueg.Identity.Lifecycle.Windows.{Spans, OpenSpans, Spans-le}
use ueg.Identity.Lifecycle.Shape.{Epochs, Past}
use ueg.Identity.Lifecycle.Invariant.{Inv, Phase, live, idle}
use ueg.Identity.Lifecycle.Derive.{at_rest, last_boundary, derive_state-Inv}
use ueg.Ledger.{in_window, sequence_authorized_in, sequence_authorized}

-- Closed windows authorize nothing outside the interval that they span.
Spans-authorized :
    (lo hi q : ℤ) (ws : List AuthorizationWindow)
    → Spans lo hi ws
    → sequence_authorized_in ws q ≡ true
    → (lo <ℤ q) × (q ≤ℤ hi)
unfolding sequence_authorized_in in_window
Spans-authorized lo hi q [] s h = cc
Spans-authorized lo hi q (w ∷ ws) (b, e, p, r, s) h = elim (Bool-cases (in_window w q)) [
  | inl y ↦ let le = Spans-le b.sequence_no hi ws s in (ground arith, ground arith)
  | inr n ↦ let (x, y) = Spans-authorized b.sequence_no hi q ws s (ground arith) in (omega arith, y)
]

OpenSpans-authorized :
    (lo hi q : ℤ) (ws : List AuthorizationWindow)
    → OpenSpans lo hi ws
    → sequence_authorized_in ws q ≡ true
    → lo <ℤ q
unfolding sequence_authorized_in in_window
OpenSpans-authorized lo hi q [] s h = cc
OpenSpans-authorized lo hi q (w ∷ []) (e, p, r) h = ground arith
OpenSpans-authorized lo hi q (w ∷ v ∷ ws) (b, e, p, r, s) h = elim (Bool-cases (in_window w q)) [
  | inl y ↦ ground arith
  | inr n ↦ let x = OpenSpans-authorized b.sequence_no hi q (v ∷ ws) s (ground arith) in omega arith
]

-- A closed epoch authorizes nothing after the end of the closed epochs.
Past-authorized :
    (hi q k : ℤ) (n : ℕ) (m : Epochs) (e : EpochState)
    → Past hi n m
    → lookup k m ≡ some e
    → sequence_authorized_in e.windows q ≡ true
    → q ≤ℤ hi
unfolding lookup
Past-authorized hi q k zero [] e h l a = cc
Past-authorized hi q k zero (x ∷ m) e h l a = absurd h
Past-authorized hi q k (suc n) [] e h l a = cc
Past-authorized hi q k (suc n) ((j, d) ∷ m) e (lo, p, r, f, s, h) l a =
    elim (Bool-cases (int_Eq.beq j k)) [
      | inl y ↦
          let same : d ≡ e = ground arith in
          (Spans-authorized lo hi q e.windows (subst_spans same s) a).1
      | inr y ↦
          let below = Past-authorized lo q k n m e h (ground arith) a in
          let le = Spans-le lo hi d.windows s in omega arith
    ]
  where
    subst_spans : d ≡ e → Spans lo hi d.windows → Spans lo hi e.windows
    subst_spans same t = rw (← same) t

-- Of two closed epochs that authorize one place, both are the same.
Past-unique :
    (hi q a b : ℤ) (n : ℕ) (m : Epochs) (d e : EpochState)
    → Past hi n m
    → lookup a m ≡ some d
    → lookup b m ≡ some e
    → sequence_authorized_in d.windows q ≡ true
    → sequence_authorized_in e.windows q ≡ true
    → a ≡ b
unfolding lookup
Past-unique hi q a b zero [] d e h la lb x y = cc
Past-unique hi q a b zero (z ∷ m) d e h la lb x y = absurd h
Past-unique hi q a b (suc n) [] d e h la lb x y = cc
Past-unique hi q a b (suc n) ((j, f) ∷ m) d e (lo, p, r, fin, s, h) la lb x y =
    elim (Bool-cases (int_Eq.beq j a)) [
      | inl ja ↦ elim (Bool-cases (int_Eq.beq j b)) [
        | inl jb ↦ sym ((int_eq_iff j a).0 ja) ∙ (int_eq_iff j b).0 jb
        | inr nb ↦ absurd (split b d e (ground arith) (ground arith) x y)
      ]
      | inr na ↦ elim (Bool-cases (int_Eq.beq j b)) [
        | inl jb ↦ absurd (split a e d (ground arith) (ground arith) y x)
        | inr nb ↦ Past-unique lo q a b n m d e h (ground arith) (ground arith) x y
      ]
    ]
  where
    split :
        (k : ℤ) (g i : EpochState)
        → f ≡ g
        → lookup k m ≡ some i
        → sequence_authorized_in g.windows q ≡ true
        → sequence_authorized_in i.windows q ≡ true
        → ⊥
    split k g i same l u w =
        let above = (Spans-authorized lo hi q g.windows (rw (← same) s) u).0 in
        let below = Past-authorized lo q k n m i h l w in omega arith

module _ (hi : ℤ) (s : State) (v : Inv hi (at_rest s)) where
  open v use {n, top, older, holds}

  top_lower : (q : ℤ) → sequence_authorized_in top.windows q ≡ true → holds.lo <ℤ q
  top_lower q h = go v.phase
    where
      go : Phase hi holds.lo n top s.active_epoch → holds.lo <ℤ q
      go (live a p w) = OpenSpans-authorized holds.lo hi q top.windows w h
      go (idle a p w) = (Spans-authorized holds.lo hi q top.windows w h).0

  -- The same, with the newest epoch in front.
  epochs_unique :
      (q a b : ℤ) (d e : EpochState)
      → lookup a ((pos n, top) ∷ older) ≡ some d
      → lookup b ((pos n, top) ∷ older) ≡ some e
      → sequence_authorized_in d.windows q ≡ true
      → sequence_authorized_in e.windows q ≡ true
      → a ≡ b
  unfolding lookup
  epochs_unique q a b d e la lb x y = elim (Bool-cases (int_Eq.beq (pos n) a)) [
    | inl ja ↦ elim (Bool-cases (int_Eq.beq (pos n) b)) [
      | inl jb ↦ sym ((int_eq_iff (pos n) a).0 ja) ∙ (int_eq_iff (pos n) b).0 jb
      | inr nb ↦ absurd (split b d e (ground arith) (ground arith) x y)
    ]
    | inr na ↦ elim (Bool-cases (int_Eq.beq (pos n) b)) [
      | inl jb ↦ absurd (split a e d (ground arith) (ground arith) y x)
      | inr nb ↦ Past-unique holds.lo q a b n older d e holds.past (ground arith) (ground arith) x y
    ]
  ]
    where
      split :
          (k : ℤ) (g i : EpochState)
          → top ≡ g
          → lookup k older ≡ some i
          → sequence_authorized_in g.windows q ≡ true
          → sequence_authorized_in i.windows q ≡ true
          → ⊥
      split k g i same l u w =
          let above = top_lower q (rw (← same) at u) in
          let below = Past-authorized holds.lo q k n older i holds.past l w in omega arith

  -- Nothing after the boundary is authorized where no epoch is active.
  idle-authorized :
      (q k : ℤ) (e : EpochState)
      → s.active_epoch ≡ none
      → lookup k ((pos n, top) ∷ older) ≡ some e
      → sequence_authorized_in e.windows q ≡ true
      → q ≤ℤ hi
  unfolding lookup
  idle-authorized q k e none_active l a = go v.phase
    where
      go : Phase hi holds.lo n top s.active_epoch → q ≤ℤ hi
      go (live x p w) = absurd (cc)
      go (idle x p w) = elim (Bool-cases (int_Eq.beq (pos n) k)) [
        | inl y ↦
            let same : top ≡ e = ground arith in
            (Spans-authorized holds.lo hi q top.windows w (rw same a)).1
        | inr y ↦
            let below = Past-authorized holds.lo q k n older e holds.past (ground arith) a in
            let le = Spans-le holds.lo hi top.windows w in omega arith
      ]

module _ (c : Crypto) (home : Text) (g : Genesis) (r : LifecycleRecord) (rs : List LifecycleRecord)
    (s : State) (derived : derive_state c home g (r ∷ rs) ≡ ok s) where
  -- At most one epoch of a derived state may sign at a place of the ledger.
  pub one_authority :
      (q a b : ℤ) (d e : EpochState)
      → lookup a s.epochs ≡ some d
      → lookup b s.epochs ≡ some e
      → sequence_authorized d q ≡ true
      → sequence_authorized e q ≡ true
      → a ≡ b
  unfolding sequence_authorized
  one_authority q a b d e la lb x y =
      let v = derive_state-Inv c home g r rs s derived in
      epochs_unique (last_boundary r.ledger_boundary rs).sequence_no s v q a b d e
        (rw v.holds.epochs at la) (rw v.holds.epochs at lb) x y

  -- While no epoch is active, no key may sign after the boundary of the last lifecycle record.
  pub no_authority_while_idle :
      (q k : ℤ) (e : EpochState)
      → s.active_epoch ≡ none
      → lookup k s.epochs ≡ some e
      → (last_boundary r.ledger_boundary rs).sequence_no <ℤ q
      → sequence_authorized e q ≡ false
  unfolding sequence_authorized
  no_authority_while_idle q k e none_active l after =
      let v = derive_state-Inv c home g r rs s derived in
      elim (Bool-cases (sequence_authorized_in e.windows q)) [
        | inr no_window ↦ no_window
        | inl a ↦
            let le =
              idle-authorized (last_boundary r.ledger_boundary rs).sequence_no s v q k e none_active
                (rw v.holds.epochs at l) a in
            absurd (omega arith)
      ]
