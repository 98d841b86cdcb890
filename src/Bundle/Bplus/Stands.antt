-- ===== src/Bundle/Bplus/Stands.antt =====
-- verify_bplus.go, signingStatusForEvidence: which signatures an epoch's status leaves open.
use ueg.Common.{
  ◌≡◌, ◌≢◌, refl, ◌⊎◌, inl, inr, true, false, List, [], ◌∷◌, Option, none, some, ℤ, ◌≤ℤ◌, All,
  All-map, Bool-cases, Option-cases, Text, text_Eq, text_eq_iff, int_eq_iff, same_optional_iff,
  ◌==◌, arith,
}
use ueg.Identity.{Status, EpochState, status_Eq}
use ueg.Identity.Artifacts.{EvidenceAnchor}
use ueg.Ledger.{Receipt}
use ueg.Bundle.Checkpoint.{last_signed, is_covered, needs_anchor, leaves_open, is_indeterminate}

last_signed-none :
    (key : Text) (rs : List Receipt)
    → last_signed key rs ≡ none
    → All (λ (r : Receipt). r.signing_key_id ≢ key) rs
unfolding last_signed
last_signed-none key [] h = tt
last_signed-none key (r ∷ rs) h = elim (Option-cases (last_signed key rs)) [
  | inr (m, e) ↦ absurd (ground arith)
  | inl e ↦
      (λ same. absurd (ground (arith, text_eq_iff r.signing_key_id key)), last_signed-none key rs e)
]

-- Every place that a key signed is at most the last.
last_signed_bounds :
    (key : Text) (rs : List Receipt) (last : ℤ)
    → last_signed key rs ≡ some last
    → All (λ (r : Receipt). r.signing_key_id ≡ key → r.sequence_no ≤ℤ last) rs
unfolding last_signed
last_signed_bounds key [] last h = tt
last_signed_bounds key (r ∷ rs) last h = elim (Bool-cases (r.signing_key_id == key)) [
  | inr other ↦ (
    λ same. absurd (ground (arith, text_eq_iff r.signing_key_id key)),
    last_signed_bounds key rs last (ground arith),
  )
  | inl same ↦ elim (Option-cases (last_signed key rs)) [
    | inl e ↦ (
      λ p. ground arith,
      All-map _ _ rs (λ x differs same. absurd (differs same)) (last_signed-none key rs e),
    )
    | inr (m, e) ↦ (
      λ p. ground arith,
      All-map (λ (r : Receipt). r.signing_key_id ≡ key → r.sequence_no ≤ℤ m) _ rs
          (λ x below eq. widen m x.sequence_no e (below eq)) (last_signed_bounds key rs m e),
    )
  ]
]
  where
    widen : (m n : ℤ) → last_signed key rs ≡ some m → n ≤ℤ m → n ≤ℤ last
    widen m n e le = ground arith

-- Each receipt of an epoch that is suspended or revoked is at or before the boundary of an anchor that
-- the lifecycle retains as the epoch's last good one.
abbrev pub IsCovered : Option EvidenceAnchor → EpochState → List Receipt → Type 0
IsCovered anchor e rs =
    (e.status ≡ Status.suspended) ⊎ (e.status ≡ Status.revoked)
    → All
        (λ (r : Receipt).
          r.signing_key_id ≡ e.operational_key_id
          → (a : EvidenceAnchor) × (anchor ≡ some a)
            × (e.known_good_anchor ≡ some a.anchor_digest)
            × (a.epoch_number ≡ e.epoch_number)
            × (r.sequence_no ≤ℤ a.ledger_boundary.sequence_no))
        rs

needs_anchor-true :
    (st : Status) → (st ≡ Status.suspended) ⊎ (st ≡ Status.revoked) → needs_anchor st ≡ true
needs_anchor-true st (inl h) = rw h refl
needs_anchor-true st (inr h) = rw h refl

is_covered-parts :
    (a : EvidenceAnchor) (e : EpochState) (last : ℤ)
    → is_covered (some a) e last ≡ true
    → (e.known_good_anchor ≡ some a.anchor_digest)
      × (a.epoch_number ≡ e.epoch_number)
      × (last ≤ℤ a.ledger_boundary.sequence_no)
unfolding is_covered
is_covered-parts a e last h = ground (
  arith,
  same_optional_iff e.known_good_anchor (some a.anchor_digest),
  int_eq_iff a.epoch_number e.epoch_number,
)

module _ (rs : List Receipt) where
  covers :
      (anchor : Option EvidenceAnchor) (e : EpochState) (last : ℤ)
      → is_covered anchor e last ≡ true
      → last_signed e.operational_key_id rs ≡ some last
      → All
          (λ (r : Receipt).
            r.signing_key_id ≡ e.operational_key_id
            → (a : EvidenceAnchor) × (anchor ≡ some a)
              × (e.known_good_anchor ≡ some a.anchor_digest)
              × (a.epoch_number ≡ e.epoch_number)
              × (r.sequence_no ≤ℤ a.ledger_boundary.sequence_no))
          rs
  covers none e last h signed = unfold is_covered in cc
  covers (some a) e last h signed =
      let (good, epoch, below) = is_covered-parts a e last h in
      All-map _ _ rs (λ r le same. (a, refl, good, epoch, le_trans r (le same) below))
        (last_signed_bounds e.operational_key_id rs last signed)
    where
      le_trans :
          (r : Receipt)
          → r.sequence_no ≤ℤ last
          → last ≤ℤ a.ledger_boundary.sequence_no
          → r.sequence_no ≤ℤ a.ledger_boundary.sequence_no
      le_trans r p q = omega arith

  leaves_open-IsCovered :
      (anchor : Option EvidenceAnchor) (e : EpochState)
      → leaves_open rs anchor e (last_signed e.operational_key_id rs) ≡ false
      → IsCovered anchor e rs
  leaves_open-IsCovered anchor e h status =
      elim (Option-cases (last_signed e.operational_key_id rs)) [
        | inl u ↦
            All-map _ _ rs (λ r differs same. absurd (differs same))
              (last_signed-none e.operational_key_id rs u)
        | inr (last, u) ↦ covers anchor e last (ground (arith, needs_anchor-true e.status status)) u
      ]

  -- Where no status leaves a signature open, every epoch is covered.
  pub is_indeterminate-IsCovered :
      (anchor : Option EvidenceAnchor) (epochs : List (ℤ × EpochState))
      → is_indeterminate rs anchor epochs ≡ false
      → All (λ (x : ℤ × EpochState). IsCovered anchor x.1 rs) epochs
  unfolding is_indeterminate
  is_indeterminate-IsCovered anchor [] h = tt
  is_indeterminate-IsCovered anchor ((n, e) ∷ epochs) h = (
    leaves_open-IsCovered anchor e (ground arith),
    is_indeterminate-IsCovered anchor epochs (ground arith),
  )
