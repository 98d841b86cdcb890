-- ===== src/Ledger/Append/Guards.antt =====
-- ledger.go, Append: what holds of every ledger that Append extends.
use ueg.Common.{
  ◌≡◌, ◌⊎◌, inl, inr, true, false, none, some, ok, int_succ, Text, >>=-eq-ok, Option-cases,
  Bool-cases, text_eq_iff, arith,
}
use ueg.Crypto.{Crypto}
use ueg.Identity.{Status, EpochState, status_Eq, status_eq_iff}
use ueg.Ledger.{Receipt, sequence_authorized}
use ueg.Ledger.Petitions.{verify_petitions}
use ueg.Ledger.Home.{
  Ledger, verify_receipts, check_epoch, check_identity, check_append, state_active,
}
use ueg.Ledger.Append.{Request, prepare, append}

-- The identity lets the next receipt be signed: there is none, or its active epoch may sign there.
abbrev pub MaySign : Ledger → Type 0
MaySign l =
    (l.is_bplus ≡ false)
    ⊎ (e : EpochState) × (state_active l.identity_state ≡ some e)
      × (e.status ≡ Status.active)
      × (l.key_id ≡ e.operational_key_id)
      × (sequence_authorized e (int_succ l.seq) ≡ true)

check_epoch_lem :
    (l : Ledger) (e : EpochState)
    → check_epoch l (some e) ≡ ok tt
    → (e.status ≡ Status.active)
      × (l.key_id ≡ e.operational_key_id)
      × (sequence_authorized e (int_succ l.seq) ≡ true)
unfolding check_epoch
check_epoch_lem l e h =
    ground
      (arith, h, status_eq_iff e.status Status.active, text_eq_iff l.key_id e.operational_key_id)

check_identity-MaySign : (l : Ledger) → check_identity l ≡ ok tt → MaySign l
check_identity-MaySign l h = elim (Bool-cases l.is_bplus) [
  | inr legacy ↦ inl legacy
  | inl bplus ↦ elim (Option-cases (state_active l.identity_state)) [
    | inl e ↦ absurd (none_active bplus e)
    | inr (e, q) ↦ let (x, y, z) = check_epoch_lem l e (found bplus e q) in inr (e, q, x, y, z)
  ]
]
  where
    none_active : l.is_bplus ≡ true → state_active l.identity_state ≡ none → ⊥
    none_active b e = unfold check_identity check_epoch in ground (arith, h)

    found :
        l.is_bplus ≡ true
        → (e : EpochState) → state_active l.identity_state ≡ some e
        → check_epoch l (some e) ≡ ok tt
    found b e q = unfold check_identity in ground (arith, h)

-- Append extends a ledger only where its receipts verify, its stored requests are bound to them, and
-- the identity lets the next place be signed.
pub append-verified :
    (c : Crypto) (l l' : Ledger) (q : Request) (now : Text) (r : Receipt)
    → append c l q now ≡ ok (l', r)
    → ((verify_receipts c l).is_ok ≡ true)
      × ((verify_petitions c l.receipts l.petitions).is_ok ≡ true)
      × MaySign l
unfolding append prepare check_append
append-verified c l l' q now r h =
    let (rp, hp, h1) = >>=-eq-ok (prepare c l q now) _ h in
    let (u, hu, h2) = >>=-eq-ok (check_append c l) _ hp in
    let (a, b, d) = parts c l hu in (a, d, check_identity-MaySign l b)
  where
    parts :
        (c : Crypto) (l : Ledger)
        → check_append c l ≡ ok tt
        → ((verify_receipts c l).is_ok ≡ true)
          × (check_identity l ≡ ok tt)
          × ((verify_petitions c l.receipts l.petitions).is_ok ≡ true)
    parts c l hu = ground (arith, hu)
