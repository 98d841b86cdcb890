-- ===== src/Identity/Lifecycle/Shape.antt =====
-- The epochs of an identity as DeriveState keeps them: numbered without gaps, the newest first, and
-- every epoch but the newest closed for good.
use ueg.Common.{
  ℕ, zero, suc, ◌≤◌, ◌≡◌, refl, ap, ◌⊎◌, List, [], ◌∷◌, none, some, ℤ, pos, lookup, replace, insert,
  int_Eq, int_eq_iff, arith,
}
use ueg.Identity.{Status, EpochState}
use ueg.Identity.Lifecycle.{latest_epoch_number}
use ueg.Identity.Lifecycle.Windows.{Spans}

abbrev pub Epochs : Type 0
Epochs = List (ℤ × EpochState)

abbrev pub IsFinal : Status → Type 0
IsFinal s = (s ≡ Status.retired) ⊎ (s ≡ Status.revoked)

-- Closed epochs with the numbers below `n`, whose windows end at `hi` or before.
abbrev pub Past : ℤ → ℕ → Epochs → Type 0
Past hi zero [] = Unit
Past hi zero (x ∷ m) = ⊥
Past hi (suc n) [] = ⊥
Past hi (suc n) ((k, e) ∷ m) =
    (lo : ℤ) × (k ≡ pos n)
    × (e.epoch_number ≡ pos n)
    × IsFinal e.status
    × Spans lo hi e.windows
    × Past lo n m

pub latest-Past :
    (hi : ℤ) (n : ℕ) (m : Epochs) → Past hi (suc n) m → latest_epoch_number m ≡ some (pos n)
unfolding latest_epoch_number
latest-Past hi n [] h = absurd h
latest-Past hi zero ((k, e) ∷ []) (lo, p, q, f, s, r) = ap some p
latest-Past hi zero ((k, e) ∷ x ∷ m) (lo, p, q, f, s, r) = absurd r
latest-Past hi (suc n) ((k, e) ∷ m) (lo, p, q, f, s, r) = ground (arith, latest-Past lo n m r)

-- The newest epoch's number is the latest.
pub latest_top :
    (hi : ℤ) (n : ℕ) (e : EpochState) (m : Epochs)
    → Past hi n m
    → latest_epoch_number ((pos n, e) ∷ m) ≡ some (pos n)
unfolding latest_epoch_number
latest_top hi zero e [] h = refl
latest_top hi zero e (x ∷ m) h = absurd h
latest_top hi (suc n) e m h = ground (arith, latest-Past hi n m h)

pub lookup_above : (hi : ℤ) (n j : ℕ) (m : Epochs) → n ≤ j → Past hi n m → lookup (pos j) m ≡ none
unfolding lookup
lookup_above hi zero j [] le h = refl
lookup_above hi zero j (x ∷ m) le h = absurd h
lookup_above hi (suc n) j [] le h = absurd h
lookup_above hi (suc n) j ((k, e) ∷ m) le (lo, p, q, f, s, r) =
    ground (arith, lookup_above lo n j m (omega arith) r)

pub lookup-number :
    (hi : ℤ) (n : ℕ) (m : Epochs) (k : ℤ) (e : EpochState)
    → Past hi n m
    → lookup k m ≡ some e
    → e.epoch_number ≡ k
unfolding lookup
lookup-number hi zero [] k e h l = cc
lookup-number hi zero (x ∷ m) k e h l = absurd h
lookup-number hi (suc n) [] k e h l = absurd h
lookup-number hi (suc n) ((j, d) ∷ m) k e (lo, p, q, f, s, r) l =
    ground (arith, int_eq_iff j k, lookup-number lo n m k e r)

-- What `lookup` finds below a newest epoch of number `n`: that epoch at `n`.
pub lookup_top : (n : ℕ) (e : EpochState) (m : Epochs) → lookup (pos n) ((pos n, e) ∷ m) ≡ some e
unfolding lookup
lookup_top n e m = ground (arith, int_eq_iff (pos n) (pos n))

pub lookup_top_number :
    (hi : ℤ) (n : ℕ) (t : EpochState) (m : Epochs) (k : ℤ) (e : EpochState)
    → t.epoch_number ≡ pos n
    → Past hi n m
    → lookup k ((pos n, t) ∷ m) ≡ some e
    → e.epoch_number ≡ k
unfolding lookup
lookup_top_number hi n t m k e q h l =
    ground (arith, int_eq_iff (pos n) k, lookup-number hi n m k e h)

pub insert_top :
    (n : ℕ) (e d : EpochState) (m : Epochs) → insert (pos n) d ((pos n, e) ∷ m) ≡ (pos n, d) ∷ m
unfolding insert lookup replace
insert_top n e d m = ground (arith, int_eq_iff (pos n) (pos n))

pub insert_next :
    (hi : ℤ) (n : ℕ) (e d : EpochState) (m : Epochs)
    → Past hi n m
    → insert (pos (suc n)) d ((pos n, e) ∷ m) ≡ (pos (suc n), d) ∷ (pos n, e) ∷ m
unfolding insert lookup
insert_next hi n e d m h = ground (arith, lookup_above hi n (suc n) m (omega arith) h)
