-- ===== src/Identity/Lifecycle/Windows.antt =====
-- lifecycle.go, closeEpoch: how the authorization windows of one epoch lie on the ledger.
use ueg.Common.{◌≡◌, refl, List, [], ◌∷◌, ◌++◌, none, some, ℤ, ◌≤ℤ◌, arith}
use ueg.Identity.{LedgerBoundary, AuthorizationWindow}
use ueg.Identity.Lifecycle.{close_last, open_window}

-- From `lo` to `hi` every window is closed, and each begins where or after the last one ends.
abbrev pub Spans : ℤ → ℤ → List AuthorizationWindow → Type 0
Spans lo hi [] = lo ≤ℤ hi
Spans lo hi (w ∷ ws) =
    (b : LedgerBoundary) × (w.end_at ≡ some b)
    × (lo ≤ℤ w.start_after.sequence_no)
    × (w.start_after.sequence_no ≤ℤ b.sequence_no)
    × Spans b.sequence_no hi ws

-- The same, but the last window is open and begins at `hi` or before.
abbrev pub OpenSpans : ℤ → ℤ → List AuthorizationWindow → Type 0
OpenSpans lo hi [] = ⊥
OpenSpans lo hi (w ∷ []) =
    (w.end_at ≡ none) × (lo ≤ℤ w.start_after.sequence_no) × (w.start_after.sequence_no ≤ℤ hi)
OpenSpans lo hi (w ∷ v ∷ ws) =
    (b : LedgerBoundary) × (w.end_at ≡ some b)
    × (lo ≤ℤ w.start_after.sequence_no)
    × (w.start_after.sequence_no ≤ℤ b.sequence_no)
    × OpenSpans b.sequence_no hi (v ∷ ws)

pub Spans-mono :
    (lo hi hi' : ℤ) (ws : List AuthorizationWindow) → hi ≤ℤ hi' → Spans lo hi ws → Spans lo hi' ws
Spans-mono lo hi hi' [] h s = omega arith
Spans-mono lo hi hi' (w ∷ ws) h (b, e, p, q, s) =
    (b, e, p, q, Spans-mono b.sequence_no hi hi' ws h s)

pub Spans-le : (lo hi : ℤ) (ws : List AuthorizationWindow) → Spans lo hi ws → lo ≤ℤ hi
Spans-le lo hi [] s = s
Spans-le lo hi (w ∷ ws) (b, e, p, q, s) = omega (arith, Spans-le b.sequence_no hi ws s)

pub OpenSpans-mono :
    (lo hi hi' : ℤ) (ws : List AuthorizationWindow)
    → hi ≤ℤ hi'
    → OpenSpans lo hi ws
    → OpenSpans lo hi' ws
OpenSpans-mono lo hi hi' [] h s = s
OpenSpans-mono lo hi hi' (w ∷ []) h (e, p, q) = (e, p, omega arith)
OpenSpans-mono lo hi hi' (w ∷ v ∷ ws) h (b, e, p, q, s) =
    (b, e, p, q, OpenSpans-mono b.sequence_no hi hi' (v ∷ ws) h s)

-- Closing the open window at a boundary at or after its start leaves closed windows alone.
pub close_last-OpenSpans :
    (lo hi : ℤ) (b : LedgerBoundary) (ws : List AuthorizationWindow)
    → hi ≤ℤ b.sequence_no
    → OpenSpans lo hi ws
    → Spans lo b.sequence_no (close_last b ws)
unfolding close_last
close_last-OpenSpans lo hi b [] h s = absurd s
close_last-OpenSpans lo hi b (w ∷ []) h (e, p, q) = rw e (b, refl, p, omega arith, omega arith)
close_last-OpenSpans lo hi b (w ∷ v ∷ ws) h (d, e, p, q, s) =
    (d, e, p, q, close_last-OpenSpans d.sequence_no hi b (v ∷ ws) h s)

-- Windows that are all closed stay as they are.
pub close_last-Spans :
    (lo hi : ℤ) (b : LedgerBoundary) (ws : List AuthorizationWindow)
    → Spans lo hi ws
    → close_last b ws ≡ ws
unfolding close_last
close_last-Spans lo hi b [] s = refl
close_last-Spans lo hi b (w ∷ []) (d, e, p, q, s) = rw e
close_last-Spans lo hi b (w ∷ v ∷ ws) (d, e, p, q, s) =
    rw (close_last-Spans d.sequence_no hi b (v ∷ ws) s)

-- A new open window after the closed ones.
pub OpenSpans-append :
    (lo hi : ℤ) (b : LedgerBoundary) (ws : List AuthorizationWindow)
    → hi ≤ℤ b.sequence_no
    → Spans lo hi ws
    → OpenSpans lo b.sequence_no (ws ++ open_window b ∷ [])
OpenSpans-append lo hi b [] h s = (refl, omega arith, omega arith)
OpenSpans-append lo hi b (w ∷ []) h (d, e, p, q, s) = (d, e, p, q, (refl, omega arith, omega arith))
OpenSpans-append lo hi b (w ∷ v ∷ ws) h (d, e, p, q, s) =
    (d, e, p, q, OpenSpans-append d.sequence_no hi b (v ∷ ws) h s)
