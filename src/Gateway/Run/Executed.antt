-- ===== src/Gateway/Run/Executed.antt =====
-- gateway.go, Run: what a run has executed was admitted.
use ueg.Common.{
  Result-cases, ◌≡◌, inl, inr, true, text_Eq, List, [], ◌∷◌, Text, Bool-cases, Option-cases, arith,
}
use ueg.Crypto.{Crypto}
use ueg.Policy.Decide.{decide, policy_hash}
use ueg.Gateway.{Options, LedgerOps}
use ueg.Gateway.Machine.{Machine, Event, appended}
use ueg.Gateway.Run.{Request, run, request, gated, proceed, admit, admission_entry, will_execute}
use ueg.Gateway.Run.Steps.{proceed-stopped, admit-failed, admit-recorded, run-admit}
use ueg.Ledger.{Receipt}
use ueg.Policy.{Outcome}
use ueg.Policy.Classify.{classify}

-- What is executed was admitted, and is no dry run.
will_execute-admitted :
    (q : Request) (opts : Options)
    → will_execute q opts ≡ true
    → q.verdict.outcome ≡ Outcome.admitted
will_execute-admitted q opts h = ground arith

module _ {E L : Type 0} (m : Machine) (c : Crypto) (ops : LedgerOps E L) where
  proceed-executed :
      (q : Request) (opts : Options) (l : L) (es : List Event) (a : Receipt)
      → (proceed m c ops q opts (gated q) l es a).result.executed ≡ true
      → will_execute q opts ≡ true
  proceed-executed q opts l es a h = elim (Bool-cases (will_execute q opts)) [
    | inl p ↦ p
    | inr p ↦ absurd (ground (arith, rw (proceed-stopped m c ops q opts (gated q) l es a p) at h))
  ]

  admit-executed :
      (q : Request) (opts : Options) (l : L)
      → (admit m c ops q opts l).result.executed ≡ true
      → will_execute q opts ≡ true
  admit-executed q opts l h = elim (Result-cases (ops.append l (admission_entry m q opts)).0) [
    | inr (e, p) ↦ absurd (ground (arith, rw (admit-failed m c ops q opts l p) at h))
    | inl (a, p) ↦
        proceed-executed q opts (ops.append l (admission_entry m q opts)).1
          (appended (admission_entry m q opts) ∷ []) a (rw (admit-recorded m c ops q opts l p) at h)
  ]

  pub run-executed :
      (l : L) (argv : List Text) (opts : Options)
      → (run m c ops l argv opts).result.executed ≡ true
      → (decide (classify m.host m.rules argv) opts.posture opts.approvals).outcome
        ≡ Outcome.admitted
  unfolding run
  run-executed l [] opts h = absurd (ground arith)
  run-executed l (name ∷ args) opts h =
      elim (Option-cases (policy_hash c m.rules m.rules_hash opts.posture opts.approvals)) [
        | inl p ↦ absurd (ground (arith, rw (run, p) at h))
        | inr (hash, p) ↦ will_execute-admitted (request m name args opts hash) opts (
            admit-executed (request m name args opts hash) opts l
              (rw (run-admit m c ops l name args opts p) at h))
      ]
