-- ===== src/Gateway/Run/Safety.antt =====
-- gateway.go, Run: what a run does, in which order, and that a refused command is never started.
use ueg.Common.{
  ◌≡◌, refl, Bool, true, false, not, ◌&&◌, List, [], ◌∷◌, some, pos, Text, inl, inr, ◌⊎◌,
  Result-cases, Bool-cases,
}
use ueg.Crypto.{Crypto}
use ueg.Ledger.{Receipt}
use ueg.Policy.{Class, Outcome}
use ueg.Policy.Classify.{classify}
use ueg.Policy.Decide.{policy_hash}
use ueg.Policy.Decide.Admission.{decide-prohibited}
use ueg.Gateway.{Stage, Options, LedgerOps}
use ueg.Gateway.Machine.{
  Machine, ledger, RunResult, Event, appended, started, Execution, advance, is_admitted, execute,
}
use ueg.Gateway.Run.Steps.{
  record_outcome-failed, record_outcome-done, proceed-stopped, proceed-begun, admit-failed,
  admit-recorded, run-admit,
}
use ueg.Gateway.Run.{
  Request, will_execute, request, admission_entry, outcome_entry, proceed, admit, gated, run,
}

-- The sequences of actions that a request may leave. Nothing is started before its admission is on
-- the ledger, and nothing is started but what was admitted and is no dry run.
pub data IsTrace (m : Machine) (c : Crypto) (q : Request) (opts : Options)
    : List Event → Type 0 where
  silent : IsTrace m c q opts []
  recorded : IsTrace m c q opts (appended (admission_entry m q opts) ∷ [])
  begun :
      q.verdict.outcome ≡ Outcome.admitted
      → opts.dry_run ≡ false
      → IsTrace m c q opts
          (appended (admission_entry m q opts) ∷ started q.resolved q.argv q.cwd ∷ [])
  complete :
      q.verdict.outcome ≡ Outcome.admitted
      → opts.dry_run ≡ false
      → (id : Text)
      → IsTrace m c q opts (
          appended (admission_entry m q opts)
          ∷ started q.resolved q.argv q.cwd
          ∷ appended (outcome_entry m q id (execute m c q.resolved q.argv q.cwd opts.stream))
          ∷ [])

will_execute-both :
    (o : Outcome) (dry : Bool)
    → (is_admitted o && not dry) ≡ true
    → (o ≡ Outcome.admitted) × (dry ≡ false)
will_execute-both Outcome.admitted false h = (refl, refl)
will_execute-both Outcome.admitted true h = cc
will_execute-both Outcome.refused d h = cc

module _ {E L : Type 0} (m : Machine) (c : Crypto) (ops : LedgerOps E L) where
  proceed-IsTrace :
      (q : Request) (opts : Options) (r : RunResult) (l : L) (a : Receipt)
      → IsTrace m c q opts
          (proceed m c ops q opts r l (appended (admission_entry m q opts) ∷ []) a).events
  proceed-IsTrace q opts r l a = elim (Bool-cases (will_execute q opts)) [
    | inr p ↦
        rw (proceed-stopped m c ops q opts r l (appended (admission_entry m q opts) ∷ []) a p)
          recorded
    | inl p ↦
        let (u, v) = will_execute-both q.verdict.outcome opts.dry_run p in
        let x : Execution = execute m c q.resolved q.argv q.cwd opts.stream in
        let r2 = advance (record r { admission_receipt = some a }) Stage.executable in
        let es = appended (admission_entry m q opts) ∷ started q.resolved q.argv q.cwd ∷ [] in
        rw (proceed-begun m c ops q opts r l (appended (admission_entry m q opts) ∷ []) a p)
          (elim (Result-cases (ops.append l (outcome_entry m q a.receipt_id x)).0) [
            | inr (e, h) ↦ rw (record_outcome-failed m c ops q r2 l es a x h) (begun u v)
            | inl (b, h) ↦
                rw (record_outcome-done m c ops q r2 l es a x h) (complete u v a.receipt_id)
          ])
  ]

  admit-IsTrace :
      (q : Request) (opts : Options) (l : L) → IsTrace m c q opts (admit m c ops q opts l).events
  admit-IsTrace q opts l = elim (Result-cases (ops.append l (admission_entry m q opts)).0) [
    | inr (e, p) ↦ rw (admit-failed m c ops q opts l p) silent
    | inl (a, p) ↦
        rw (admit-recorded m c ops q opts l p)
          (proceed-IsTrace q opts (gated q) (ops.append l (admission_entry m q opts)).1 a)
  ]

  -- A run of a command leaves one of the sequences that its request allows: the admission goes to
  -- the ledger before anything is started, and only an admitted command that is no dry run is.
  pub run-IsTrace :
      (l : L) (name : Text) (args : List Text) (opts : Options) (hash : Text)
      → policy_hash c m.rules m.rules_hash opts.posture opts.approvals ≡ some hash
      → IsTrace m c (request m name args opts hash) opts (run m c ops l (name ∷ args) opts).events
  run-IsTrace l name args opts hash h =
      rw (run-admit m c ops l name args opts h)
        (admit-IsTrace (request m name args opts hash) opts l)

  refused_lem :
      (q : Request) (opts : Options) (l : L)
      → q.verdict.outcome ≡ Outcome.refused
      → ((admit m c ops q opts l).result.executed ≡ false)
        × ((admit m c ops q opts l).result.path
            ≡ Stage.nascent ∷ Stage.declared ∷ Stage.canonical ∷ Stage.gated ∷ [])
        × (((admit m c ops q opts l).result.exit_code ≡ pos 77)
            ⊎ (e : E) × ((admit m c ops q opts l).failure ≡ some (ledger e)))
  refused_lem q opts l u =
      let v : will_execute q opts ≡ false = rw u in
      elim (Result-cases (ops.append l (admission_entry m q opts)).0) [
        | inr (e, p) ↦ rw (admit-failed m c ops q opts l p) (refl, refl, inr (e, refl))
        | inl (a, p) ↦
            rw
              (
                admit-recorded m c ops q opts l p,
                proceed-stopped m c ops q opts (gated q) (ops.append l (admission_entry m q opts)).1
                    (appended (admission_entry m q opts) ∷ []) a v,
              )
              (refl, refl, inl (rw u))
      ]

  -- A prohibited command never runs, under any posture and approvals: the run stops at GATED, with
  -- exit code 77 or with the error of the ledger that did not take the refusal.
  pub run-prohibited :
      (l : L) (name : Text) (args : List Text) (opts : Options) (hash : Text)
      → policy_hash c m.rules m.rules_hash opts.posture opts.approvals ≡ some hash
      → (classify m.host m.rules (name ∷ args)).class ≡ Class.prohibited
      → ((run m c ops l (name ∷ args) opts).result.executed ≡ false)
        × ((run m c ops l (name ∷ args) opts).result.path
            ≡ Stage.nascent ∷ Stage.declared ∷ Stage.canonical ∷ Stage.gated ∷ [])
        × (((run m c ops l (name ∷ args) opts).result.exit_code ≡ pos 77)
            ⊎ (e : E) × ((run m c ops l (name ∷ args) opts).failure ≡ some (ledger e)))
  unfolding request
  run-prohibited l name args opts hash h p = rw (run-admit m c ops l name args opts h) (
      refused_lem (request m name args opts hash) opts l
        (decide-prohibited (classify m.host m.rules (name ∷ args)) opts.posture opts.approvals p))
