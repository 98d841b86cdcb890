-- ===== src/Gateway/Run/Evidence.antt =====
-- gateway.go, Run: the stages in their order, and that an admitted command ends with its receipts.
use ueg.Common.{
  ◌≡◌, refl, true, false, List, [], ◌∷◌, ◌++◌, none, some, Text, inl, inr, ok, Result-cases,
  Option-cases, Bool-cases, last?,
}
use ueg.Crypto.{Crypto}
use ueg.Ledger.{Receipt}
use ueg.Policy.{Outcome}
use ueg.Policy.Classify.{classify}
use ueg.Policy.Decide.{decide, policy_hash}
use ueg.Gateway.{Stage, Options, LedgerOps}
use ueg.Gateway.Machine.{
  Machine, RunResult, Event, appended, started, Execution, advance, exit_code_of, resolve, pick_cwd,
  execute,
}
use ueg.Gateway.Run.Steps.{
  record_outcome-failed, record_outcome-done, proceed-stopped, proceed-begun, admit-failed,
  admit-recorded, run-admit,
}
use ueg.Gateway.Run.{
  Request, will_execute, request, admission_entry, outcome_entry, proceed, admit, gated, run,
}

-- The stages of a request that is executed, after VOID.
abbrev pub all_stages : List Stage
all_stages =
    Stage.nascent ∷ Stage.declared ∷ Stage.canonical ∷ Stage.gated ∷ Stage.executable
    ∷ Stage.executed ∷ Stage.stabilized ∷ []

-- A result has gone through the first of the stages, in their order, and stands at the last.
abbrev pub IsOnPath : RunResult → Type 0
IsOnPath r = ((rest : List Stage) × (r.path ++ rest ≡ all_stages)) × (last? r.path ≡ some r.stage)

module _ {E L : Type 0} (m : Machine) (c : Crypto) (ops : LedgerOps E L) where
  proceed-IsOnPath :
      (q : Request) (opts : Options) (l : L) (events : List Event) (a : Receipt)
      → IsOnPath (proceed m c ops q opts (gated q) l events a).result
  proceed-IsOnPath q opts l events a = elim (Bool-cases (will_execute q opts)) [
    | inr p ↦ rw (proceed-stopped m c ops q opts (gated q) l events a p) ((_, refl), refl)
    | inl p ↦
        let x : Execution = execute m c q.resolved q.argv q.cwd opts.stream in
        let r2 = advance (record (gated q) { admission_receipt = some a }) Stage.executable in
        let es = events ++ started q.resolved q.argv q.cwd ∷ [] in
        rw (proceed-begun m c ops q opts (gated q) l events a p)
          (elim (Result-cases (ops.append l (outcome_entry m q a.receipt_id x)).0) [
            | inr (e, h) ↦ rw (record_outcome-failed m c ops q r2 l es a x h) ((_, refl), refl)
            | inl (b, h) ↦ rw (record_outcome-done m c ops q r2 l es a x h) (([], refl), refl)
          ])
  ]

  admit-IsOnPath : (q : Request) (opts : Options) (l : L) → IsOnPath (admit m c ops q opts l).result
  admit-IsOnPath q opts l = elim (Result-cases (ops.append l (admission_entry m q opts)).0) [
    | inr (e, p) ↦ rw (admit-failed m c ops q opts l p) ((_, refl), refl)
    | inl (a, p) ↦ rw (admit-recorded m c ops q opts l p) (
        proceed-IsOnPath q opts (ops.append l (admission_entry m q opts)).1
          (appended (admission_entry m q opts) ∷ []) a)
  ]

  -- However a run ends, the stages it went through are the first ones of the life cycle in their
  -- order, none skipped and none twice, and the last of them is the stage of the result.
  pub run-IsOnPath :
      (l : L) (argv : List Text) (opts : Options) → IsOnPath (run m c ops l argv opts).result
  unfolding run
  run-IsOnPath l [] opts = ((_, refl), refl)
  run-IsOnPath l (name ∷ args) opts =
      elim (Option-cases (policy_hash c m.rules m.rules_hash opts.posture opts.approvals)) [
        | inl p ↦ rw (run, p) ((_, refl), refl)
        | inr (hash, p) ↦
            rw (run-admit m c ops l name args opts p)
              (admit-IsOnPath (request m name args opts hash) opts l)
      ]

  -- Where the ledger takes the entry of the admission, and then the entry of the outcome, a command
  -- that is admitted and no dry run is executed: the run ends STABILIZED with both receipts, and its
  -- exit code is the one of the process.
  pub run_complete :
      (l : L) (name : Text) (args : List Text) (opts : Options) (hash : Text) (a b : Receipt)
      → policy_hash c m.rules m.rules_hash opts.posture opts.approvals ≡ some hash
      → (decide (classify m.host m.rules (name ∷ args)) opts.posture opts.approvals).outcome
        ≡ Outcome.admitted
      → opts.dry_run ≡ false
      → (ops.append l (admission_entry m (request m name args opts hash) opts)).0 ≡ ok a
      → (ops.append (ops.append l (admission_entry m (request m name args opts hash) opts)).1 (
          outcome_entry m (request m name args opts hash) a.receipt_id (
            execute m c
              (resolve (m.look_path name) name)
              (name ∷ args)
              (pick_cwd opts.cwd m.getwd)
              opts.stream))).0
        ≡ ok b
      → ((run m c ops l (name ∷ args) opts).failure ≡ none)
        × ((run m c ops l (name ∷ args) opts).result.path ≡ all_stages)
        × ((run m c ops l (name ∷ args) opts).result.admission_receipt ≡ some a)
        × ((run m c ops l (name ∷ args) opts).result.outcome_receipt ≡ some b)
        × ((run m c ops l (name ∷ args) opts).result.exit_code
            ≡ exit_code_of
                (m.start
                  (resolve (m.look_path name) name)
                  (name ∷ args)
                  (pick_cwd opts.cwd m.getwd)
                  opts.stream).exit)
  unfolding request execute
  run_complete l name args opts hash a b h u d p s =
      let q : Request = request m name args opts hash in
      let v : will_execute q opts ≡ true = rw (u, d) in
      let l1 : L = (ops.append l (admission_entry m q opts)).1 in
      let es = appended (admission_entry m q opts) ∷ [] in
      let x : Execution = execute m c q.resolved q.argv q.cwd opts.stream in
      let r2 = advance (record (gated q) { admission_receipt = some a }) Stage.executable in
      rw
        (
          run-admit m c ops l name args opts h,
          admit-recorded m c ops q opts l p,
          proceed-begun m c ops q opts (gated q) l1 es a v,
          record_outcome-done m c ops q r2 l1 (es ++ started q.resolved q.argv q.cwd ∷ []) a x s,
        )
        (refl, refl, refl, refl, refl)
