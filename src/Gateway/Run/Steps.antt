-- ===== src/Gateway/Run/Steps.antt =====
-- gateway.go, Run: what each of its parts returns on each way through it.
use ueg.Common.{◌≡◌, true, false, List, [], ◌∷◌, ◌++◌, none, some, Text, ok, err}
use ueg.Crypto.{Crypto}
use ueg.Ledger.{Receipt}
use ueg.Policy.Decide.{policy_hash}
use ueg.Gateway.{Stage, Options, LedgerOps}
use ueg.Gateway.Machine.{
  Machine, ledger, RunResult, Event, appended, started, Execution, advance, execute,
}
use ueg.Gateway.Run.{
  Request, will_execute, request, admission_entry, outcome_entry, proceed, record_outcome, admit,
  gated, run, stop, exit_code_of_decision,
}

-- The result of a run whose process has ended.
abbrev pub ended : RunResult → Execution → RunResult
ended r x = record (advance r Stage.executed) {
  executed = true;
  exit_code = x.code;
  output = some (x.out, x.errs, x.duration);
}

module _ {E L : Type 0} (m : Machine) (c : Crypto) (ops : LedgerOps E L) where
  pub record_outcome-failed :
      (q : Request) (r : RunResult) (l : L) (events : List Event) (a : Receipt) (x : Execution)
      {e : E}
      → (ops.append l (outcome_entry m q a.receipt_id x)).0 ≡ err e
      → record_outcome m c ops q r l events a x
        ≡ stop
            (ended r x)
            (some (ledger e))
            (ops.append l (outcome_entry m q a.receipt_id x)).1
            events
  unfolding record_outcome
  record_outcome-failed q r l events a x p = rw (record_outcome, p)

  pub record_outcome-done :
      (q : Request) (r : RunResult) (l : L) (events : List Event) (a : Receipt) (x : Execution)
      {b : Receipt}
      → (ops.append l (outcome_entry m q a.receipt_id x)).0 ≡ ok b
      → record_outcome m c ops q r l events a x
        ≡ stop
            (advance (record (ended r x) { outcome_receipt = some b }) Stage.stabilized)
            none
            (ops.append l (outcome_entry m q a.receipt_id x)).1
            (events ++ appended (outcome_entry m q a.receipt_id x) ∷ [])
  unfolding record_outcome
  record_outcome-done q r l events a x p = rw (record_outcome, p)

  pub proceed-stopped :
      (q : Request) (opts : Options) (r : RunResult) (l : L) (events : List Event) (a : Receipt)
      → will_execute q opts ≡ false
      → proceed m c ops q opts r l events a
        ≡ stop
            (record r {
              admission_receipt = some a;
              exit_code = exit_code_of_decision q.verdict.outcome;
            })
            none
            l
            events
  unfolding proceed
  proceed-stopped q opts r l events a p = rw p

  pub proceed-begun :
      (q : Request) (opts : Options) (r : RunResult) (l : L) (events : List Event) (a : Receipt)
      → will_execute q opts ≡ true
      → proceed m c ops q opts r l events a
        ≡ record_outcome m c ops q
            (advance (record r { admission_receipt = some a }) Stage.executable)
            l
            (events ++ started q.resolved q.argv q.cwd ∷ [])
            a
            (execute m c q.resolved q.argv q.cwd opts.stream)
  unfolding proceed
  proceed-begun q opts r l events a p = rw p

  pub admit-failed :
      (q : Request) (opts : Options) (l : L) {e : E}
      → (ops.append l (admission_entry m q opts)).0 ≡ err e
      → admit m c ops q opts l
        ≡ stop (gated q) (some (ledger e)) (ops.append l (admission_entry m q opts)).1 []
  unfolding admit
  admit-failed q opts l p = rw (admit, p)

  pub admit-recorded :
      (q : Request) (opts : Options) (l : L) {a : Receipt}
      → (ops.append l (admission_entry m q opts)).0 ≡ ok a
      → admit m c ops q opts l
        ≡ proceed m c ops q opts
            (gated q)
            (ops.append l (admission_entry m q opts)).1
            (appended (admission_entry m q opts) ∷ [])
            a
  unfolding admit
  admit-recorded q opts l p = rw (admit, p)

  pub run-admit :
      (l : L) (name : Text) (args : List Text) (opts : Options) {hash : Text}
      → policy_hash c m.rules m.rules_hash opts.posture opts.approvals ≡ some hash
      → run m c ops l (name ∷ args) opts ≡ admit m c ops (request m name args opts hash) opts l
  unfolding run
  run-admit l name args opts h = rw (run, h)
