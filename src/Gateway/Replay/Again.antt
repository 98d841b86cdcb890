-- ===== src/Gateway/Replay/Again.antt =====
-- replay.go, Replay: verification first, then a check or an execution through the gateway again.
use ueg.Common.{
  Bool, true, false, not, ◌&&◌, List, [], ◌∷◌, ◌++◌, none, some, Result, ok, err, Text, text,
  lookup, ◌==◌, ◌!=◌, text_Eq, if◌then◌else◌,
}
use ueg.Crypto.{Crypto}
use ueg.Ledger.{Petition, VerifyResult}
use ueg.Ledger.Petitions.{verify_petitions}
use ueg.Policy.{Posture, Approvals}
use ueg.Gateway.{Options, LedgerOps}
use ueg.Gateway.Machine.{Machine, RunResult, Event, Outcomes}
use ueg.Gateway.Run.{run}
use ueg.Gateway.Replay.{
  Verdict, Account, ReplayResult, Error, run_failed, Replayed, Evidence, text_field, bool_or_false,
  to_string_slice, receipt_id_or_empty, find_admission, find_outcome, posture_of, recorded_account,
  recorded_outcome, observed_account, decision_differences, output_differences, Difference,
}

abbrev pub answered : {E L : Type 0} → Result (Error E) ReplayResult → L → List Event → Replayed E L
answered a l events = record { answer = a; ledger_after = l; events = events }

abbrev pub no_difference : List Difference → Bool
no_difference [] = true
no_difference (d ∷ ds) = false

-- The result before there is a verdict.
abbrev pub opened : VerifyResult → VerifyResult → ReplayResult
opened chain bind = record {
  verdict = Verdict.tampered;
  differences = [];
  chain_ok = chain.is_ok && bind.is_ok;
  chain_findings = chain.findings ++ bind.findings;
  target = [];
  recorded = none;
  observed = none;
  admission_id = [];
  outcome_id = [];
}

abbrev pub with_receipts : ReplayResult → RunResult → ReplayResult
with_receipts res o = record res {
  admission_id = receipt_id_or_empty o.admission_receipt;
  outcome_id = receipt_id_or_empty o.outcome_receipt;
}

-- The judgement of a check: the decision and the class again.
unfoldable pub judge_check : ReplayResult → Account → Bool → RunResult → ReplayResult
unfolding observed_account decision_differences
judge_check res was dry_run o =
    let now : Account = observed_account o in
    let r : ReplayResult = record (with_receipts res o) { observed = some now } in
    if now.decision == was.decision && now.effect_class == was.effect_class
    then record r {
      verdict = if dry_run then Verdict.check_confirmed else Verdict.refusal_confirmed;
    }
    else record r { verdict = Verdict.diverged; differences = decision_differences was now }

-- The judgement of an execution: the exit code and the digests.
unfoldable pub judge_run : ReplayResult → Account → RunResult → ReplayResult
unfolding observed_account output_differences
judge_run res was o =
    if not o.executed
    then record (with_receipts res o) { verdict = Verdict.refused }
    else let now : Account = observed_account o in
      let ds : List Difference = output_differences was now in
      record (with_receipts res o) {
        recorded = some was;
        observed = some now;
        differences = ds;
        verdict = if no_difference ds then Verdict.match else Verdict.diverged;
      }

-- What follows a run: its error, or the judgement of its result.
abbrev pub judged : {E L : Type 0} → Outcomes E L → (RunResult → ReplayResult) → Replayed E L
judged o judge = elim o.failure [
  | some e ↦ answered (err (run_failed e)) o.ledger_after o.events
  | none ↦ answered (ok (judge o.result)) o.ledger_after o.events
]

-- A recorded approval, given again.
unfoldable pub recorded_approvals : Petition → Approvals
unfolding text text_field
recorded_approvals p = record {
  irrevocable = text_field (text "approval") p == text "operator";
  unclassified = text_field (text "approval") p == text "operator-unclassified";
}

unfoldable pub check_options : Petition → Options
unfolding text text_field posture_of recorded_approvals
check_options p = record {
  posture = posture_of (text_field (text "posture") p);
  approvals = recorded_approvals p;
  dry_run = true;
  stream = false;
  cwd = text_field (text "cwd") p;
}

unfoldable pub enforce_options : Petition → Options → Options
unfolding text text_field
enforce_options p opts = record opts {
  posture = Posture.enforce;
  cwd = text_field (text "cwd") p;
  stream = false;
}

unfoldable pub recorded_argv : Petition → List Text
unfolding text
recorded_argv p = to_string_slice (lookup (text "argv") p)

unfoldable pub is_dry_run : Petition → Bool
unfolding text
is_dry_run p = bool_or_false (lookup (text "dry_run") p)

module _ {E L : Type 0} (m : Machine) (c : Crypto) (ops : LedgerOps E L) (view : Evidence L) where
  -- A record that executed nothing.
  unfoldable pub replay_check : L → Petition → ReplayResult → Account → Replayed E L
  unfolding text check_options recorded_argv is_dry_run judge_check
  replay_check l p res was =
      if not (is_dry_run p) && was.decision != text "REFUSED"
      then answered (ok (record res { verdict = Verdict.incomplete })) l []
      else judged (run m c ops l (recorded_argv p) (check_options p))
          (judge_check res was (is_dry_run p))

  -- A record that was executed.
  unfoldable pub replay_run : L → Petition → Options → ReplayResult → Account → Replayed E L
  unfolding text text_field enforce_options recorded_argv recorded_outcome judge_run
  replay_run l p opts res was =
      elim (find_outcome (view.petitions l) (text_field (text "receipt_id") p)) [
        | none ↦ answered (ok (record res { verdict = Verdict.incomplete })) l []
        | some outcome ↦
            judged (run m c ops l (recorded_argv p) (enforce_options p opts))
              (judge_run res (recorded_outcome was outcome))
      ]

  unfoldable pub replay_admission : L → Petition → Options → ReplayResult → Replayed E L
  unfolding text text_field
  replay_admission l p opts res =
      let was : Account = recorded_account p in
      let r : ReplayResult = record res {
        target = text_field (text "target") p;
        recorded = some was;
      } in
      if not was.executed then replay_check l p r was else replay_run l p opts r was

  unfoldable pub replay : L → Text → Options → Replayed E L
  replay l selector opts =
      let bind : VerifyResult = verify_petitions c (view.receipts l) (view.petitions l) in
      let res : ReplayResult = opened (view.verify_receipts l) bind in
      if not res.chain_ok
      then answered (ok res) l []
      else elim (find_admission (view.petitions l) selector) [
        | err e ↦ answered (err e) l []
        | ok p ↦ replay_admission l p opts res
      ]
