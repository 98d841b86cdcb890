-- ===== src/Gateway/Run.antt =====
-- gateway.go, Run: the state is the ledger and the list of what was done, oldest first.
pub mod Executed
pub mod Steps
pub mod Safety
pub mod Evidence
use ueg.Common.{
  ℕ, ◌≡◌, Bool, true, false, not, ◌&&◌, List, [], ◌∷◌, ◌++◌, map, Option, none, some, ℤ, pos, Text,
  text, utf8, utf8_decode, join, Result, ok, err, ◌==◌, text_Eq, if◌then◌else◌,
}
use ueg.Crypto.{Crypto}
use ueg.Canon.{Value, bool, int, str, arr, items}
use ueg.Ledger.{Receipt, PetitionSummary, Petition, text_values}
use ueg.Policy.{
  Class, Posture, Outcome, RuleSet, Classification, Approvals, Decision, Host, class_text,
  posture_text, outcome_text,
}
use ueg.Policy.Classify.{classify}
use ueg.Policy.Decide.{decide, policy_hash}
use ueg.Gateway.{Stage, stage_text, is_executable, Options, Entry, LedgerOps}
use ueg.Gateway.Capture.{CapturedOutput, new_output_capture, write, write_all, capture_result}
use ueg.Gateway.Machine.{
  Exit, Process, Machine, RunResult, Event, appended, started, Error, no_command, policy_panic,
  ledger, not_executable, Outcomes, advance, initial, error_text, resolve, pick_cwd, Execution,
  execute, is_admitted,
}

-- What is known of a request when it is decided.
pub record Request : Type 0 where
  pub argv : List Text
  pub cwd : Text
  pub resolved : Text
  pub resolution_error : Text
  pub class : Classification
  pub verdict : Decision
  pub hash : Text

abbrev pub will_execute : Request → Options → Bool
will_execute q opts = is_admitted q.verdict.outcome && not opts.dry_run

abbrev pub target : Request → Text
target q = join (text " ") q.argv

abbrev pub excerpt_value : CapturedOutput → Value
excerpt_value o = str (utf8_decode o.excerpt)

module _ (m : Machine) where
  unfoldable pub request : Text → List Text → Options → Text → Request
  request name args opts hash =
      let argv = name ∷ args in
      let class : Classification = classify m.host m.rules argv in
      record {
        argv = argv;
        cwd = pick_cwd opts.cwd m.getwd;
        resolved = resolve (m.look_path name) name;
        resolution_error = error_text (m.look_path name);
        class = class;
        verdict = decide class opts.posture opts.approvals;
        hash = hash;
      }

  unfoldable pub admission_petition : Request → Options → Petition
  unfolding text text_values outcome_text class_text posture_text
  admission_petition q opts =
      (text "action", str (text "execute"))
      ∷ (text "argv", arr (items (text_values q.argv)))
      ∷ (text "cwd", str q.cwd)
      ∷ (text "decision", str (outcome_text q.verdict.outcome))
      ∷ (text "decision_reason", str q.verdict.reason)
      ∷ (text "approval", str q.verdict.approval)
      ∷ (text "effect_class", str (class_text q.class.class))
      ∷ (text "elevated", bool q.class.elevated)
      ∷ (text "engine_version", str m.engine_version)
      ∷ (text "executed", bool (will_execute q opts))
      ∷ (text "host_arch", str m.host_arch)
      ∷ (text "host_os", str m.host_os)
      ∷ (text "policy_hash", str q.hash)
      ∷ (text "posture", str (posture_text opts.posture))
      ∷ (text "resolved_path", str q.resolved)
      ∷ (text "resolution_error", str q.resolution_error)
      ∷ (text "rule_id", str q.class.rule_id)
      ∷ (text "rule_note", str q.class.reason)
      ∷ (text "surface", str q.class.surface)
      ∷ (text "target", str (target q))
      ∷ (text "dry_run", bool opts.dry_run)
      ∷ []

  unfoldable pub admission_entry : Request → Options → Entry
  unfolding text outcome_text admission_petition
  admission_entry q opts = record {
    petition = admission_petition q opts;
    summary = record { surface = q.class.surface; action = text "execute"; target = target q };
    actor = m.actor;
    admission = outcome_text q.verdict.outcome;
    expression = if will_execute q opts then text "EXPRESSED" else text "SILENT";
    policy_hash = q.hash;
    clause_ids = q.class.rule_id ∷ [];
  }

  unfoldable pub outcome_petition : Request → Text → Execution → Petition
  unfolding text text_values
  outcome_petition q admission_id x =
      (text "action", str (text "record-outcome"))
      ∷ (text "admission_receipt_id", str admission_id)
      ∷ (text "argv", arr (items (text_values q.argv)))
      ∷ (text "cwd", str q.cwd)
      ∷ (text "duration_ms", int x.duration)
      ∷ (text "engine_version", str m.engine_version)
      ∷ (text "exit_code", int x.code)
      ∷ (text "host_arch", str m.host_arch)
      ∷ (text "host_os", str m.host_os)
      ∷ (text "policy_hash", str q.hash)
      ∷ (text "stderr_bytes", int (pos x.errs.bytes))
      ∷ (text "stderr_excerpt", excerpt_value x.errs)
      ∷ (text "stderr_sha256", str x.errs.sha256)
      ∷ (text "stderr_truncated", bool x.errs.truncated)
      ∷ (text "stdout_bytes", int (pos x.out.bytes))
      ∷ (text "stdout_excerpt", excerpt_value x.out)
      ∷ (text "stdout_sha256", str x.out.sha256)
      ∷ (text "stdout_truncated", bool x.out.truncated)
      ∷ (text "surface", str q.class.surface)
      ∷ (text "target", str (target q))
      ∷ []

  unfoldable pub outcome_entry : Request → Text → Execution → Entry
  unfolding text outcome_petition
  outcome_entry q admission_id x = record {
    petition = outcome_petition q admission_id x;
    summary = record {
      surface = q.class.surface;
      action = text "record-outcome";
      target = target q;
    };
    actor = m.actor;
    admission = text "ADMITTED";
    expression = text "EXPRESSED";
    policy_hash = q.hash;
    clause_ids = text "outcome" ∷ [];
  }

-- What a call returns on the way: the ledger and the events so far go with it.
abbrev pub stop : {E L : Type 0} → RunResult → Option (Error E) → L → List Event → Outcomes E L
stop r e l events = record { result = r; failure = e; ledger_after = l; events = events }

-- What Run has done when the decision is made.
abbrev pub gated : Request → RunResult
gated q =
    record (advance
      (advance (advance (advance initial Stage.nascent) Stage.declared) Stage.canonical)
      Stage.gated) { classification = some q.class; decision = some q.verdict }

abbrev pub exit_code_of_decision : Outcome → ℤ
exit_code_of_decision Outcome.refused = pos 77
exit_code_of_decision Outcome.admitted = pos 0

module _ {E L : Type 0} (m : Machine) (c : Crypto) (ops : LedgerOps E L) where
  -- From the end of the execution: its receipt.
  unfoldable pub record_outcome :
      Request → RunResult → L → List Event → Receipt → Execution → Outcomes E L
  unfolding outcome_entry
  record_outcome q r l events admission x =
      let r1 : RunResult = record (advance r Stage.executed) {
        executed = true;
        exit_code = x.code;
        output = some (x.out, x.errs, x.duration);
      } in
      let entry = outcome_entry m q admission.receipt_id x in
      let (answer, l1) = ops.append l entry in
      elim answer [
        | err e ↦ stop r1 (some (ledger e)) l1 events
        | ok receipt ↦
            stop (advance (record r1 { outcome_receipt = some receipt }) Stage.stabilized) none l1
              (events ++ appended entry ∷ [])
      ]

  -- From the receipt of the admission on.
  unfoldable pub proceed : Request → Options → RunResult → L → List Event → Receipt → Outcomes E L
  unfolding record_outcome execute
  proceed q opts r l events admission =
      let r1 : RunResult = record r { admission_receipt = some admission } in
      if not (will_execute q opts)
      then stop (record r1 { exit_code = exit_code_of_decision q.verdict.outcome }) none l events
      else let r2 : RunResult = advance r1 Stage.executable in
        if not (is_executable r2.stage)
        then stop r2 (some (not_executable r2.stage)) l events
        else record_outcome q r2 l (events ++ started q.resolved q.argv q.cwd ∷ []) admission
            (execute m c q.resolved q.argv q.cwd opts.stream)

  unfoldable pub admit : Request → Options → L → Outcomes E L
  unfolding proceed admission_entry
  admit q opts l =
      let entry = admission_entry m q opts in
      let (answer, l1) = ops.append l entry in
      elim answer [
        | err e ↦ stop (gated q) (some (ledger e)) l1 []
        | ok receipt ↦ proceed q opts (gated q) l1 (appended entry ∷ []) receipt
      ]

  unfoldable pub run : L → List Text → Options → Outcomes E L
  unfolding admit request policy_hash
  run l [] opts = stop (advance initial Stage.nascent) (some no_command) l []
  run l (name ∷ args) opts = elim (policy_hash c m.rules m.rules_hash opts.posture opts.approvals) [
    | none ↦ stop (gated (request m name args opts [])) (some policy_panic) l []
    | some hash ↦ admit (request m name args opts hash) opts l
  ]
