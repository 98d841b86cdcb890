-- ===== src/Gateway/Machine.antt =====
-- gateway.go, execute, and the records that Run works on. What the machine does is a parameter: how
-- a name is looked up, the directory, the actor, and what a started process writes and returns.
use ueg.Common.{
  ℕ, Bool, true, false, List, [], ◌∷◌, ◌++◌, Option, none, some, ℤ, pos, Text, utf8, Result, ok,
  err, text_Eq, if◌then◌else◌,
}
use ueg.Crypto.{Crypto}
use ueg.Ledger.{Receipt}
use ueg.Policy.{Outcome, RuleSet, Classification, Decision, Host}
use ueg.Gateway.{Stage, Entry}
use ueg.Gateway.Capture.{CapturedOutput, new_output_capture, write_all, capture_result}

-- What cmd.Run returned: nothing, an exit error with its code, or another error with its text.
pub data Exit : Type 0 where
  finished : Exit
  exited : ℤ → Exit
  failed : Text → Exit

pub record Process : Type 0 where
  pub stdout : List (List ℕ)
  pub stderr : List (List ℕ)
  pub exit : Exit
  pub duration_ms : ℤ

-- `look_path` is exec.LookPath: the path, or the text of the error. `start` runs a resolved path
-- with arguments in a directory, streamed or not. The mirrors are this process's own streams.
pub record Machine : Type 0 where
  pub look_path : Text → Result Text Text
  pub getwd : Option Text
  pub actor : Text
  pub host_arch : Text
  pub host_os : Text
  pub engine_version : Text
  pub rules : RuleSet
  pub rules_hash : Text
  pub host : Host
  pub start : Text → List Text → Text → Bool → Process
  pub stdout_mirror : List ℕ → ℕ × Bool
  pub stderr_mirror : List ℕ → ℕ × Bool

-- The result of one invocation; `path` is the stages after VOID.
pub record RunResult : Type 0 where
  pub stage : Stage
  pub classification : Option Classification
  pub decision : Option Decision
  pub admission_receipt : Option Receipt
  pub outcome_receipt : Option Receipt
  pub executed : Bool
  pub exit_code : ℤ
  pub output : Option (CapturedOutput × CapturedOutput × ℤ)
  pub path : List Stage

pub data Event : Type 0 where
  appended : Entry → Event
  started : Text → List Text → Text → Event

pub data Error (E : Type 0) : Type 0 where
  no_command : Error E
  -- The panic of policy.Hash.
  policy_panic : Error E
  ledger : E → Error E
  not_executable : Stage → Error E

-- The result, the error if there is one, the ledger and what was done.
pub record Outcomes (E L : Type 0) : Type 0 where
  pub result : RunResult
  pub failure : Option (Error E)
  pub ledger_after : L
  pub events : List Event

abbrev pub advance : RunResult → Stage → RunResult
advance r s = record r { stage = s; path = r.path ++ s ∷ [] }

abbrev pub initial : RunResult
initial = record {
  stage = Stage.void;
  classification = none;
  decision = none;
  admission_receipt = none;
  outcome_receipt = none;
  executed = false;
  exit_code = pos 0;
  output = none;
  path = [];
}

abbrev pub is_admitted : Outcome → Bool
is_admitted Outcome.admitted = true
is_admitted Outcome.refused = false

abbrev pub exit_code_of : Exit → ℤ
exit_code_of finished = pos 0
exit_code_of (exited n) = n
exit_code_of (failed message) = pos 127

abbrev pub error_text : {A : Type 0} → Result Text A → Text
error_text (ok a) = []
error_text (err e) = e

abbrev pub resolve : Result Text Text → Text → Text
resolve (ok p) name = p
resolve (err e) name = name

abbrev pub pick_cwd : Text → Option Text → Text
pick_cwd [] none = []
pick_cwd [] (some wd) = wd
pick_cwd (x ∷ xs) wd = x ∷ xs

-- A process that did not start has its error on the captured error stream.
abbrev pub error_chunks : Exit → List (List ℕ)
error_chunks (failed message) = utf8 (message ++ b'\n' ∷ []) ∷ []
error_chunks e = []

abbrev pub mirror_if : Bool → (List ℕ → ℕ × Bool) → Option (List ℕ → ℕ × Bool)
mirror_if stream mirror = if stream then some mirror else none

-- What an execution leaves: the two streams, the exit code and the time it took.
pub record Execution : Type 0 where
  pub out : CapturedOutput
  pub errs : CapturedOutput
  pub code : ℤ
  pub duration : ℤ

module _ (m : Machine) (c : Crypto) where
  unfoldable pub execute : Text → List Text → Text → Bool → Execution
  unfolding capture_result
  execute resolved argv cwd stream =
      let p : Process = m.start resolved argv cwd stream in
      let o = write_all (new_output_capture (mirror_if stream m.stdout_mirror)) p.stdout in
      let e = write_all (new_output_capture (mirror_if stream m.stderr_mirror)) p.stderr in
      record {
        out = capture_result c o;
        errs = capture_result c (write_all e (error_chunks p.exit));
        code = exit_code_of p.exit;
        duration = p.duration_ms;
      }
