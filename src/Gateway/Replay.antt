-- ===== src/Gateway/Replay.antt =====
-- internal/gateway/replay.go: a recorded run is verified, run again and compared. The ledger is an
-- interface, Append with what it holds and whether its chain verifies.
pub mod Again
pub mod Verdicts
pub mod Recorded
use ueg.Common.{
  ℕ, ◌+◌, Bool, true, false, not, ◌&&◌, ◌||◌, List, [], ◌∷◌, ◌++◌, Option, none, some, Result, ok,
  err, ℤ, pos, Text, text, trim_space, has_prefix, last?, length, lookup, ◌==◌, ◌!=◌, text_Eq,
  int_Eq, if◌then◌else◌,
}
use ueg.Crypto.{Crypto}
use ueg.Canon.{Value, Items, nil, cons, bool, int, str, arr, float, number}
use ueg.Ledger.{Receipt, Petition, VerifyResult, Finding}
use ueg.Ledger.Petitions.{text_or_empty, verify_petitions}
use ueg.Policy.{Posture, Outcome, Approvals, Classification, Decision, class_text, outcome_text}
use ueg.Gateway.{Options, LedgerOps}
use ueg.Gateway.Capture.{CapturedOutput}
use ueg.Gateway.Machine.{Machine, RunResult, Event, Outcomes}
use ueg.Gateway.Machine
use ueg.Gateway.Run.{run}

pub data Verdict : Type 0 where
  tampered match diverged refused refusal_confirmed check_confirmed incomplete : Verdict

pub data Difference : Type 0 where
  class_changed decision_changed : Text → Text → Difference
  exit_changed : ℤ → ℤ → Difference
  stdout_changed stderr_changed : Text → Text → Difference

-- What was recorded of a run, and what its replay observed.
pub record Account : Type 0 where
  pub decision : Text
  pub effect_class : Text
  pub posture : Text
  pub executed : Bool
  pub exit_code : ℤ
  pub stdout_sha256 : Text
  pub stderr_sha256 : Text

pub record ReplayResult : Type 0 where
  pub verdict : Verdict
  pub differences : List Difference
  pub chain_ok : Bool
  pub chain_findings : List Finding
  pub target : Text
  pub recorded : Option Account
  pub observed : Option Account
  pub admission_id : Text
  pub outcome_id : Text

pub data Error (E : Type 0) : Type 0 where
  no_match : Text → Error E
  ambiguous : Text → ℕ → Error E
  run_failed : Machine.Error E → Error E

-- The answer, with the ledger after it and what was done.
pub record Replayed (E L : Type 0) : Type 0 where
  pub answer : Result (Error E) ReplayResult
  pub ledger_after : L
  pub events : List Event

pub record Evidence (L : Type 0) : Type 0 where
  pub verify_receipts : L → VerifyResult
  pub receipts : L → List Receipt
  pub petitions : L → List Petition

unfoldable pub text_field : Text → Petition → Text
text_field key p = text_or_empty (lookup key p)

abbrev pub bool_or_false : Option Value → Bool
bool_or_false (some (bool b)) = b
bool_or_false _ = false

-- `v.([]any)`, each member as a text or empty.
abbrev pub item_text : Value → Text
item_text (str s) = s
item_text _ = []

unfoldable pub item_texts : Items → List Text
item_texts nil = []
item_texts (cons v vs) = item_text v ∷ item_texts vs

abbrev pub to_string_slice : Option Value → List Text
to_string_slice (some (arr vs)) = item_texts vs
to_string_slice _ = []

-- The switch of intField on the types float64, int64 and int.
abbrev pub int_or_zero : Option Value → ℤ
int_or_zero (some (float n)) = n
int_or_zero (some (int n)) = n
int_or_zero _ = pos 0

unfoldable pub int_field : Petition → Text → ℤ
int_field p key = int_or_zero (lookup key p)

abbrev pub receipt_id_or_empty : Option Receipt → Text
receipt_id_or_empty none = []
receipt_id_or_empty (some r) = r.receipt_id

unfoldable pub selects_last : Text → Bool
unfolding text
selects_last sel = sel == [] || sel == text "last"

unfoldable pub selected : Text → Petition → Bool
unfolding text text_field selects_last
selected sel p =
    text_field (text "action") p == text "execute"
    && (selects_last sel
        || has_prefix (text_field (text "receipt_id") p) sel
        || has_prefix (text_field (text "petition_hash") p) sel)

unfoldable pub select : Text → List Petition → List Petition
unfolding selected
select sel [] = []
select sel (p ∷ ps) = let rest = select sel ps in if selected sel p then p ∷ rest else rest

abbrev pub single : {E : Type 0} → Text → List Petition → Result (Error E) Petition
single selector [] = err (no_match selector)
single selector (p ∷ []) = ok p
single selector (p ∷ q ∷ ps) = err (ambiguous selector (length (p ∷ q ∷ ps)))

abbrev pub latest : {E : Type 0} → Text → Option Petition → Result (Error E) Petition
latest selector none = err (no_match selector)
latest selector (some p) = ok p

unfoldable pub find_admission : {E : Type 0} → List Petition → Text → Result (Error E) Petition
unfolding select selects_last
find_admission ps selector =
    let sel = trim_space selector in
    if selects_last sel
    then latest selector (last? (select sel ps))
    else single selector (select sel ps)

unfoldable pub is_outcome_of : Text → Petition → Bool
unfolding text text_field
is_outcome_of id p =
    text_field (text "action") p == text "record-outcome"
    && text_field (text "admission_receipt_id") p == id

unfoldable pub find_outcome : List Petition → Text → Option Petition
unfolding is_outcome_of
find_outcome [] id = none
find_outcome (p ∷ ps) id = if is_outcome_of id p then some p else find_outcome ps id

-- policy.Posture of a recorded text.
unfoldable pub posture_of : Text → Posture
unfolding text
posture_of s =
    if s == text "enforce"
    then Posture.enforce
    else if s == text "observe"
    then Posture.observe
    else Posture.other s

unfoldable pub recorded_account : Petition → Account
unfolding text text_field
recorded_account p = record {
  decision = text_field (text "decision") p;
  effect_class = text_field (text "effect_class") p;
  posture = text_field (text "posture") p;
  executed = bool_or_false (lookup (text "executed") p);
  exit_code = pos 0;
  stdout_sha256 = [];
  stderr_sha256 = [];
}

unfoldable pub recorded_outcome : Account → Petition → Account
unfolding text text_field int_field
recorded_outcome a p = record a {
  exit_code = int_field p (text "exit_code");
  stdout_sha256 = text_field (text "stdout_sha256") p;
  stderr_sha256 = text_field (text "stderr_sha256") p;
}

-- The fields of a run's result; digests are empty where nothing ran.
abbrev pub outcome_of : Option Decision → Text
outcome_of none = []
outcome_of (some d) = outcome_text d.outcome

abbrev pub class_of : Option Classification → Text
class_of none = []
class_of (some k) = class_text k.class

abbrev pub stdout_of : Option (CapturedOutput × CapturedOutput × ℤ) → Text
stdout_of none = []
stdout_of (some o) = o.0.sha256

abbrev pub stderr_of : Option (CapturedOutput × CapturedOutput × ℤ) → Text
stderr_of none = []
stderr_of (some o) = o.1.sha256

unfoldable pub observed_account : RunResult → Account
observed_account r = record {
  decision = outcome_of r.decision;
  effect_class = class_of r.classification;
  posture = [];
  executed = r.executed;
  exit_code = r.exit_code;
  stdout_sha256 = stdout_of r.output;
  stderr_sha256 = stderr_of r.output;
}

-- One difference where a test finds one.
abbrev pub unless : Bool → Difference → List Difference
unless true d = []
unless false d = d ∷ []

unfoldable pub decision_differences : Account → Account → List Difference
decision_differences was now =
    unless (now.effect_class == was.effect_class) (class_changed was.effect_class now.effect_class)
    ++ unless (now.decision == was.decision) (decision_changed was.decision now.decision)

unfoldable pub output_differences : Account → Account → List Difference
output_differences was now =
    unless (now.exit_code == was.exit_code) (exit_changed was.exit_code now.exit_code)
    ++ (unless (now.stdout_sha256 == was.stdout_sha256)
          (stdout_changed was.stdout_sha256 now.stdout_sha256)
        ++ unless (now.stderr_sha256 == was.stderr_sha256)
            (stderr_changed was.stderr_sha256 now.stderr_sha256))
