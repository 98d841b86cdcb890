-- ===== src/Gateway.antt =====
-- internal/gateway/gateway.go: a command is classified, admitted or refused, run if admitted, and
-- leaves receipts. The ledger is an interface here; the machine that runs commands is a parameter.
pub mod Appends
pub mod Capture
pub mod Machine
pub mod Run
pub mod Replay
use ueg.Common.{
  ℕ, ◌≡◌, ◌<◌, Bool, true, false, List, [], ◌∷◌, ◌++◌, Option, none, some, ℤ, Text, text, Result,
}
use ueg.Canon.{Value}
use ueg.Ledger.{Receipt, PetitionSummary, Petition}
use ueg.Policy.{Posture, Approvals, Classification, Decision}

pub data Stage : Type 0 where
  void nascent declared canonical gated executable executed stabilized : Stage

unfoldable pub stage_text : Stage → Text
unfolding text
stage_text Stage.void = text "VOID"
stage_text Stage.nascent = text "NASCENT"
stage_text Stage.declared = text "DECLARED"
stage_text Stage.canonical = text "CANONICAL"
stage_text Stage.gated = text "GATED"
stage_text Stage.executable = text "EXECUTABLE"
stage_text Stage.executed = text "EXECUTED"
stage_text Stage.stabilized = text "STABILIZED"

-- The position of a stage, its number in Go.
abbrev pub rank : Stage → ℕ
rank Stage.void = 0
rank Stage.nascent = 1
rank Stage.declared = 2
rank Stage.canonical = 3
rank Stage.gated = 4
rank Stage.executable = 5
rank Stage.executed = 6
rank Stage.stabilized = 7

abbrev pub is_executable : Stage → Bool
is_executable Stage.executable = true
is_executable _ = false

pub record Options : Type 0 where
  pub posture : Posture
  pub approvals : Approvals
  pub dry_run : Bool
  pub stream : Bool
  pub cwd : Text

-- One call of Ledger.Append.
pub record Entry : Type 0 where
  pub petition : Petition
  pub summary : PetitionSummary
  pub actor : Text
  pub admission : Text
  pub expression : Text
  pub policy_hash : Text
  pub clause_ids : List Text

-- What the gateway asks of a ledger: Append, which may fail, and then too leave a changed ledger.
pub record LedgerOps (E L : Type 0) : Type 0 where
  pub append : L → Entry → Result E Receipt × L
