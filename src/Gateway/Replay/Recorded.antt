-- ===== src/Gateway/Replay/Recorded.antt =====
-- replay.go, intField: an exit code that was read from a file is a json.Number, which it does not
-- read.
use ueg.Common.{◌≡◌, sym, ap, ◌∙◌, some, ok, pos, Text, text, text_Eq, lookup}
use ueg.Crypto.{Crypto}
use ueg.Canon.{number}
use ueg.Ledger.{Petition}
use ueg.Gateway.{Options, LedgerOps}
use ueg.Gateway.Machine.{Machine}
use ueg.Gateway.Run.{run}
use ueg.Gateway.Replay.{
  Verdict, Account, ReplayResult, Evidence, text_field, int_field, int_or_zero, find_admission,
  find_outcome, recorded_outcome,
}
use ueg.Gateway.Replay.Again.{enforce_options, recorded_argv, replay}
use ueg.Gateway.Replay.Verdicts.{replay-IsMatch}

some_inj : (a b : Petition) → some a ≡ some b → a ≡ b
some_inj a b h = cc

-- Where the recorded exit code is a number as encoding/json reads it, whatever its digits, MATCH is
-- said only of a command that now returns 0: a recorded failure that is reproduced is not matched.
pub replay-match_number :
    {E L : Type 0} (m : Machine) (c : Crypto) (ops : LedgerOps E L) (view : Evidence L) (l : L)
    (selector : Text) (opts : Options) (p outcome : Petition) (s : Text) (r : ReplayResult)
    → find_admission {E = E} (view.petitions l) selector ≡ ok p
    → find_outcome (view.petitions l) (text_field (text "receipt_id") p) ≡ some outcome
    → lookup (text "exit_code") outcome ≡ some (number s)
    → (replay m c ops view l selector opts).answer ≡ ok r
    → r.verdict ≡ Verdict.match
    → (run m c ops l (recorded_argv p) (enforce_options p opts)).result.exit_code ≡ pos 0
unfolding recorded_outcome int_field
replay-match_number m c ops view l selector opts p outcome s r found out code h v =
    let (ver, k) = replay-IsMatch m c ops view l selector opts p r found h v in
    let same : k.outcome ≡ outcome = some_inj k.outcome outcome (sym k.found ∙ out) in
    k.exit_code
    ∙ ap (λ (a : Account). a.exit_code) k.recorded
    ∙ ap (λ (o : Petition). int_or_zero (lookup (text "exit_code") o)) same
    ∙ ap int_or_zero code
