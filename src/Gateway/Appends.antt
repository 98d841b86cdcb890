-- ===== src/Gateway/Appends.antt =====
-- gateway.go, Run, with the ledger that the command line gives it: its entries go to Append of
-- internal/ledger/ledger.go. The time of every entry is a parameter.
use ueg.Common.{Result, ok, err, Text}
use ueg.Crypto.{Crypto}
use ueg.Ledger.{Receipt}
use ueg.Ledger.Home.{Ledger, Error}
use ueg.Ledger.Append.{Request, append}
use ueg.Gateway.{Entry, LedgerOps}

-- The arguments of Append.
abbrev pub to_request : Entry → Request
to_request e = record {
  petition = e.petition;
  summary = e.summary;
  actor = e.actor;
  admission = e.admission;
  expression = e.expression;
  policy_hash = e.policy_hash;
  clause_ids = e.clause_ids;
}

-- A ledger that Append refuses to extend stays as it is.
abbrev pub kept : Ledger → Result Error (Ledger × Receipt) → Result Error Receipt × Ledger
kept l (ok (l', r)) = (ok r, l')
kept l (err e) = (err e, l)

abbrev pub ledger_ops : Crypto → Text → LedgerOps Error Ledger
ledger_ops c now = record { append = λ l e. kept l (append c l (to_request e) now) }
