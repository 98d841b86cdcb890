-- ===== src/Tests/Homes.antt =====
-- internal/ledger/ledger.go, openExisting: a B+ home with no receipts yet.
use ueg.Common.{◌≡◌, refl, true, false, [], ◌∷◌, none, some, Result, ok, err}
use ueg.Identity.{State}
use ueg.Ledger.{verify_bplus}
use ueg.Ledger.Home.{Ledger, make_ledger}
use ueg.Ledger.Recovery.{Files}
use ueg.Ledger.Open.{Home, Error, open_with, open_with-authorized}
use ueg.Tests.Toy.{toy}
use ueg.Tests.Wires.{wire}
use ueg.Tests.Identities.{created, derived}

abbrev state : State
state = record derived { records = created ∷ [] }

abbrev home : Home
home = record {
  is_bplus = true;
  signing_state = some state;
  public_state = none;
  existing_pair = none;
  public_pair = none;
}

abbrev files : Files
files = record { receipts = none; petitions = none; pending = none; temp = none }

abbrev opened_or : Result Error (Ledger × Files) → Ledger
opened_or (ok x) = x.0
opened_or (err e) = make_ledger [] none

abbrev opened : Ledger
opened = opened_or (open_with toy wire home false files)

opens : open_with toy wire home false files ≡ ok (opened, files)
unfolding open_with ueg.Ledger.Open.open_bplus_signing ueg.Ledger.Open.load_bplus
    ueg.Ledger.Open.load verify_bplus ueg.Ledger.verify ueg.Ledger.verify_from
    ueg.Ledger.Home.loaded ueg.Ledger.verify_lifecycle_boundaries ueg.Ledger.check_boundary
    ueg.Ledger.check_authority
opens = refl

open_with-authorized_example : (verify_bplus toy opened.receipts (some state)).is_ok ≡ true
open_with-authorized_example =
    open_with-authorized toy wire home false files files state opened refl refl opens
