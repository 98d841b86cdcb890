-- ===== src/Ledger/Home.antt =====
-- ledger.go: the ledger in memory, how it is opened, and what is checked before it is extended.
use ueg.Common.{
  Bool, true, false, not, ◌||◌, List, [], ◌∷◌, Option, none, some, Result, ok, err, ◌>>=◌, ◌>>◌,
  refuse_if, or_fail, ℤ, minus_one, int_succ, Text, text, last?, ◌==◌, ◌!=◌, lookup, insert,
  text_Eq, int_Eq, if◌then◌else◌,
}
use ueg.Crypto.{Crypto}
use ueg.Canon.{str}
use ueg.Keys.{Pair, legacy_key_id}
use ueg.Identity.{Status, LedgerBoundary, EpochState, State, active_of, status_Eq}
use ueg.Ledger.{
  Receipt, Petition, Trust, VerifyResult, Finding, verify, verify_bplus, sequence_authorized,
}
use ueg.Ledger.Petitions.{verify_petitions, claimed_hash}

-- A nil pair is none.
pub record Ledger : Type 0 where
  pub key_id : Text
  pub pair : Option Pair
  pub is_bplus : Bool
  pub identity_id : Text
  pub identity_state : Option State
  pub receipts : List Receipt
  pub petitions : List Petition
  pub head : Option Text
  pub seq : ℤ
  pub pending_recovery : Bool
  pub identity_created : Bool

pub data Error : Type 0 where
  unverifiable_chain unbound_requests : List Finding → Error
  no_active_epoch outside_window : Error
  not_canonical no_pair no_signature not_marshalled : Error

unfoldable pub make_ledger : Text → Option Pair → Ledger
make_ledger key_id pair = record {
  key_id = key_id;
  pair = pair;
  is_bplus = false;
  identity_id = [];
  identity_state = none;
  receipts = [];
  petitions = [];
  head = none;
  seq = minus_one;
  pending_recovery = false;
  identity_created = false;
}

abbrev pub signing_pair : State → Text → Option Pair
signing_pair s key_id = elim s.active_pair [ some p ↦ some p | none ↦ lookup key_id s.trust ]

unfoldable pub make_bplus_ledger : State → Ledger
unfolding make_ledger active_of
make_bplus_ledger s =
    let l : Ledger = record (make_ledger [] none) {
      is_bplus = true;
      identity_state = some s;
      identity_id = s.genesis.identity_id;
    } in
    elim (active_of s) [
      | none ↦ l
      | some e ↦ record l {
        key_id = e.operational_key_id;
        pair = signing_pair s e.operational_key_id;
      }
    ]

-- The head of the chain, at which lifecycle records are made.
unfoldable pub boundary : Ledger → LedgerBoundary
boundary l = record { sequence_no = l.seq; receipt_id = l.head }

unfoldable pub petition_by_hash : List Petition → Text → Option Petition
unfolding claimed_hash
petition_by_hash [] hash = none
petition_by_hash (p ∷ ps) hash = elim (lookup (text "petition_hash") p) [
  | some (str h) ↦ if h == hash then some p else petition_by_hash ps hash
  | _ ↦ petition_by_hash ps hash
]

-- `load`, once the two files are read: the last receipt is the head.
unfoldable pub loaded : Ledger → List Receipt → List Petition → Ledger
loaded l rs ps = elim (last? rs) [
  | none ↦ record l { receipts = rs; petitions = ps; head = none; seq = minus_one }
  | some r ↦ record l {
    receipts = rs;
    petitions = ps;
    head = some r.receipt_id;
    seq = r.sequence_no;
  }
]

-- What Append asks of the identity before it signs.
unfoldable pub check_epoch : Ledger → Option EpochState → Result Error (Unit {0})
check_epoch l none = err no_active_epoch
check_epoch l (some e) = do
  refuse_if (e.status != Status.active || l.key_id != e.operational_key_id) no_active_epoch
  pair ← or_fail l.pair no_active_epoch
  refuse_if (not (sequence_authorized e (int_succ l.seq))) outside_window

abbrev pub state_active : Option State → Option EpochState
state_active none = none
state_active (some s) = active_of s

unfoldable pub check_identity : Ledger → Result Error (Unit {0})
unfolding check_epoch
check_identity l = if l.is_bplus then check_epoch l (state_active l.identity_state) else ok tt

module _ (c : Crypto) where
  -- A key under its id of the older form too.
  unfoldable pub trust_legacy : Pair → Trust → Trust
  trust_legacy p t = elim (legacy_key_id c p) [ err e ↦ t | ok legacy ↦ insert legacy p t ]

  unfoldable pub trust_all : Trust → Trust
  unfolding trust_legacy
  trust_all [] = []
  trust_all ((k, p) ∷ t) = trust_legacy p (insert k p (trust_all t))

  -- A legacy ledger has a pair.
  unfoldable pub trust_self : Ledger → Trust
  unfolding trust_all trust_legacy
  trust_self l = elim (if l.is_bplus then l.identity_state else none) [
    | none ↦ elim l.pair [ none ↦ [] | some p ↦ trust_legacy p ((l.key_id, p) ∷ []) ]
    | some s ↦ trust_all s.trust
  ]

  unfoldable pub verify_receipts : Ledger → VerifyResult
  verify_receipts l =
      if l.is_bplus
      then verify_bplus c l.receipts l.identity_state
      else verify c l.receipts (trust_self l)

  unfoldable pub check_append : Ledger → Result Error (Unit {0})
  check_append l = do
    refuse_if (not (verify_receipts l).is_ok) (unverifiable_chain (verify_receipts l).findings)
    check_identity l
    refuse_if (not (verify_petitions c l.receipts l.petitions).is_ok)
        (unbound_requests (verify_petitions c l.receipts l.petitions).findings)
