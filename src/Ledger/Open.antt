-- ===== src/Ledger/Open.antt =====
-- ledger.go: how a home is opened. What the packages identity and keys load from the home's other
-- files is an input; the receipts, the requests and the pending record are the files of Recovery. A
-- state for signing without its pair is refused.
use ueg.Common.{
  ℕ, ◌≡◌, Bool, true, false, not, ◌||◌, List, [], ◌∷◌, Option, none, some, Result, ok, ◌>>=◌, ◌>>◌,
  refuse_if, or_fail, map_err, >>=-eq-ok, utf8_decode, split_rune, trim_space, is_some, ◌==◌,
  text_Eq, if◌then◌else◌, arith,
}
use ueg.Crypto.{Crypto}
use ueg.Keys.{Pair, key_id}
use ueg.Identity.{State}
use ueg.Ledger.{Receipt, Petition, Finding, verify_bplus}
use ueg.Ledger.Home.{Ledger, make_ledger, make_bplus_ledger, loaded}
use ueg.Ledger.Parse.{Wire, parse_receipt_strict, parse_petition}
use ueg.Ledger.Recovery.{Files, newline, content, recover_pending_files}

-- What is loaded from the home: identity.IsBPlus, LoadSigning and LoadPublic, and the key files of a
-- legacy home (LoadExisting, LoadPublicFile).
pub record Home : Type 0 where
  pub is_bplus : Bool
  pub signing_state : Option State
  pub public_state : Option State
  pub existing_pair : Option Pair
  pub public_pair : Option Pair

pub data Error : Type 0 where
  recovery_required no_identity no_keys no_key_id no_active_key : Error
  corrupt_receipt corrupt_petition : ueg.Ledger.Parse.Error → Error
  recovery_failed : ueg.Ledger.Recovery.Error → Error
  not_authorized : List Finding → Error

-- The records of the lines that are not blank.
unfoldable pub read_records :
    {A : Type 0}
    → (List ℕ → Result ueg.Ledger.Parse.Error A)
    → List (List ℕ)
    → Result ueg.Ledger.Parse.Error (List A)
read_records parse [] = ok []
read_records parse (line ∷ lines) =
    if trim_space (utf8_decode line) == []
    then read_records parse lines
    else do a ← parse line; rest ← read_records parse lines; ok (a ∷ rest)

module _ (c : Crypto) (w : Wire) where
  -- Without a file of receipts the requests are not read.
  unfoldable pub load : Ledger → Files → Result Error Ledger
  load l d = elim d.receipts [
    | none ↦ ok (loaded l [] [])
    | some bytes ↦ do
      rs ←
          map_err corrupt_receipt (read_records (parse_receipt_strict w) (split_rune newline bytes))
      ps ←
          map_err corrupt_petition
            (read_records (parse_petition w) (split_rune newline (content d.petitions)))
      ok (loaded l rs ps)
  ]

  -- A B+ ledger once its state is there: the receipts must be authorized.
  unfoldable pub load_bplus : State → Bool → Files → Result Error Ledger
  load_bplus s pending d = do
    l ← load (record (make_bplus_ledger s) { pending_recovery = pending }) d
    refuse_if (not (verify_bplus c l.receipts (some s)).is_ok)
        (not_authorized (verify_bplus c l.receipts (some s)).findings)
    ok l

  -- A legacy ledger of a pair.
  unfoldable pub load_legacy : Pair → Bool → Files → Result Error Ledger
  load_legacy p pending d = do
    id ← map_err (λ _. no_key_id) (key_id c p)
    load (record (make_ledger id (some p)) { pending_recovery = pending }) d

  unfoldable pub recover_with : Pair → Files → Result Error Files
  recover_with p d = map_err recovery_failed (recover_pending_files c w p d)

  unfoldable pub open_bplus_signing : Home → Bool → Files → Result Error (Ledger × Files)
  open_bplus_signing h false d = do
    s ← or_fail h.signing_state no_identity
    l ← load_bplus s (is_some d.pending) d
    ok (l, d)
  open_bplus_signing h true d = do
    s ← or_fail h.signing_state no_identity
    p ← or_fail s.active_pair no_active_key
    d' ← recover_with p d
    l ← load_bplus s false d'
    ok (l, d')

  unfoldable pub open_legacy : Home → Bool → Files → Result Error (Ledger × Files)
  open_legacy h false d = do
    p ← or_fail h.existing_pair no_keys
    l ← load_legacy p false d
    ok (l, d)
  open_legacy h true d = do
    p ← or_fail h.existing_pair no_keys
    d' ← recover_with p d
    l ← load_legacy p false d'
    ok (l, d')

  -- openExisting.
  unfoldable pub open_with : Home → Bool → Files → Result Error (Ledger × Files)
  open_with h recovering d =
      if h.is_bplus then open_bplus_signing h recovering d else open_legacy h recovering d

  unfoldable pub open_existing : Home → Files → Result Error (Ledger × Files)
  open_existing h d = do refuse_if (is_some d.pending) recovery_required; open_with h false d

  unfoldable pub recover_existing : Home → Files → Result Error (Ledger × Files)
  recover_existing h d = open_with h true d

  unfoldable pub open_read_only : Home → Files → Result Error Ledger
  open_read_only h d =
      if h.is_bplus
      then (do
        s ← or_fail h.public_state no_identity
        load_bplus s (is_some d.pending || s.pending_mutation) d)
      else (do p ← or_fail h.public_pair no_keys; load_legacy p (is_some d.pending) d)

  load_bplus-authorized :
      (s : State) (pending : Bool) (d : Files) (l : Ledger)
      → load_bplus s pending d ≡ ok l
      → (verify_bplus c l.receipts (some s)).is_ok ≡ true
  unfolding load_bplus
  load_bplus-authorized s pending d l h =
      let (l', hl, h1) =
        >>=-eq-ok (load (record (make_bplus_ledger s) { pending_recovery = pending }) d) _ h in
      ground (arith, h1)

  -- A B+ home is opened, recovering or not, only if its receipts are authorized by the lifecycle of
  -- its identity.
  pub open_with-authorized :
      (h : Home) (recovering : Bool) (d d' : Files) (s : State) (l : Ledger)
      → h.is_bplus ≡ true
      → h.signing_state ≡ some s
      → open_with h recovering d ≡ ok (l, d')
      → (verify_bplus c l.receipts (some s)).is_ok ≡ true
  unfolding open_with open_bplus_signing
  open_with-authorized h false d d' s l b e o =
      let (x, hx, h1) = >>=-eq-ok (load_bplus s (is_some d.pending) d) _ (rw (b, e) at o) in
      let same : x ≡ l = ground (arith, h1) in
      rw (← same) (load_bplus-authorized s (is_some d.pending) d x hx)
  open_with-authorized h true d d' s l b e o =
      let (p, hp, h1) = >>=-eq-ok (or_fail s.active_pair no_active_key) _ (rw (b, e) at o) in
      let (d1, hd, h2) = >>=-eq-ok (recover_with p d) _ h1 in
      let (x, hx, h3) = >>=-eq-ok (load_bplus s false d1) _ h2 in
      let same : x ≡ l = ground (arith, h3) in rw (← same) (load_bplus-authorized s false d1 x hx)
