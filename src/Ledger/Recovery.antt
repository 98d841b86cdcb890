-- ===== src/Ledger/Recovery.antt =====
-- transaction.go: the write of a receipt and its request as a journal of steps on the home's files,
-- and what recovery makes of the files that an interrupted write leaves. A missing file is none. No
-- other process changes the files, and each step that the file system does not make atomic can stop
-- after any number of bytes.
pub mod Lines
pub mod Planned
pub mod Atomic
pub mod Trusted
use ueg.Common.{
  ℕ, zero, suc, Bool, true, false, not, ◌&&◌, List, [], ◌∷◌, ◌++◌, Option, none, some, Result, ok,
  err, ◌>>=◌, ◌>>◌, refuse_if, map_err, ℤ, pos, int_succ, Text, utf8, utf8_decode, split_rune,
  trim_space, has_prefix, last?, take, is_some, insert, same_optional, ◌==◌, ◌!=◌, int_Eq, nat_Eq,
  text_Eq, if◌then◌else◌,
}
use ueg.Crypto.{Crypto}
use ueg.Keys.{Pair, legacy_key_id, validate_key_id, verify_b64}
use ueg.Strictjson.{unmarshal_by}
use ueg.Ledger.{Receipt, Petition, Trust, Finding, compute_id, verify}
use ueg.Ledger.Petitions.{named_receipt, verify_petitions}
use ueg.Ledger.Parse.{Wire, PendingPair, parse_receipt_strict, parse_petition}

-- receipts.ndjson, petitions.ndjson, the pending record and its temporary file.
pub record Files : Type 0 where
  pub receipts : Option (List ℕ)
  pub petitions : Option (List ℕ)
  pub pending : Option (List ℕ)
  pub temp : Option (List ℕ)

abbrev pub newline : ℕ
newline = 10

abbrev pub content : Option (List ℕ) → List ℕ
content none = []
content (some bytes) = bytes

-- What Append does to the files, one call after the other.
pub data Step : Type 0 where
  remove_temp rename_temp remove_pending : Step
  write_temp append_receipts append_petitions : List ℕ → Step

unfoldable pub apply : Step → Files → Files
apply remove_temp d = record d { temp = none }
apply rename_temp d = record d { pending = d.temp; temp = none }
apply remove_pending d = record d { pending = none }
apply (write_temp bytes) d = record d { temp = some bytes }
apply (append_receipts bytes) d = record d { receipts = some (content d.receipts ++ bytes) }
apply (append_petitions bytes) d = record d { petitions = some (content d.petitions ++ bytes) }

-- A step that stops after `k` bytes; removing and renaming a file happen at once or not at all.
unfoldable pub stop_in : ℕ → Step → Files → Files
unfolding apply
stop_in k (write_temp bytes) d = apply (write_temp (take k bytes)) d
stop_in k (append_receipts bytes) d = apply (append_receipts (take k bytes)) d
stop_in k (append_petitions bytes) d = apply (append_petitions (take k bytes)) d
stop_in k s d = d

-- The first `n` steps, and `k` bytes of the next.
unfoldable pub interrupt : ℕ → ℕ → List Step → Files → Files
unfolding apply stop_in
interrupt n k [] d = d
interrupt zero k (s ∷ steps) d = stop_in k s d
interrupt (suc n) k (s ∷ steps) d = interrupt n k steps (apply s d)

-- beginPending, the two lines, and clearPending.
unfoldable pub begin_pending : List ℕ → List Step
begin_pending bytes = remove_temp ∷ write_temp (bytes ++ newline ∷ []) ∷ rename_temp ∷ []

unfoldable pub clear_pending : List Step
clear_pending = remove_pending ∷ remove_temp ∷ []

unfoldable pub journal : List ℕ → PendingPair → List Step
unfolding begin_pending clear_pending
journal bytes pair =
    begin_pending bytes
    ++ (append_receipts (pair.receipt_line ++ newline ∷ [])
        ∷ append_petitions (pair.petition_line ++ newline ∷ [])
        ∷ clear_pending)

pub data Error : Type 0 where
  recovery_required : Error
  invalid_record : ueg.Strictjson.Error → Error
  invalid_receipt invalid_petition corrupt_line : ueg.Ledger.Parse.Error → Error
  id_mismatch signature_invalid names_other_receipt not_bound : Error
  partial_mismatch id_collision not_continuing files_changed : Error
  chain_invalid binding_invalid : List Finding → Error

abbrev pub extend_cut : ℕ → List ℕ → List ℕ → List ℕ × List ℕ
extend_cut b [] partial = if b == newline then (b ∷ [], partial) else ([], b ∷ partial)
extend_cut b (a ∷ whole) partial = (b ∷ a ∷ whole, partial)

-- beginPending writes nothing over a pending record.
unfoldable pub start_journal : List ℕ → PendingPair → Files → Result Error (List Step)
start_journal raw pair d =
    if is_some d.pending then err recovery_required else ok (journal raw pair)

-- The data up to its last newline, and what follows that.
unfoldable pub cut_partial : List ℕ → List ℕ × List ℕ
cut_partial [] = ([], [])
cut_partial (b ∷ bytes) = let (whole, partial) = cut_partial bytes in extend_cut b whole partial

-- readRecoveryData, which drops a partial last line if it begins the pending one.
unfoldable pub read_recovery_data : List ℕ → List ℕ → Result Error (List ℕ)
unfolding cut_partial
read_recovery_data bytes pending_line =
    let (whole, partial) = cut_partial bytes in
    do refuse_if (not (has_prefix pending_line partial)) partial_mismatch; ok whole

unfoldable pub end_line : List ℕ → List ℕ
end_line bytes = elim (last? bytes) [
  | none ↦ bytes
  | some b ↦ if b == newline then bytes else bytes ++ newline ∷ []
]

unfoldable pub append_record : List ℕ → List ℕ → List ℕ
unfolding end_line
append_record bytes line = end_line bytes ++ (line ++ newline ∷ [])

-- bytes.TrimSpace leaves nothing.
unfoldable pub is_blank : List ℕ → Bool
is_blank line = trim_space (utf8_decode line) == []

-- parseRecoveryReceipts and parseRecoveryPetitions: the records of the lines, and whether one of them
-- has the pending id; it must be the pending line.
module _ {A : Type 0} (parse : List ℕ → Result ueg.Ledger.Parse.Error A) (id_of : A → Text)
    (pending_line : List ℕ) (id : Text) where
  unfoldable pub parse_lines : List (List ℕ) → Result Error (List A × Bool)
  parse_lines [] = ok ([], false)
  parse_lines (line ∷ lines) = if is_blank line then parse_lines lines else do
    a ← map_err corrupt_line (parse line)
    refuse_if (id_of a == id && line != pending_line) id_collision
    (rest, present) ← parse_lines lines
    ok (a ∷ rest, if id_of a == id then true else present)

  unfoldable pub parse_data : List ℕ → Result Error (List A × Bool)
  parse_data bytes = parse_lines (split_rune newline bytes)

  unfoldable pub replan : List ℕ → Result Error (List ℕ × List A)
  unfolding parse_data
  replan after = do (records, present) ← parse_data after; ok (after, records)

  -- planReceiptRecovery and planPetitionRecovery: the file's new contents, and their records.
  unfoldable pub plan : (List A → Bool) → List ℕ → Result Error (List ℕ × List A)
  unfolding parse_data replan
  plan continues bytes = do
    normalized ← read_recovery_data bytes pending_line
    (records, present) ← parse_data normalized
    refuse_if (not present && not (continues records)) not_continuing
    let after : List ℕ = if present then normalized else append_record normalized pending_line
    (all, found) ← parse_data after
    ok (after, all)

-- What applyRecoveryPlan leaves in a file that no one changed since it was read.
unfoldable pub apply_plan : Option (List ℕ) → List ℕ → Option (List ℕ)
apply_plan file after = if content file == after then file else some after

-- A receipt that the chain can go on with.
unfoldable pub continues_chain : Receipt → List Receipt → Bool
continues_chain r rs = elim (last? rs) [
  | none ↦ r.sequence_no == pos 0 && same_optional r.prev_receipt_id none
  | some l ↦
      r.sequence_no == int_succ l.sequence_no && same_optional r.prev_receipt_id (some l.receipt_id)
]

abbrev pub whatever : List Petition → Bool
whatever ps = true

module _ (c : Crypto) (w : Wire) (pair : Pair) where
  -- The keys that recovery trusts.
  unfoldable pub recovery_trust : Receipt → Trust
  recovery_trust r = elim (legacy_key_id c pair) [
    | err e ↦ (r.signing_key_id, pair) ∷ []
    | ok legacy ↦ insert legacy pair ((r.signing_key_id, pair) ∷ [])
  ]

  abbrev is_named : Result ueg.Keys.Error (Unit {0}) → Bool
  is_named (ok done) = true
  is_named (err e) = false

  -- What is asked of the pending record before the files are looked at.
  unfoldable pub check_pending : PendingPair → Result Error (Receipt × Petition)
  check_pending pending = do
    receipt ← map_err invalid_receipt (parse_receipt_strict w pending.receipt_line)
    refuse_if (not (same_optional (compute_id c receipt) (some receipt.receipt_id))) id_mismatch
    refuse_if
        (not (
          is_named (validate_key_id c pair receipt.signing_key_id true)
          && verify_b64 c pair (utf8 receipt.receipt_id) receipt.signature_b64))
        signature_invalid
    petition ← map_err invalid_petition (parse_petition w pending.petition_line)
    refuse_if (named_receipt petition != receipt.receipt_id) names_other_receipt
    refuse_if (not (verify_petitions c (receipt ∷ []) (petition ∷ [])).is_ok) not_bound
    ok (receipt, petition)

  unfoldable pub plan_receipts :
      PendingPair → Receipt → Files → Result Error (List ℕ × List Receipt)
  plan_receipts pending r d =
      plan (parse_receipt_strict w) (λ (x : Receipt). x.receipt_id) pending.receipt_line
        r.receipt_id (continues_chain r) (content d.receipts)

  unfoldable pub plan_petitions :
      PendingPair → Receipt → Files → Result Error (List ℕ × List Petition)
  plan_petitions pending r d =
      plan (parse_petition w) named_receipt pending.petition_line r.receipt_id whatever
        (content d.petitions)

  unfoldable pub recover_pair : PendingPair → Files → Result Error Files
  recover_pair pending d = do
    (receipt, petition) ← check_pending pending
    (receipts_after, rs) ← plan_receipts pending receipt d
    (petitions_after, ps) ← plan_petitions pending receipt d
    refuse_if (not (verify c rs (recovery_trust receipt)).is_ok)
        (chain_invalid (verify c rs (recovery_trust receipt)).findings)
    refuse_if (not (verify_petitions c rs ps).is_ok)
        (binding_invalid (verify_petitions c rs ps).findings)
    ok (record {
      receipts = apply_plan d.receipts receipts_after;
      petitions = apply_plan d.petitions petitions_after;
      pending = none;
      temp = none;
    })

  -- recoverPendingFiles.
  unfoldable pub recover_pending_files : Files → Result Error Files
  recover_pending_files d = elim d.pending [
    | none ↦ ok (record d { temp = none })
    | some raw ↦ do
      pending ← map_err invalid_record (unmarshal_by w.json w.read_pending raw)
      recover_pair pending d
  ]
