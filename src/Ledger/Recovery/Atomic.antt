-- ===== src/Ledger/Recovery/Atomic.antt =====
-- transaction.go: the write of a receipt and its request, interrupted anywhere, and then recovered.
use mathlib.Core.List.{append-nil}
use ueg.Common.{
  ℕ, zero, suc, ◌≡◌, refl, sym, ap, ◌∙◌, inl, inr, true, false, List, [], ◌∷◌, ◌++◌, Option, none,
  some, ok, take, All, Option-cases, text_eq_iff, text_Eq, if◌then◌else◌, ltb, length, arith,
}
use ueg.Crypto.{Crypto}
use ueg.Keys.{Pair}
use ueg.Strictjson.{unmarshal_by}
use ueg.Ledger.{Receipt, Petition, verify}
use ueg.Ledger.Petitions.{named_receipt, verify_petitions}
use ueg.Ledger.Parse.{Wire, PendingPair, parse_receipt_strict, parse_petition}
use ueg.Ledger.Recovery.{
  Files, Step, newline, content, journal, start_journal, interrupt, is_blank, parse_lines,
  apply_plan, continues_chain, whatever, recovery_trust, check_pending, plan_receipts,
  plan_petitions, recover_pair, recover_pending_files,
}
use ueg.Ledger.Recovery.Lines.{render, render-snoc, IsLine}
use ueg.Ledger.Recovery.Planned.{plan-take}

-- A pair of lines that the files can go on with: the checks of the pending record pass, no line of
-- the files has the new id, and with the new lines the chain and the requests verify.
pub record IsNext (c : Crypto) (w : Wire) (pair : Pair) (pending : PendingPair)
    (receipt_lines petition_lines : List (List ℕ)) : Type 0 where
  pub receipt : Receipt
  pub petition : Petition
  pub receipts : List Receipt
  pub petitions : List Petition
  pub receipt_parsed : parse_receipt_strict w pending.receipt_line ≡ ok receipt
  pub petition_parsed : parse_petition w pending.petition_line ≡ ok petition
  pub checked : check_pending c w pair pending ≡ ok (receipt, petition)
  pub same_id : named_receipt petition ≡ receipt.receipt_id
  pub receipts_are_lines : All IsLine receipt_lines
  pub petitions_are_lines : All IsLine petition_lines
  pub receipt_is_line : IsLine pending.receipt_line
  pub petition_is_line : IsLine pending.petition_line
  pub receipt_not_blank : is_blank pending.receipt_line ≡ false
  pub petition_not_blank : is_blank pending.petition_line ≡ false
  pub receipts_parsed :
      parse_lines
        (parse_receipt_strict w)
        (λ (x : Receipt). x.receipt_id)
        pending.receipt_line
        receipt.receipt_id
        receipt_lines
      ≡ ok (receipts, false)
  pub petitions_parsed :
      parse_lines
        (parse_petition w)
        named_receipt
        pending.petition_line
        receipt.receipt_id
        petition_lines
      ≡ ok (petitions, false)
  pub continuing : continues_chain receipt receipts ≡ true
  pub verified :
      (verify c (receipts ++ receipt ∷ []) (recovery_trust c w pair receipt)).is_ok ≡ true
  pub bound :
      (verify_petitions c (receipts ++ receipt ∷ []) (petitions ++ petition ∷ [])).is_ok ≡ true

-- The files with both lines.
abbrev pub completed : List (List ℕ) → List (List ℕ) → PendingPair → Files
completed receipt_lines petition_lines pending = record {
  receipts = some (render (receipt_lines ++ pending.receipt_line ∷ []));
  petitions = some (render (petition_lines ++ pending.petition_line ∷ []));
  pending = none;
  temp = none;
}

line_some : (l m : List ℕ) → (b : ℕ) × (bytes : List ℕ) × (l ++ newline ∷ m ≡ b ∷ bytes)
line_some [] m = (newline, m, refl)
line_some (a ∷ l) m = (a, l ++ newline ∷ m, refl)

render_some :
    (ls : List (List ℕ)) (line : List ℕ)
    → (b : ℕ) × (bytes : List ℕ) × (render (ls ++ line ∷ []) ≡ b ∷ bytes)
render_some [] line = line_some line []
render_some (l ∷ ls) line = line_some l (render (ls ++ line ∷ []))

apply_plan-some :
    (file : Option (List ℕ)) (b : ℕ) (bytes : List ℕ)
    → apply_plan file (b ∷ bytes) ≡ some (b ∷ bytes)
unfolding apply_plan
apply_plan-some none b bytes = ground (arith, text_eq_iff [] (b ∷ bytes), differ)
  where
    differ : [] ≡ b ∷ bytes → ⊥
    differ e = cc
apply_plan-some (some old) b bytes = ground (arith, text_eq_iff old (b ∷ bytes))

take-length : (l : List ℕ) → take (length l) l ≡ l
take-length [] = refl
take-length (a ∷ l) = ap (λ x. a ∷ x) (take-length l)

apply_plan-line :
    (file : Option (List ℕ)) (ls : List (List ℕ)) (line : List ℕ)
    → apply_plan file (render (ls ++ line ∷ [])) ≡ some (render (ls ++ line ∷ []))
apply_plan-line file ls line =
    let (b, bytes, e) = render_some ls line in rw e (apply_plan-some file b bytes)

module _ (c : Crypto) (w : Wire) (pair : Pair) (pending : PendingPair)
    (receipt_lines petition_lines : List (List ℕ))
    (next : IsNext c w pair pending receipt_lines petition_lines) where
  -- However much of each line is in its file, recovery completes both.
  recover_pair-completed :
      (d : Files) (k m : ℕ)
      → content d.receipts ≡ render receipt_lines ++ take k (pending.receipt_line ++ newline ∷ [])
      → content d.petitions
        ≡ render petition_lines ++ take m (pending.petition_line ++ newline ∷ [])
      → recover_pair c w pair pending d ≡ ok (completed receipt_lines petition_lines pending)
  unfolding recover_pair plan_receipts plan_petitions
  recover_pair-completed d k m hr hp =
      rw
        (
          next.checked,
          hr,
          hp,
          plan-take (parse_receipt_strict w) (λ (x : Receipt). x.receipt_id) pending.receipt_line
              next.receipt.receipt_id receipt_lines next.receipts next.receipt
              next.receipts_are_lines next.receipt_is_line next.receipt_not_blank
              next.receipts_parsed next.receipt_parsed refl (continues_chain next.receipt) k
              next.continuing,
          plan-take (parse_petition w) named_receipt pending.petition_line next.receipt.receipt_id
              petition_lines next.petitions next.petition next.petitions_are_lines
              next.petition_is_line next.petition_not_blank next.petitions_parsed
              next.petition_parsed next.same_id whatever m refl,
          next.verified,
          next.bound,
          apply_plan-line d.receipts receipt_lines pending.receipt_line,
          apply_plan-line d.petitions petition_lines pending.petition_line,
        )
        refl

  module _ (raw : List ℕ) (d : Files) (idle : d.pending ≡ none)
      (read : unmarshal_by w.json w.read_pending (raw ++ newline ∷ []) ≡ ok pending)
      (old_receipts : content d.receipts ≡ render receipt_lines)
      (old_petitions : content d.petitions ≡ render petition_lines) where
    abbrev receipt_end : List ℕ
    receipt_end = pending.receipt_line ++ newline ∷ []

    abbrev petition_end : List ℕ
    petition_end = pending.petition_line ++ newline ∷ []

    idle_lem :
        (x : Files)
        → x.pending ≡ none
        → recover_pending_files c w pair x ≡ ok (record x { temp = none })
    unfolding recover_pending_files
    idle_lem x h = rw h refl

    from_pending :
        (x : Files) (k m : ℕ)
        → x.pending ≡ some (raw ++ newline ∷ [])
        → content x.receipts ≡ render receipt_lines ++ take k receipt_end
        → content x.petitions ≡ render petition_lines ++ take m petition_end
        → recover_pending_files c w pair x ≡ ok (completed receipt_lines petition_lines pending)
    unfolding recover_pending_files recover_pair plan_receipts plan_petitions
    from_pending x k m h hr hp = rw (h, read) (recover_pair-completed x k m hr hp)

    written : {b l : List ℕ} (m : List ℕ) → b ≡ l → b ++ m ≡ l ++ m
    written m e = ap (λ x. x ++ m) e

    whole : {b l : List ℕ} (m : List ℕ) → b ≡ l → b ++ m ≡ l ++ take (length m) m
    whole {b} {l} m e = rw (take-length m) (ap (λ x. x ++ m) e)

    late : (n : ℕ) → ltb (suc (suc (suc (suc (suc (suc (suc n))))))) 3 ≡ false
    late n = ground arith

    abbrev all_written : Files
    all_written = record {
      receipts = some (content d.receipts ++ receipt_end);
      petitions = some (content d.petitions ++ petition_end);
      pending = none;
      temp = none;
    }

    both : all_written ≡ completed receipt_lines petition_lines pending
    both =
        rw
          (
            old_receipts,
            old_petitions,
            render-snoc receipt_lines pending.receipt_line,
            render-snoc petition_lines pending.petition_line,
          )
          refl

    journal_recovered :
        (n k : ℕ)
        → recover_pending_files c w pair (interrupt n k (journal raw pending) d)
          ≡ ok (
              if ltb n 3
              then record d { temp = none }
              else completed receipt_lines petition_lines pending)
    unfolding recover_pending_files interrupt journal ueg.Ledger.Recovery.begin_pending
        ueg.Ledger.Recovery.clear_pending ueg.Ledger.Recovery.apply ueg.Ledger.Recovery.stop_in
    journal_recovered zero k = idle_lem d idle
    journal_recovered (suc zero) k =
        idle_lem (record d { temp = some (take k (raw ++ newline ∷ [])) }) idle
    journal_recovered (suc (suc zero)) k =
        idle_lem (record d { temp = some (raw ++ newline ∷ []) }) idle
    journal_recovered (suc (suc (suc zero))) k =
        from_pending _ k 0 refl (written (take k receipt_end) old_receipts)
          (old_petitions ∙ sym (append-nil (render petition_lines)))
    journal_recovered (suc (suc (suc (suc zero)))) k =
        from_pending _ (length receipt_end) k refl (whole receipt_end old_receipts)
          (written (take k petition_end) old_petitions)
    journal_recovered (suc (suc (suc (suc (suc zero))))) k =
        from_pending _ (length receipt_end) (length petition_end) refl
          (whole receipt_end old_receipts) (whole petition_end old_petitions)
    journal_recovered (suc (suc (suc (suc (suc (suc zero)))))) k =
        idle_lem all_written refl ∙ ap (λ (x : Files). ok x) both
    journal_recovered (suc (suc (suc (suc (suc (suc (suc n))))))) k =
        rw (late n) (idle_lem all_written refl ∙ ap (λ (x : Files). ok x) both)

  start_journal_lem :
      (raw : List ℕ) (d : Files) (steps : List Step)
      → start_journal raw pending d ≡ ok steps
      → (d.pending ≡ none) × (journal raw pending ≡ steps)
  unfolding start_journal
  start_journal_lem raw d steps h = elim (Option-cases d.pending) [
    | inl e ↦ (e, ground (arith, h, e))
    | inr (x, e) ↦ absurd (ground (arith, h, e))
  ]

  -- Take files of lines that parse, and a pair of lines that is the next one for them: its own checks
  -- pass, no line of the files has its id, and the chain with it verifies under the keys that recovery
  -- trusts, which are the forms of one key's id (so in no home whose older receipts another key
  -- signed); and a pending record that reads back as it was written. Behind an interruption anywhere
  -- in the write of the pair, recovery leaves the files as they were, if the pending record was not
  -- yet in place, and otherwise with both lines and no pending record.
  pub interrupt-recovered :
      (raw : List ℕ) (d : Files) (steps : List Step)
      → start_journal raw pending d ≡ ok steps
      → unmarshal_by w.json w.read_pending (raw ++ newline ∷ []) ≡ ok pending
      → content d.receipts ≡ render receipt_lines
      → content d.petitions ≡ render petition_lines
      → (n k : ℕ)
      → recover_pending_files c w pair (interrupt n k steps d)
        ≡ ok (
            if ltb n 3
            then record d { temp = none }
            else completed receipt_lines petition_lines pending)
  interrupt-recovered raw d steps started read old_receipts old_petitions n k =
      let (idle, same) = start_journal_lem raw d steps started in
      ap (λ s. recover_pending_files c w pair (interrupt n k s d)) (sym same)
      ∙ journal_recovered raw d idle read old_receipts old_petitions n k
