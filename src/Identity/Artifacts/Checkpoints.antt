-- ===== src/Identity/Artifacts/Checkpoints.antt =====
-- artifacts.go: what is parsed from outside, the import of a checkpoint into the trust store, and the
-- comparison of two histories.
use ueg.Common.{
  ℕ, suc, not, ◌||◌, List, [], ◌∷◌, Option, none, some, Result, ok, err, ◌>>=◌, ◌>>◌, refuse_if,
  or_fail, map_err, ℤ, pos, lt_int, int_succ, ◌*◌, Text, utf8_decode, split_rune, trim_space,
  is_hex64, length, ltb, ◌==◌, ◌!=◌, int_Eq, text_Eq, if◌then◌else◌,
}
use ueg.Crypto.{Crypto}
use ueg.Strictjson.{Json, unmarshal_by}
use ueg.Identity.{LifecycleRecord, State, status_Eq}
use ueg.Identity.Records.{protocol_version_text, is_identity_id}
use ueg.Identity.Lifecycle.{validate_genesis, derive_state}
use ueg.Identity.Artifacts.{
  IdentityCard, EvidenceAnchor, LifecycleCheckpoint, ImportResult, Error, Freshness, local_stale,
  external_stale, same, card_schema, checkpoint_schema, digest_at, is_digest, card_fields, too_long,
  checkpoint_fields, not_the_head, line_too_long, too_many_records, no_records, other_identity,
  rollback, conflict, fork, pin_required, not_stored, fork_at, invalid_json, lifecycle,
  stored_invalid,
}

module _ (c : Crypto) (j : Json) where
  unfoldable pub parse_identity_card :
      (List ℕ → Option IdentityCard) → List ℕ → Result Error IdentityCard
  parse_identity_card read raw = do
    card ← map_err invalid_json (unmarshal_by j read raw)
    refuse_if (card.schema != card_schema || card.protocol_version != protocol_version_text)
        card_fields
    g ← or_fail card.genesis card_fields
    refuse_if (card.identity_id != g.identity_id || card.advisory_label != g.advisory_label)
        card_fields
    (recovery, epoch_zero) ← map_err lifecycle (validate_genesis c g)
    ok card

  unfoldable pub parse_lifecycle_checkpoint :
      (List ℕ → Option LifecycleCheckpoint) → List ℕ → Result Error (LifecycleCheckpoint × State)
  parse_lifecycle_checkpoint read raw = do
    refuse_if (ltb (12 * 1024 * 1024) (length raw)) too_long
    k ← map_err invalid_json (unmarshal_by j read raw)
    refuse_if (k.schema != checkpoint_schema || k.protocol_version != protocol_version_text)
        checkpoint_fields
    g ← or_fail k.genesis checkpoint_fields
    refuse_if
        (k.identity_id != g.identity_id
          || lt_int k.checkpoint_sequence (pos 0)
          || not (is_hex64 k.checkpoint_digest)
          || int_succ k.checkpoint_sequence != pos (length k.lifecycle_records))
        checkpoint_fields
    s ← map_err lifecycle (derive_state c [] g k.lifecycle_records)
    refuse_if
        (s.last_sequence != k.checkpoint_sequence || s.last_record_digest != k.checkpoint_digest)
        not_the_head
    ok (k, s)

  unfoldable pub parse_evidence_anchor :
      (List ℕ → Option EvidenceAnchor) → List ℕ → Result Error EvidenceAnchor
  parse_evidence_anchor read raw = map_err invalid_json (unmarshal_by j read raw)

  -- The file of the identity in the store, if there is one.
  unfoldable pub load_stored_checkpoint :
      (List ℕ → Option LifecycleCheckpoint)
      → Text
      → Option (List ℕ)
      → Result Error (LifecycleCheckpoint × State)
  load_stored_checkpoint read id stored = do
    refuse_if (not (is_identity_id id)) pin_required
    raw ← or_fail stored not_stored
    parse_lifecycle_checkpoint read raw

  abbrev pub import_result : LifecycleCheckpoint → Option ℤ → ImportResult
  import_result k replaced = record {
    identity_id = k.identity_id;
    sequence = k.checkpoint_sequence;
    digest = k.checkpoint_digest;
    replaced_sequence = replaced;
  }

  -- A checkpoint against the stored one.
  unfoldable pub replace_checkpoint :
      LifecycleCheckpoint
      → LifecycleCheckpoint
      → Result Error (ImportResult × Option LifecycleCheckpoint)
  replace_checkpoint k existing =
      if lt_int k.checkpoint_sequence existing.checkpoint_sequence
      then err rollback
      else if k.checkpoint_sequence == existing.checkpoint_sequence
      then (do
        refuse_if (k.checkpoint_digest != existing.checkpoint_digest) conflict
        ok (import_result k (some existing.checkpoint_sequence), none))
      else (do
        refuse_if
            (not (
              is_digest (digest_at k.lifecycle_records existing.checkpoint_sequence)
                existing.checkpoint_digest))
            fork
        ok (import_result k (some existing.checkpoint_sequence), some k))

  -- ImportCheckpoint against the file that the store has of the identity; the answer is what is
  -- written there, if anything.
  unfoldable pub import_checkpoint :
      (List ℕ → Option LifecycleCheckpoint)
      → List ℕ
      → Text
      → Option (List ℕ)
      → Result Error (ImportResult × Option LifecycleCheckpoint)
  import_checkpoint read raw expected stored = do
    (k, s) ← parse_lifecycle_checkpoint read raw
    refuse_if (expected == [] || k.identity_id != expected) other_identity
    elim stored [
      | none ↦ ok (import_result k none, some k)
      | some old ↦ do
        (existing, t) ← map_err stored_invalid (parse_lifecycle_checkpoint read old)
        replace_checkpoint k existing
    ]

-- The lines of a chain of records; `n` is the number of the line, `count` the records before it.
module _ (j : Json) (read : List ℕ → Option LifecycleRecord) where
  unfoldable pub parse_record_lines : ℕ → ℕ → List (List ℕ) → Result Error (List LifecycleRecord)
  parse_record_lines n count [] = ok []
  parse_record_lines n count (line ∷ lines) =
      let blank : Result Error (List LifecycleRecord) = parse_record_lines (suc n) count lines in
      if trim_space (utf8_decode line) == [] then blank else do
        refuse_if (ltb (1024 * 1024) (length line)) (line_too_long n)
        r ← map_err invalid_json (unmarshal_by j read line)
        refuse_if (ltb 10000 (suc count)) too_many_records
        rs ← parse_record_lines (suc n) (suc count) lines
        ok (r ∷ rs)

  abbrev some_records : List LifecycleRecord → Result Error (List LifecycleRecord)
  some_records [] = err no_records
  some_records (r ∷ rs) = ok (r ∷ rs)

  unfoldable pub parse_lifecycle_ndjson : List ℕ → Result Error (List LifecycleRecord)
  parse_lifecycle_ndjson raw = do
    refuse_if (ltb (10 * 1024 * 1024) (length raw)) too_long
    rs ← parse_record_lines 1 0 (split_rune 10 raw)
    some_records rs

-- The loop of CompareLifecycleStates over the records that both have.
unfoldable pub compare_records :
    ℕ → List LifecycleRecord → List LifecycleRecord → Result Error (Unit {0})
compare_records n [] es = ok tt
compare_records n (l ∷ ls) [] = ok tt
compare_records n (l ∷ ls) (e ∷ es) = do
  refuse_if (l.record_digest != e.record_digest) (fork_at n)
  compare_records (suc n) ls es

abbrev pub freshness : ℤ → ℤ → Freshness
freshness local external =
    if lt_int local external
    then local_stale
    else if lt_int external local
    then external_stale
    else same

unfoldable pub compare_lifecycle_states : State → State → Result Error Freshness
compare_lifecycle_states local external = do
  refuse_if (local.genesis.identity_id != external.genesis.identity_id) other_identity
  compare_records 0 local.records external.records
  ok (freshness local.last_sequence external.last_sequence)
