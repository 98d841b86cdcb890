-- ===== src/Identity/Artifacts/Agreed.antt =====
-- artifacts.go: what an imported checkpoint and a comparison of two histories are worth.
use ueg.Common.{
  ◌>>=◌, Result, ◌⊎◌, ◌≢◌, refl, map_err, map_err-eq-ok, ok-injective, sym, ℕ, zero, suc, ◌≡◌, ap,
  inl, inr, true, false, ◌||◌, List, [], ◌∷◌, Option, none, some, ok, refuse_if, >>=-eq-ok, ℤ,
  lt_int, Text, get_elem?, Bool-cases, int_eq_iff, text_eq_iff, text_Eq, int_Eq, ◌==◌, ◌!=◌, arith,
}
use ueg.Crypto.{Crypto}
use ueg.Strictjson.{Json}
use ueg.Identity.{LifecycleRecord, State}
use ueg.Identity.Artifacts.{
  LifecycleCheckpoint, ImportResult, Freshness, same, Error, other_identity, stored_invalid,
  digest_at, is_digest,
}
use ueg.Identity.Artifacts.Checkpoints.{
  freshness, parse_lifecycle_checkpoint, replace_checkpoint, import_result, import_checkpoint,
  compare_records, compare_lifecycle_states,
}

-- A checkpoint that may take the place of a stored one.
pub data Follows (k existing : LifecycleCheckpoint) : Option LifecycleCheckpoint → Type 0 where
  -- The same head: nothing is written.
  unchanged :
      k.checkpoint_sequence ≡ existing.checkpoint_sequence
      → k.checkpoint_digest ≡ existing.checkpoint_digest
      → Follows k existing none
  -- A longer history that holds the stored head at its place.
  extended :
      lt_int k.checkpoint_sequence existing.checkpoint_sequence ≡ false
      → digest_at k.lifecycle_records existing.checkpoint_sequence ≡ some existing.checkpoint_digest
      → Follows k existing (some k)

is_digest_lem : (o : Option Text) (d : Text) → is_digest o d ≡ true → o ≡ some d
is_digest_lem none d h = cc
is_digest_lem (some e) d h = ap some ((text_eq_iff e d).0 h)

module _ (c : Crypto) (j : Json) where
  same_head :
      (k existing : LifecycleCheckpoint) (res : ImportResult) (w : Option LifecycleCheckpoint)
      → replace_checkpoint c j k existing ≡ ok (res, w)
      → lt_int k.checkpoint_sequence existing.checkpoint_sequence ≡ false
      → (k.checkpoint_sequence == existing.checkpoint_sequence) ≡ true
      → (w ≡ none) × (k.checkpoint_digest ≡ existing.checkpoint_digest)
  unfolding replace_checkpoint
  same_head k existing res w h e q =
      ground (arith, h, e, q, text_eq_iff k.checkpoint_digest existing.checkpoint_digest)

  later_head :
      (k existing : LifecycleCheckpoint) (res : ImportResult) (w : Option LifecycleCheckpoint)
      → replace_checkpoint c j k existing ≡ ok (res, w)
      → lt_int k.checkpoint_sequence existing.checkpoint_sequence ≡ false
      → (k.checkpoint_sequence == existing.checkpoint_sequence) ≡ false
      → (w ≡ some k)
        × (is_digest
              (digest_at k.lifecycle_records existing.checkpoint_sequence)
              existing.checkpoint_digest
            ≡ true)
  unfolding replace_checkpoint
  later_head k existing res w h e q = ground (arith, h, e, q)

  replace_checkpoint-Follows :
      (k existing : LifecycleCheckpoint) (res : ImportResult) (w : Option LifecycleCheckpoint)
      → replace_checkpoint c j k existing ≡ ok (res, w)
      → Follows k existing w
  unfolding replace_checkpoint
  replace_checkpoint-Follows k existing res w h =
      elim (Bool-cases (lt_int k.checkpoint_sequence existing.checkpoint_sequence)) [
        | inl e ↦ absurd (ground (arith, h, e))
        | inr e ↦ elim (Bool-cases (k.checkpoint_sequence == existing.checkpoint_sequence)) [
          | inl q ↦
              let (nothing, d) = same_head k existing res w h e q in
              rw nothing
                (unchanged ((int_eq_iff k.checkpoint_sequence existing.checkpoint_sequence).0 q) d)
          | inr q ↦
              let (written, d) = later_head k existing res w h e q in
              rw written (
                extended e (
                  is_digest_lem (digest_at k.lifecycle_records existing.checkpoint_sequence)
                    existing.checkpoint_digest d))
        ]
      ]

  -- What an import may write, against what the store holds.
  abbrev pub IsImport :
      (List ℕ → Option LifecycleCheckpoint)
      → LifecycleCheckpoint
      → Option (List ℕ)
      → Option LifecycleCheckpoint
      → Type 0
  IsImport read k stored w =
      ((stored ≡ none) × (w ≡ some k))
      ⊎ ((old : List ℕ) × (existing : LifecycleCheckpoint) × (t : State) × (stored ≡ some old)
          × (parse_lifecycle_checkpoint c j read old ≡ ok (existing, t))
          × Follows k existing w)

  pinned_lem :
      (expected id : Text) {u : Unit {0}}
      → refuse_if (expected == [] || id != expected) other_identity ≡ ok u
      → expected ≢ []
  pinned_lem expected id h e = ground (arith, h, text_eq_iff expected [], e)

  import_lem :
      (read : List ℕ → Option LifecycleCheckpoint) (k : LifecycleCheckpoint)
      (stored : Option (List ℕ)) (res : ImportResult) (w : Option LifecycleCheckpoint)
      → ◌≡◌ {A = Result Error (ImportResult × Option LifecycleCheckpoint)}
          (elim stored [
            | none ↦ ok (import_result c j k none, some k)
            | some old ↦
                map_err stored_invalid (parse_lifecycle_checkpoint c j read old)
                >>= λ (p : LifecycleCheckpoint × State). replace_checkpoint c j k p.0
          ])
          (ok (res, w))
      → IsImport read k stored w
  import_lem read k none res w h =
      inl (refl, sym (ap (λ (p : ImportResult × Option LifecycleCheckpoint). p.1) (ok-injective h)))
  import_lem read k (some old) res w h =
      let ((existing, t), he, h1) =
        >>=-eq-ok (map_err stored_invalid (parse_lifecycle_checkpoint c j read old)) _ h in
      inr (
        old,
        existing,
        t,
        refl,
        map_err-eq-ok stored_invalid (parse_lifecycle_checkpoint c j read old) he,
        replace_checkpoint-Follows k existing res w h1,
      )

  -- A checkpoint is imported, the first one too, only if it parses and its identity is the pinned one,
  -- which is not empty. It is written where none is stored, and over a stored one only if it has
  -- the same head, or holds the stored head at its place in a history no shorter: neither a rollback
  -- nor a fork is ever written.
  pub import_checkpoint-Follows :
      (read : List ℕ → Option LifecycleCheckpoint) (raw : List ℕ) (expected : Text)
      (stored : Option (List ℕ)) (res : ImportResult) (w : Option LifecycleCheckpoint)
      → import_checkpoint c j read raw expected stored ≡ ok (res, w)
      → (k : LifecycleCheckpoint) × (s : State) × (parse_lifecycle_checkpoint c j read raw
          ≡ ok (k, s))
        × (expected ≢ [])
        × (k.identity_id ≡ expected)
        × IsImport read k stored w
  unfolding import_checkpoint
  import_checkpoint-Follows read raw expected stored res w h =
      let ((k, s), hk, h1) = >>=-eq-ok (parse_lifecycle_checkpoint c j read raw) _ h in
      let (u, hu, h2) =
        >>=-eq-ok (refuse_if (expected == [] || k.identity_id != expected) other_identity) _ h1 in
      (
        k,
        s,
        hk,
        λ e. pinned_lem expected k.identity_id hu e,
        ground (arith, hu, text_eq_iff k.identity_id expected),
        import_lem read k stored res w h2,
      )

compare_records-agree :
    (n : ℕ) (ls es : List LifecycleRecord)
    → compare_records n ls es ≡ ok tt
    → (i : ℕ) (a b : LifecycleRecord) → get_elem? ls i ≡ some a
    → get_elem? es i ≡ some b
    → a.record_digest ≡ b.record_digest
unfolding compare_records
compare_records-agree n [] es h i a b ha hb = cc
compare_records-agree n (l ∷ ls) [] h i a b ha hb = cc
compare_records-agree n (l ∷ ls) (e ∷ es) h zero a b ha hb =
    ground (arith, h, ha, hb, text_eq_iff l.record_digest e.record_digest)
compare_records-agree n (l ∷ ls) (e ∷ es) h (suc i) a b ha hb =
    let (u, hu, h1) =
      >>=-eq-ok (refuse_if (l.record_digest != e.record_digest) (ueg.Identity.Artifacts.fork_at n))
        _ h in
    compare_records-agree (suc n) ls es h1 i a b ha hb

freshness-same : (a b : ℤ) → freshness a b ≡ same → a ≡ b
freshness-same a b h = ground (arith, h)

-- Two states that CompareLifecycleStates compares belong to one identity and agree on every record
-- that both have; it answers MATCH only if they end at the same sequence number.
pub compare_lifecycle_states-agree :
    (local external : State) (f : Freshness)
    → compare_lifecycle_states local external ≡ ok f
    → (local.genesis.identity_id ≡ external.genesis.identity_id)
      × ((i : ℕ) (a b : LifecycleRecord)
          → get_elem? local.records i ≡ some a
          → get_elem? external.records i ≡ some b
          → a.record_digest ≡ b.record_digest)
      × (f ≡ same → local.last_sequence ≡ external.last_sequence)
unfolding compare_lifecycle_states
compare_lifecycle_states-agree local external f h =
    let (u, hu, h1) =
      >>=-eq-ok
        (refuse_if (local.genesis.identity_id != external.genesis.identity_id) other_identity) _
        h in
    let (v, hv, h2) = >>=-eq-ok (compare_records 0 local.records external.records) _ h1 in
    (
      ground (arith, hu, text_eq_iff local.genesis.identity_id external.genesis.identity_id),
      compare_records-agree 0 local.records external.records hv,
      λ e. freshness-same local.last_sequence external.last_sequence (ground (arith, h2, e)),
    )
