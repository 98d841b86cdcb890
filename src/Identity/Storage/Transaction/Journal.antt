-- ===== src/Identity/Storage/Transaction/Journal.antt =====
-- transaction.go, RecoverPendingMutation: the journal of a mutation, read again after its record has
-- been written to the lifecycle.
use mathlib.Core.Path.{subst}
use ueg.Common.{
  map_err-eq-ok, ok-injective, ℕ, ◌*◌, ◌≡◌, refl, sym, ap, ◌∙◌, Bool, true, false, not, ◌&&◌, ◌||◌,
  List, [], ◌∷◌, ◌++◌, some, ok, refuse_if, map_err, >>=-eq-ok, Text, ◌!=◌, int_Eq, int_eq_iff,
  text_Eq, text_eq_iff, arith,
}
use ueg.Crypto.{Crypto}
use ueg.Strictjson.{unmarshal_by}
use ueg.Canon.{sha256_hex}
use ueg.Identity.{Genesis, LifecycleRecord, State}
use ueg.Identity.Lifecycle.{derive_state}
use ueg.Identity.Lifecycle.Kept.{derive_state-Kept, derive_state-last}
use ueg.Identity.Storage.{
  AuthorityFiles, HomeWire, Error, journal_invalid, other_identity, changed_outside, hash_mismatch,
  transition, read_bounded_regular, read_lifecycle, marshal_lifecycle,
}
use ueg.Identity.Storage.Transaction.{
  Checked, check_fields, is_applied, candidate_records, load_ignoring_pending, check_journal,
}
use ueg.Identity.Storage.Transaction.Loaded.{load_ignoring_pending-again}

module _ (c : Crypto) (w : HomeWire) (home : Text) where
  -- What a check of the journal that succeeds went through.
  record Journal (a : AuthorityFiles) (file : List ℕ) (k : Checked) : Type 0 where
    raw : List ℕ
    bounded : read_bounded_regular (2 * 1024 * 1024) (some file) ≡ ok raw
    parsed :
        map_err (λ _. journal_invalid) (unmarshal_by w.json w.read_pending raw) ≡ ok k.transaction
    fields : check_fields k.transaction ≡ ok k.new_record
    loaded : State
    loads : load_ignoring_pending c w home a ≡ ok loaded
    names :
        refuse_if (loaded.genesis.identity_id != k.transaction.identity_id) other_identity ≡ ok tt
    unchanged :
        refuse_if
          (not k.applied
            && (loaded.last_sequence != k.transaction.base_sequence
                || loaded.last_record_digest != k.transaction.base_record_digest))
          changed_outside
        ≡ ok tt
    records_same : k.records ≡ candidate_records loaded k.new_record k.applied
    derives : map_err transition (derive_state c home loaded.genesis k.records) ≡ ok k.candidate
    hashes :
        refuse_if
          (sha256_hex c (marshal_lifecycle c w k.records) != k.transaction.lifecycle_after_sha256)
          hash_mismatch
        ≡ ok tt
    after_same : k.after ≡ marshal_lifecycle c w k.records
    applied_same : k.applied ≡ is_applied loaded k.new_record

  to-Journal :
      (a : AuthorityFiles) (file : List ℕ) (k : Checked)
      → check_journal c w home a file ≡ ok k
      → Journal a file k
  unfolding check_journal
  to-Journal a file k h =
      let (raw, h0, i0) = >>=-eq-ok (read_bounded_regular (2 * 1024 * 1024) (some file)) _ h in
      let (p, h1, i1) =
        >>=-eq-ok (map_err (λ _. journal_invalid) (unmarshal_by w.json w.read_pending raw)) _ i0 in
      let (r, h2, i2) = >>=-eq-ok (check_fields p) _ i1 in
      let (s, h3, i3) = >>=-eq-ok (load_ignoring_pending c w home a) _ i2 in
      let (u4, h4, i4) =
        >>=-eq-ok (refuse_if (s.genesis.identity_id != p.identity_id) other_identity) _ i3 in
      let (u5, h5, i5) =
        >>=-eq-ok
          (refuse_if
            (not (is_applied s r)
              && (s.last_sequence != p.base_sequence
                  || s.last_record_digest != p.base_record_digest))
            changed_outside)
          _ i4 in
      let rs = candidate_records s r (is_applied s r) in
      let (n, h6, i6) = >>=-eq-ok (map_err transition (derive_state c home s.genesis rs)) _ i5 in
      let (u7, h7, i7) =
        >>=-eq-ok
          (refuse_if (sha256_hex c (marshal_lifecycle c w rs) != p.lifecycle_after_sha256)
            hash_mismatch)
          _ i6 in
      subst (Journal a file) (ok-injective i7) (record {
        raw = raw;
        bounded = h0;
        parsed = h1;
        fields = h2;
        loaded = s;
        loads = h3;
        names = h4;
        unchanged = h5;
        records_same = refl;
        derives = h6;
        hashes = h7;
        after_same = refl;
        applied_same = refl;
      })

  from-Journal :
      (a : AuthorityFiles) (file : List ℕ) (k : Checked)
      → Journal a file k
      → check_journal c w home a file ≡ ok k
  unfolding check_journal
  from-Journal a file k j = simp (
    j.bounded,
    j.parsed,
    j.fields,
    j.loads,
    j.names,
    ← j.applied_same,
    j.unchanged,
    ← j.records_same,
    j.derives,
    j.hashes,
    ← j.after_same,
  )

  -- The record of the journal is the last one of the lifecycle that it writes.
  is_applied-last :
      (rs : List LifecycleRecord) (r : LifecycleRecord) (s : State) (g : Genesis)
      → derive_state c home g (rs ++ r ∷ []) ≡ ok s
      → is_applied (record s { pending_mutation = false }) r ≡ true
  unfolding is_applied
  is_applied-last rs r s g h =
      let (a, b) = derive_state-last c home g rs r s h in
      ground (
        arith,
        a,
        b,
        int_eq_iff s.last_sequence r.lifecycle_sequence,
        text_eq_iff s.last_record_digest r.record_digest,
      )

  pub check_journal-again :
      (a : AuthorityFiles) (file : List ℕ) (k : Checked)
      → check_journal c w home a file ≡ ok k
      → k.applied ≡ false
      → read_lifecycle c w (some k.after) ≡ ok k.records
      → check_journal c w home (record a { lifecycle = some k.after }) file
        ≡ ok (record k { applied = true })
  check_journal-again a file k h new read =
      let j = to-Journal a file k h in
      let hd = map_err-eq-ok _ _ j.derives in
      let kept = derive_state-Kept c home j.loaded.genesis k.records k.candidate hd in
      let now : State = record k.candidate { pending_mutation = false } in
      let appended : k.records ≡ j.loaded.records ++ k.new_record ∷ [] =
        j.records_same
        ∙ (unfold candidate_records in
            ap (λ (b : Bool). candidate_records j.loaded k.new_record b) new) in
      let applied : is_applied now k.new_record ≡ true =
        is_applied-last j.loaded.records k.new_record k.candidate j.loaded.genesis
          (ap (derive_state c home j.loaded.genesis) (sym appended) ∙ hd) in
      from-Journal (record a { lifecycle = some k.after }) file (record k { applied = true })
        (record {
          raw = j.raw;
          bounded = j.bounded;
          parsed = j.parsed;
          fields = j.fields;
          loaded = now;
          loads =
              load_ignoring_pending-again c w home a j.loaded k.candidate k.after k.records j.loads
                read hd;
          names =
              ap
                (λ (g : Genesis).
                  refuse_if {E = Error} (g.identity_id != k.transaction.identity_id) other_identity)
                kept.0
              ∙ j.names;
          unchanged = refl;
          records_same = unfold candidate_records in sym kept.1;
          derives =
              ap (λ (g : Genesis). map_err transition (derive_state c home g k.records)) kept.0
              ∙ j.derives;
          hashes = j.hashes;
          after_same = j.after_same;
          applied_same = sym applied;
        })
