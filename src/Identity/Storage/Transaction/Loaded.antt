-- ===== src/Identity/Storage/Transaction/Loaded.antt =====
-- storage.go, LoadPublic: what a load that succeeds went through, and a load behind a change of the
-- lifecycle.
use ueg.Common.{
  map_err-eq-ok, ok-injective, ℕ, ◌*◌, ◌≡◌, refl, sym, ap, ◌∙◌, false, not, ◌||◌, List, some, ok,
  refuse_if, map_err, >>=-eq-ok, is_some, Text, ◌!=◌, int_Eq, text_Eq,
}
use ueg.Crypto.{Crypto}
use ueg.Strictjson.{unmarshal_by}
use ueg.Identity.{Genesis, LifecycleRecord, State}
use ueg.Identity.Records.{protocol_version_text}
use ueg.Identity.Lifecycle.{derive_state}
use ueg.Identity.Lifecycle.Kept.{derive_state-Kept}
use ueg.Identity.Storage.{
  Marker, AuthorityFiles, HomeWire, marker_invalid, genesis_invalid, other_marker, legacy_mismatch,
  lifecycle, guard_exists, marker_schema, read_bounded_regular, read_public, is_key_of,
  read_lifecycle, load_public,
}
use ueg.Identity.Storage.Transaction.{load_ignoring_pending}

module _ (c : Crypto) (w : HomeWire) (home : Text) where
  -- What a load that succeeds went through.
  record Loaded (a : AuthorityFiles) (s : State) : Type 0 where
    no_guard : refuse_if (is_some a.read_guard) guard_exists ≡ ok tt
    marker_raw : List ℕ
    marker_file : read_bounded_regular (64 * 1024) a.marker ≡ ok marker_raw
    marker : Marker
    marker_read :
        map_err (λ _. marker_invalid) (unmarshal_by w.json w.read_marker marker_raw) ≡ ok marker
    marker_version :
        refuse_if
          (marker.schema != marker_schema || marker.protocol_version != protocol_version_text)
          marker_invalid
        ≡ ok tt
    genesis_raw : List ℕ
    genesis_file : read_bounded_regular (1024 * 1024) a.genesis ≡ ok genesis_raw
    root : Genesis
    genesis_read :
        map_err (λ _. genesis_invalid) (unmarshal_by w.json w.read_genesis genesis_raw) ≡ ok root
    records : List LifecycleRecord
    records_read : read_lifecycle c w a.lifecycle ≡ ok records
    derived : State
    derives : map_err lifecycle (derive_state c home root records) ≡ ok derived
    marker_names : refuse_if (marker.identity_id != root.identity_id) other_marker ≡ ok tt
    legacy_names :
        refuse_if
          (not (is_key_of c w (read_public c w a.legacy_public) root.epoch_zero_key_id))
          legacy_mismatch
        ≡ ok tt
    result : s ≡ record derived { pending_mutation = false }

  to-Loaded :
      (a : AuthorityFiles) (s : State) → load_ignoring_pending c w home a ≡ ok s → Loaded a s
  unfolding load_ignoring_pending load_public
  to-Loaded a s h =
      let (u0, h0, i0) = >>=-eq-ok (refuse_if (is_some a.read_guard) guard_exists) _ h in
      let (v, h1, i1) = >>=-eq-ok (load_public c w home a) _ i0 in
      let (mr, h2, i2) = >>=-eq-ok (read_bounded_regular (64 * 1024) a.marker) _ h1 in
      let (m, h3, i3) =
        >>=-eq-ok (map_err (λ _. marker_invalid) (unmarshal_by w.json w.read_marker mr)) _ i2 in
      let (u4, h4, i4) =
        >>=-eq-ok
          (refuse_if (m.schema != marker_schema || m.protocol_version != protocol_version_text)
            marker_invalid)
          _ i3 in
      let (gr, h5, i5) = >>=-eq-ok (read_bounded_regular (1024 * 1024) a.genesis) _ i4 in
      let (g, h6, i6) =
        >>=-eq-ok (map_err (λ _. genesis_invalid) (unmarshal_by w.json w.read_genesis gr)) _ i5 in
      let (old, h7, i7) = >>=-eq-ok (read_lifecycle c w a.lifecycle) _ i6 in
      let (t, h8, i8) = >>=-eq-ok (map_err lifecycle (derive_state c home g old)) _ i7 in
      let (u9, h9, i9) = >>=-eq-ok (refuse_if (m.identity_id != g.identity_id) other_marker) _ i8 in
      let (ua, ha, ia) =
        >>=-eq-ok
          (refuse_if (not (is_key_of c w (read_public c w a.legacy_public) g.epoch_zero_key_id))
            legacy_mismatch)
          _ i9 in
      record {
        no_guard = h0;
        marker_raw = mr;
        marker_file = h2;
        marker = m;
        marker_read = h3;
        marker_version = h4;
        genesis_raw = gr;
        genesis_file = h5;
        root = g;
        genesis_read = h6;
        records = old;
        records_read = h7;
        derived = t;
        derives = h8;
        marker_names = h9;
        legacy_names = ha;
        result =
            sym (ok-injective i1)
            ∙ ap (λ (z : State). record z { pending_mutation = false }) (sym (ok-injective ia));
      }

  from-Loaded :
      (a : AuthorityFiles) (s : State) → Loaded a s → load_ignoring_pending c w home a ≡ ok s
  unfolding load_ignoring_pending load_public
  from-Loaded a s l = simp (
    l.no_guard, l.marker_file, l.marker_read, l.marker_version, l.genesis_file, l.genesis_read,
    l.records_read, l.derives, l.marker_names, l.legacy_names, l.result,
  )

  pub load_ignoring_pending-again :
      (a : AuthorityFiles) (s s' : State) (after : List ℕ) (rs : List LifecycleRecord)
      → load_ignoring_pending c w home a ≡ ok s
      → read_lifecycle c w (some after) ≡ ok rs
      → derive_state c home s.genesis rs ≡ ok s'
      → load_ignoring_pending c w home (record a { lifecycle = some after })
        ≡ ok (record s' { pending_mutation = false })
  load_ignoring_pending-again a s s' after rs h hl hd =
      let l = to-Loaded a s h in
      let kept =
        derive_state-Kept c home l.root l.records l.derived (map_err-eq-ok _ _ l.derives) in
      let same : s.genesis ≡ l.root = ap (λ (z : State). z.genesis) l.result ∙ kept.0 in
      from-Loaded (record a { lifecycle = some after }) (record s' { pending_mutation = false })
        (record {
          no_guard = l.no_guard;
          marker_raw = l.marker_raw;
          marker_file = l.marker_file;
          marker = l.marker;
          marker_read = l.marker_read;
          marker_version = l.marker_version;
          genesis_raw = l.genesis_raw;
          genesis_file = l.genesis_file;
          root = l.root;
          genesis_read = l.genesis_read;
          records = rs;
          records_read = hl;
          derived = s';
          derives =
              ap (map_err lifecycle)
                (ap (λ (q : Genesis). derive_state c home q rs) (sym same) ∙ hd);
          marker_names = l.marker_names;
          legacy_names = l.legacy_names;
          result = refl;
        })
