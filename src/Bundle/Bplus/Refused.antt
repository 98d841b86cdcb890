-- ===== src/Bundle/Bplus/Refused.antt =====
-- verify_bplus.go and bplus.go: the parts of the check before the last verdict return nothing that is
-- VERIFIED.
use ueg.Common.{
  ◌≢◌, ◌||◌, lt_int, Bool, true, false, not, ◌&&◌, [], ◌∷◌, Result, ok, err, ◌>>=◌, refuse_if, map,
  ◌!=◌, text_Eq, if◌then◌else◌,
}
use ueg.Crypto.{Crypto}
use ueg.Identity.{State, active_of}
use ueg.Identity.Lifecycle.{derive_state}
use ueg.Identity.Artifacts.{
  EvidenceAnchor, LifecycleCheckpoint, validate_evidence_anchor, digest_at, is_digest,
}
use ueg.Identity.Artifacts.Checkpoints.{
  parse_identity_card, parse_lifecycle_checkpoint, parse_evidence_anchor, parse_lifecycle_ndjson,
}
use ueg.Strictjson.{unmarshal_by}
use ueg.Ledger.{Receipt, Trust}
use ueg.Bundle.{
  Members, Options, Outside, BundleWire, ManifestDocument, BundleResult, Reason, Code, Overall,
  Mark, member,
}
use ueg.Bundle.Trust.{
  revocations_name, parse_revocations, load_trust_roots, exact_lifecycle_trust,
  canonical_signer_ids,
}
use ueg.Bundle.Seals.{parse_receipts, parse_petitions, verify_bundle_seal, verify_receipt_seal}
use ueg.Bundle.Authority.{
  new_bplus_result, coded, fail_bplus, parse_bplus_authority, not_trusted_bplus,
}
use ueg.Bundle.Checkpoint.{
  check_descends, supplied_checkpoint, retained_checkpoint, from_outside, select_checkpoint,
}
use ueg.Bundle.Bplus.{
  is_active_key, binds_head, check_roots, check_evidence, check_bundle, keep, some_ids,
}
use ueg.Bundle.Bplus.Early.{
  Refuses, passes, refuses, map_err-Refuses, refuse_if-Refuses, >>=-Refuses,
}

coded-Refuses :
    {E A : Type 0} (code : Code) (reason : E → Reason) (m : Result E A)
    → Refuses (coded code reason m)
coded-Refuses code reason m = map_err-Refuses (λ e. fail_bplus code (reason e)) m (λ e h. cc)

-- A part that starts with a check of another package, or with a test.
coded-then :
    {E A Y : Type 0} (code : Code) (reason : E → Reason) (m : Result E A)
    (k : A → Result BundleResult Y)
    → ((a : A) → Refuses (k a))
    → Refuses (coded code reason m >>= k)
coded-then code reason m k h = >>=-Refuses (coded code reason m) k (coded-Refuses code reason m) h

test-then :
    {Y : Type 0} (b : Bool) (e : BundleResult) (k : Unit {0} → Result BundleResult Y)
    → e.overall_trust ≢ Overall.verified
    → ((u : Unit {0}) → Refuses (k u))
    → Refuses (refuse_if b e >>= k)
test-then b e k p h = >>=-Refuses (refuse_if b e) k (refuse_if-Refuses b e p) h

invalid-then :
    {Y : Type 0} (b : Bool) (code : Code) (reason : Reason) (k : Unit {0} → Result BundleResult Y)
    → ((u : Unit {0}) → Refuses (k u))
    → Refuses (refuse_if b (fail_bplus code reason) >>= k)
invalid-then b code reason k h = test-then b (fail_bplus code reason) k (λ p. cc) h

module _ (c : Crypto) (w : BundleWire) where
  parse_bplus_authority-Refuses : (members : Members) → Refuses (parse_bplus_authority c w members)
  unfolding parse_bplus_authority
  parse_bplus_authority-Refuses members =
      coded-then _ _ (parse_identity_card c w.wire.json w.read_card _) _ λ card.
        coded-then _ _ (parse_lifecycle_checkpoint c w.wire.json w.read_checkpoint _) _ λ kt.
          coded-then _ _ (unmarshal_by w.wire.json w.read_genesis _) _ λ g.
            coded-then _ _ (parse_lifecycle_ndjson w.wire.json w.read_record _) _ λ records.
              coded-then _ _ (derive_state c [] g records) _ λ s.
                test-then _ _ _ (λ h. cc)
                  λ u.
                    coded-then _ _ (parse_evidence_anchor c w.wire.json w.read_anchor _) _
                      λ a. coded-then _ _ (validate_evidence_anchor c a s) _ λ v. passes (s, a)

  check_roots-Refuses : (members : Members) (s : State) → Refuses (check_roots c w members s)
  unfolding check_roots
  check_roots-Refuses members s = coded-then _ _ (load_trust_roots c w members false) _ λ trust.
      >>=-Refuses _ _
        (map_err-Refuses _ (parse_revocations c w (member members revocations_name)) (λ e h. cc))
        λ revoked.
          test-then (some_ids revoked) _ _ (λ h. cc)
            λ u. coded-then _ _ (exact_lifecycle_trust c trust s.trust) _ λ v. passes trust

  check_evidence-Refuses :
      (members : Members) (s : State) (a : EvidenceAnchor) (trust : Trust)
      → Refuses (check_evidence c w members s a trust)
  unfolding check_evidence
  check_evidence-Refuses members s a trust =
      coded-then _ _ (verify_bundle_seal c w members trust) _ λ signer.
        coded-then _ _ (parse_receipts w members) _ λ receipts. invalid-then _ _ _ _ λ u.
          coded-then _ _ (parse_petitions w _) _ λ petitions. invalid-then _ _ _ _ λ u.
            coded-then _ _ (verify_receipt_seal c w members receipts trust) _ λ sealer.
              invalid-then
                (not (is_active_key (active_of s) signer && is_active_key (active_of s) sealer))
                Code.export_signer_not_active (Reason.of_code Code.export_signer_not_active) _
                λ u.
                  invalid-then (not (binds_head a.ledger_boundary receipts))
                    Code.embedded_anchor_boundary_mismatch
                    (Reason.of_code Code.embedded_anchor_boundary_mismatch) _
                    λ u.
                      coded-then Code.signing_identity_invalid keep
                        (canonical_signer_ids c
                          (signer ∷ sealer ∷ map (λ (r : Receipt). r.signing_key_id) receipts)
                          trust)
                        _ λ signers. passes _

  pub check_bundle-Refuses :
      (members : Members) (m : ManifestDocument) (options : Options)
      → Refuses (check_bundle c w members m options)
  unfolding check_bundle
  check_bundle-Refuses members m options =
      test-then _ _ _ (λ h. cc)
        λ u.
          >>=-Refuses (parse_bplus_authority c w members) _ (parse_bplus_authority-Refuses members)
            λ sa.
              test-then _ _ _ (λ h. cc)
                λ u.
                  >>=-Refuses (check_roots c w members sa.0) _ (check_roots-Refuses members sa.0)
                    λ trust. check_evidence-Refuses members sa.0 sa.1 trust

check_descends-Refuses :
    (s : State) (k : LifecycleCheckpoint × State) → Refuses (check_descends s k)
unfolding check_descends
check_descends-Refuses s (k, t) =
    test-then (k.identity_id != s.genesis.identity_id || lt_int t.last_sequence s.last_sequence)
      (not_trusted_bplus new_bplus_result Code.checkpoint_rollback
        (Reason.of_code Code.checkpoint_rollback))
      _ (λ h. cc)
      λ u.
        refuse_if-Refuses
          (not (is_digest (digest_at t.records s.last_sequence) s.last_record_digest))
          (not_trusted_bplus new_bplus_result Code.checkpoint_fork
            (Reason.of_code Code.checkpoint_fork))
          (λ h. cc)

module _ (c : Crypto) (w : BundleWire) (o : Outside) where
  from_outside-Refuses :
      (s : State) (source : Mark) (found : Result Reason (LifecycleCheckpoint × State))
      → Refuses (from_outside c w o s source found)
  from_outside-Refuses s source found =
      >>=-Refuses _ _ (map_err-Refuses _ found (λ e h. cc)) λ k.
        >>=-Refuses (check_descends s k) _ (check_descends-Refuses s k) λ u. passes (k.1, source)

  pub select_checkpoint-Refuses :
      (options : Options) (s : State) → Refuses (select_checkpoint c w o options s)
  unfolding select_checkpoint
  select_checkpoint-Refuses options s =
      both (options.external_checkpoint_path != []) (options.trust_store != [])
    where
      both :
          (path store : Bool)
          → Refuses (
              if path && store
              then err (
                  not_trusted_bplus new_bplus_result Code.checkpoint_source_conflict
                    (Reason.of_code Code.checkpoint_source_conflict))
              else if path
              then from_outside c w o s Mark.supplied_file
                  (supplied_checkpoint c w o options.external_checkpoint_path)
              else if store
              then from_outside c w o s Mark.retained_store
                  (retained_checkpoint c w o options.trust_store options.expected_identity_id)
              else ok (s, Mark.embedded_only))
      both true true = refuses _ (λ h. cc)
      both true false = from_outside-Refuses s Mark.supplied_file _
      both false true = from_outside-Refuses s Mark.retained_store _
      both false false = passes _
