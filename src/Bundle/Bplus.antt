-- ===== src/Bundle/Bplus.antt =====
-- verify_bplus.go, verifyBPlusBundle. An early return is an error of the chain that `settle` makes
-- the result.
pub mod Early
pub mod Refused
pub mod Stands
pub mod Sound
pub mod Verified
use ueg.Common.{
  ℕ, suc, Bool, true, false, not, ◌&&◌, ◌||◌, List, [], ◌∷◌, ◌++◌, Option, none, some, Result, ok,
  err, ◌>>=◌, ◌>>◌, refuse_if, map_err, ℤ, pos, minus_one, Text, text, length, is_some, map,
  same_optional, ◌==◌, ◌!=◌, int_Eq, text_Eq, if◌then◌else◌,
}
use ueg.Crypto.{Crypto}
use ueg.Identity.{LedgerBoundary, EpochState, State, active_of}
use ueg.Identity.Records.{is_identity_id}
use ueg.Identity.Artifacts.{EvidenceAnchor}
use ueg.Ledger.{Receipt, Petition, Trust, VerifyResult, verify_bplus}
use ueg.Ledger.Petitions.{verify_petitions}
use ueg.Bundle.{
  Members, Options, Outside, BundleWire, ManifestDocument, BundleResult, Reason, Code, Verdict,
  Overall, Mark, Check, member,
}
use ueg.Bundle.Trust.{
  revocations_name, parse_revocations, load_trust_roots, exact_lifecycle_trust,
  canonical_signer_ids,
}
use ueg.Bundle.Seals.{
  last_id, parse_receipts, parse_petitions, verify_bundle_seal, verify_receipt_seal,
}
use ueg.Bundle.Authority.{
  new_bplus_result, fail_bplus, not_trusted_bplus, coded, parse_bplus_authority,
}
use ueg.Bundle.Checkpoint.{
  select_checkpoint, load_external_anchor, verify_checkpoint_receipt_boundaries,
  verify_checkpoint_requirements, verify_receipt_authorization_at_state,
  signing_status_for_evidence,
}

abbrev pub settle : Result BundleResult BundleResult → BundleResult
settle (ok res) = res
settle (err res) = res

abbrev pub plain : Code → BundleResult
plain code = fail_bplus code (Reason.of_code code)

abbrev pub keep : Reason → Reason
keep reason = reason

abbrev pub refuse_findings : Code → VerifyResult → Result BundleResult (Unit {0})
refuse_findings code v = refuse_if (not v.is_ok) (fail_bplus code (Reason.findings v.findings))

abbrev pub is_active_key : Option EpochState → Text → Bool
is_active_key none id = false
is_active_key (some e) id = id == e.operational_key_id

-- The manifest's authority fields are those of the authenticated members.
unfoldable pub names_authority : ManifestDocument → State → EvidenceAnchor → Bool
names_authority m s a =
    m.identity_id == s.genesis.identity_id
    && same_optional m.checkpoint_sequence (some s.last_sequence)
    && m.checkpoint_digest == s.last_record_digest
    && m.evidence_anchor_digest == a.anchor_digest

abbrev pub last_index : List Receipt → ℤ
last_index [] = minus_one
last_index (r ∷ rs) = pos (length rs)

unfoldable pub binds_head : LedgerBoundary → List Receipt → Bool
binds_head b rs =
    b.sequence_no == last_index rs
    && is_some b.receipt_id
    && same_optional (last_id rs) b.receipt_id

-- What the verdict goes on with after the bundle itself is checked.
pub record Checked : Type 0 where
  pub state : State
  pub receipts : List Receipt
  pub result : BundleResult

abbrev lifecycle_result : State → BundleResult
lifecycle_result s = record new_bplus_result {
  checks = Check.bplus_manifest_matches ∷ Check.lifecycle_verified ∷ [];
  identity_id = s.genesis.identity_id;
  lifecycle_sequence = s.last_sequence;
  lifecycle_digest = s.last_record_digest;
  lifecycle_chain = Mark.pass;
  checkpoint_authenticity = Mark.pass;
  checkpoint_sequence = Mark.pass;
}

abbrev evidence_result : State → List Receipt → List Text → BundleResult
evidence_result s rs signers = record (lifecycle_result s) {
  receipt_count = length rs;
  signing_key_ids = signers;
  signature = Mark.pass;
  bundle_ledger_integrity = Mark.pass;
  epoch_authorization = Mark.pass;
  evidence_anchor = Mark.embedded_only;
  checks =
      Check.bplus_manifest_matches ∷ Check.lifecycle_verified ∷ Check.bplus_evidence_verified ∷ [];
}

abbrev pub some_ids : List Text → Bool
some_ids [] = false
some_ids (id ∷ ids) = true

module _ (c : Crypto) (w : BundleWire) where
  -- The keys of the bundle are those of its lifecycle.
  unfoldable pub check_roots : Members → State → Result BundleResult Trust
  check_roots members s = do
    trust ← coded Code.trust_roots_invalid keep (load_trust_roots c w members false)
    revoked ←
        map_err (λ _. plain Code.legacy_revocation_conflict)
          (parse_revocations c w (member members revocations_name))
    refuse_if (some_ids revoked) (plain Code.legacy_revocation_conflict)
    coded Code.trust_root_substitution keep (exact_lifecycle_trust c trust s.trust)
    ok trust

  -- The seals, the receipts and the requests, under those keys.
  unfoldable pub check_evidence :
      Members → State → EvidenceAnchor → Trust → Result BundleResult Checked
  unfolding text
  check_evidence members s a trust = do
    bundle_signer ← coded Code.bundle_seal_invalid keep (verify_bundle_seal c w members trust)
    receipts ← coded Code.receipts_invalid keep (parse_receipts w members)
    refuse_findings Code.bplus_ledger_invalid (verify_bplus c receipts (some s))
    petitions ←
        coded Code.petitions_invalid keep
          (parse_petitions w (member members (text "petitions.ndjson")))
    refuse_findings Code.petition_binding_invalid (verify_petitions c receipts petitions)
    receipt_signer ←
        coded Code.receipt_seal_invalid keep (verify_receipt_seal c w members receipts trust)
    refuse_if
        (not
          (is_active_key (active_of s) bundle_signer && is_active_key (active_of s) receipt_signer))
        (plain Code.export_signer_not_active)
    refuse_if (not (binds_head a.ledger_boundary receipts))
        (plain Code.embedded_anchor_boundary_mismatch)
    signers ← coded Code.signing_identity_invalid keep (
        canonical_signer_ids c
          (bundle_signer ∷ receipt_signer ∷ map (λ (r : Receipt). r.signing_key_id) receipts) trust)
    ok (record { state = s; receipts = receipts; result = evidence_result s receipts signers })

  unfoldable pub check_bundle : Members → ManifestDocument → Options → Result BundleResult Checked
  check_bundle members m options = do
    refuse_if (options.expected_key_id != []) (
        not_trusted_bplus (record new_bplus_result { checks = Check.bplus_manifest_matches ∷ [] })
          Code.bplus_requires_identity_pin (Reason.of_code Code.bplus_requires_identity_pin))
    (s, a) ← parse_bplus_authority c w members
    refuse_if (not (names_authority m s a)) (plain Code.manifest_authority_mismatch)
    trust ← check_roots members s
    check_evidence members s a trust

-- The last returns, where nothing is wrong.
abbrev open_verdict : BundleResult → Code → BundleResult
open_verdict res code = record res {
  is_ok = true;
  overall_trust = Overall.trust_indeterminate;
  reason_code = code;
  reason = Reason.of_code code;
}

abbrev pub is_embedded : Mark → Bool
is_embedded Mark.embedded_only = true
is_embedded _ = false

unfoldable pub conclude : Options → Mark → Bool → BundleResult → BundleResult
conclude options source left_open res =
    if is_embedded source
    then open_verdict res Code.embedded_checkpoint_not_independent
    else if options.require_current_status
    then open_verdict res Code.current_status_freshness_unavailable
    else if left_open
    then open_verdict res Code.epoch_trust_indeterminate
    else record res {
      is_ok = true;
      overall_trust = Overall.verified;
      trust_verdict = Verdict.verified;
      reason_code = Code.bplus_verified_at_checkpoint;
      reason = Reason.of_code Code.bplus_verified_at_checkpoint;
    }

abbrev unpinned : BundleResult → BundleResult
unpinned res = record (open_verdict res Code.missing_external_identity_pin) {
  identity_continuity = Mark.indeterminate;
  checkpoint_source = Mark.embedded_only;
  checkpoint_freshness = Mark.unproven_offline;
  signing_key_status = Mark.authentic_embedded_status_only;
}

module _ (c : Crypto) (w : BundleWire) (o : Outside) where
  -- From the pin on: `res` has the marks that were set before.
  unfoldable pub judge_checkpoint : Options → Checked → Result BundleResult BundleResult
  judge_checkpoint options k = do
    let pinned : BundleResult = record k.result { identity_continuity = Mark.pass }
    (t, source) ←
        map_err (λ (e : BundleResult). record e { identity_id = k.state.genesis.identity_id })
          (select_checkpoint c w o options k.state)
    let res : BundleResult = record pinned {
      checkpoint_source = source;
      checkpoint_authenticity = Mark.pass;
      checkpoint_sequence = Mark.pass;
      lifecycle_sequence = t.last_sequence;
      lifecycle_digest = t.last_record_digest;
    }
    map_err
        (not_trusted_bplus (record res { checkpoint_sequence = Mark.failed })
          Code.minimum_checkpoint_not_met)
        (verify_checkpoint_requirements options t)
    map_err
        (not_trusted_bplus (record res { checkpoint_authenticity = Mark.failed })
          Code.checkpoint_receipt_boundary_mismatch)
        (verify_checkpoint_receipt_boundaries k.receipts t.records)
    map_err
        (not_trusted_bplus (record res { epoch_authorization = Mark.failed })
          Code.epoch_unauthorized)
        (verify_receipt_authorization_at_state k.receipts t)
    anchor ←
        map_err
          (not_trusted_bplus (record res { evidence_anchor = Mark.failed })
            Code.external_anchor_invalid)
          (load_external_anchor c w o options.external_anchor_path t k.receipts)
    let (standing, left_open) = signing_status_for_evidence k.receipts anchor t
    ok (
        conclude options source left_open (record res {
          evidence_anchor = if is_some anchor then Mark.independent_match else res.evidence_anchor;
          signing_key_status = standing;
          checkpoint_freshness = Mark.unproven_offline;
          checks = res.checks ++ Check.pin_and_checkpoint ∷ [];
        }))

  unfoldable pub judge : Options → Checked → Result BundleResult BundleResult
  judge options k = if options.expected_identity_id == [] then ok (unpinned k.result) else (do
    refuse_if
        (not (is_identity_id options.expected_identity_id)
          || options.expected_identity_id != k.state.genesis.identity_id)
        (not_trusted_bplus (record k.result { identity_continuity = Mark.failed })
          Code.identity_pin_mismatch (Reason.of_code Code.identity_pin_mismatch))
    judge_checkpoint options k)

  unfoldable pub verify_bplus_bundle : Members → ManifestDocument → Options → BundleResult
  verify_bplus_bundle members m options =
      settle (check_bundle c w members m options >>= judge options)
