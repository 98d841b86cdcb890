-- ===== src/Bundle/Verify.antt =====
-- verify.go, VerifyWithOptions: the verdict on a bundle of any version.
pub mod Trusted
use ueg.Common.{
  ℕ, Bool, true, false, not, ◌&&◌, ◌||◌, List, [], ◌∷◌, ◌++◌, Option, none, some, Result, ok, err,
  ◌>>=◌, ◌>>◌, refuse_if, map_err, Text, text, length, lookup, map, ◌==◌, ◌!=◌, text_Eq,
  if◌then◌else◌,
}
use ueg.Crypto.{Crypto}
use ueg.Identity.Records.{is_key_id}
use ueg.Ledger.{Receipt, VerifyResult, verify}
use ueg.Ledger.Petitions.{verify_petitions}
use ueg.Bundle.{
  Members, Options, Outside, BundleWire, ManifestDocument, BundleResult, Reason, Verdict, Check,
  empty_result, fail, bplus_manifest_version,
}
use ueg.Bundle.Archive.{TarNext, read_tar_gz}
use ueg.Bundle.Manifest.{verify_manifest}
use ueg.Bundle.Trust.{load_trust_roots, canonical_signer_ids}
use ueg.Bundle.Seals.{parse_receipts, parse_petitions, verify_bundle_seal, verify_receipt_seal}
use ueg.Bundle.Bplus.{settle, verify_bplus_bundle}

abbrev pub failing : {A : Type 0} → Result Reason A → Result BundleResult A
failing m = map_err fail m

abbrev pub fail_findings : VerifyResult → Result BundleResult (Unit {0})
fail_findings v = refuse_if (not v.is_ok) (fail (Reason.findings v.findings))

abbrev pub is_only : List Text → Text → Bool
is_only (id ∷ []) want = id == want
is_only _ want = false

-- The last part, on who signed.
unfoldable pub pin_signers : Options → BundleResult → BundleResult
pin_signers options res =
    if options.expected_key_id == []
    then record res {
      reason = Reason.is_internally_consistent;
      checks = res.checks ++ Check.self_contained ∷ [];
    }
    else if not (is_key_id options.expected_key_id)
        || not (is_only res.signing_key_ids options.expected_key_id)
    then record res {
      expected_key_id = options.expected_key_id;
      is_ok = false;
      reason = Reason.other_identity;
      trust_verdict = Verdict.identity_mismatch;
    }
    else record res {
      expected_key_id = options.expected_key_id;
      trust_verdict = Verdict.identity_trusted;
      reason = Reason.is_identity_trusted;
      checks = res.checks ++ Check.signers_match ∷ [];
    }

module _ (c : Crypto) (w : BundleWire) where
  -- A bundle need not have stored requests.
  unfoldable pub check_petitions : List Receipt → Option (List ℕ) → Result BundleResult (List Check)
  check_petitions receipts none = ok []
  check_petitions receipts (some raw) = do
    petitions ← failing (parse_petitions w raw)
    fail_findings (verify_petitions c receipts petitions)
    ok (Check.petitions_match ∷ [])

  unfoldable pub verify_legacy :
      Members → ManifestDocument → Options → Result BundleResult BundleResult
  unfolding text
  verify_legacy members m options = do
    trust ← failing (load_trust_roots c w members (m.version == text "v1"))
    bundle_signer ← failing (verify_bundle_seal c w members trust)
    receipts ← failing (parse_receipts w members)
    fail_findings (verify c receipts trust)
    bound ← check_petitions receipts (lookup (text "petitions.ndjson") members)
    receipt_signer ← failing (verify_receipt_seal c w members receipts trust)
    actual ← failing (
        canonical_signer_ids c
          (bundle_signer ∷ receipt_signer ∷ map (λ (r : Receipt). r.signing_key_id) receipts) trust)
    ok (
        pin_signers options (record empty_result {
          is_ok = true;
          trust_verdict = Verdict.internally_consistent;
          receipt_count = length receipts;
          signing_key_ids = actual;
          checks =
              (Check.manifest_matches ∷ Check.roots_active ∷ Check.bundle_seal_verified
                ∷ Check.receipts_verified ∷ bound)
              ++ Check.receipt_seal_verified ∷ [];
        }))

  unfoldable pub verify_members :
      Outside → Members → ManifestDocument → Options → Result BundleResult BundleResult
  verify_members o members m options =
      if m.version == bplus_manifest_version
      then ok (verify_bplus_bundle c w o members m options)
      else verify_legacy members m options

  unfoldable pub verify_with_options : Outside → Option (List TarNext) → Options → BundleResult
  verify_with_options o archive options = settle (do
    members ← failing (read_tar_gz archive)
    m ← failing (verify_manifest c w members)
    verify_members o members m options)
