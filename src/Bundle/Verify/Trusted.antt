-- ===== src/Bundle/Verify/Trusted.antt =====
-- verify.go, VerifyWithOptions, for a bundle of version 1 or 2: what stands behind the verdict
-- IDENTITY_TRUSTED.
use ueg.Common.{
  ok-injective, ◌≡◌, refl, sym, ap, ◌∙◌, inl, inr, Bool, true, false, not, List, [], ◌∷◌, some, map,
  ok, >>=-eq-ok, All, Bool-cases, Option-cases, Result-cases, Text, text, text_eq_iff, text_Eq,
  lookup, ◌==◌, arith,
}
use ueg.Crypto.{Crypto}
use ueg.Keys.{Pair, key_id}
use ueg.Ledger.{Receipt, Trust, verify}
use ueg.Ledger.Parse.{sort_texts}
use ueg.Ledger.Parse.Exact.{has, has-sort_texts}
use ueg.Ledger.Chain.{IsChain}
use ueg.Ledger.Verified.{verify_iff}
use ueg.Bundle.{Members, Options, BundleWire, ManifestDocument, BundleResult, Verdict}
use ueg.Bundle.Trust.{unique, load_trust_roots, canonical_ids, canonical_signer_ids}
use ueg.Bundle.Seals.{parse_receipts, verify_bundle_seal, verify_receipt_seal}
use ueg.Bundle.Bplus.Early.{map_err-ok, refuse_if-ok}
use ueg.Bundle.Verify.{is_only, pin_signers, check_petitions, verify_legacy}

has-unique : (t : Text) (l : List Text) → has t (unique l) ≡ has t l
unfolding unique
has-unique t [] = refl
has-unique t (s ∷ l) = elim (Bool-cases (has s (unique l))) [
  | inr e ↦ ground (arith, has-unique t l)
  | inl e ↦ elim (Bool-cases (s == t)) [
    | inr differs ↦ ground (arith, has-unique t l)
    | inl same ↦ let q = (text_eq_iff s t).0 same in ground (arith, has-unique t l, has_same q e)
  ]
]
  where
    has_same : s ≡ t → has s (unique l) ≡ true → has t (unique l) ≡ true
    has_same q e = rw q at e

-- Of a list with one text in it, all texts are that one.
only_one :
    (want t : Text) (cs : List Text)
    → is_only (sort_texts (unique cs)) want ≡ true
    → has t cs ≡ true
    → want ≡ t
only_one want t cs h m =
    go (sort_texts (unique cs)) h (has-sort_texts t (unique cs) ∙ has-unique t cs ∙ m)
  where
    go : (l : List Text) → is_only l want ≡ true → has t l ≡ true → want ≡ t
    go [] h m = cc
    go (s ∷ []) h m =
        let e = (text_eq_iff s want).0 h in
        elim (Bool-cases (s == t)) [
          | inl same ↦ sym e ∙ (text_eq_iff s t).0 same
          | inr differs ↦ absurd (ground arith)
        ]
    go (s ∷ u ∷ l) h m = cc

module _ (c : Crypto) (trust : Trust) (want : Text) where
  canonical_ids-only :
      (ids cs : List Text)
      → canonical_ids c trust ids ≡ ok cs
      → ((t : Text) → has t cs ≡ true → want ≡ t)
      → All (λ (id : Text). (p : Pair) × (lookup id trust ≡ some p) × (key_id c p ≡ ok want)) ids
  unfolding canonical_ids
  canonical_ids-only [] cs h all = tt
  canonical_ids-only (id ∷ ids) cs h all = elim (Option-cases (lookup id trust)) [
    | inl e ↦ absurd (ground arith)
    | inr (p, e) ↦ elim (Result-cases (key_id c p)) [
      | inr (x, k) ↦ absurd (ground arith)
      | inl (x, k) ↦ elim (Result-cases (canonical_ids c trust ids)) [
        | inr (y, r) ↦ absurd (ground arith)
        | inl (y, r) ↦
            let same : x ∷ y ≡ cs = ground arith in
            (
              (p, e, k ∙ ap ok (sym (all x (rw (← same) (first x y))))),
              canonical_ids-only ids y r (λ t m. all t (rw (← same) (later x t y m))),
            )
      ]
    ]
  ]
    where
      first : (x : Text) (y : List Text) → has x (x ∷ y) ≡ true
      first x y = ground (arith, text_eq_iff x x)

      later : (x t : Text) (y : List Text) → has t y ≡ true → has t (x ∷ y) ≡ true
      later x t y m = ground arith

  canonical_signer_ids-only :
      (ids cs : List Text)
      → canonical_signer_ids c ids trust ≡ ok cs
      → is_only cs want ≡ true
      → All (λ (id : Text). (p : Pair) × (lookup id trust ≡ some p) × (key_id c p ≡ ok want)) ids
  unfolding canonical_signer_ids
  canonical_signer_ids-only ids cs h one =
      let (found, hf, h1) = >>=-eq-ok (canonical_ids c trust ids) _ h in
      let same = ok-injective h1 in
      canonical_ids-only ids found hf (λ t m. only_one want t found (rw (← same) at one) m)

pin_signers-trusted :
    (options : Options) (res : BundleResult)
    → res.trust_verdict ≡ Verdict.internally_consistent
    → (pin_signers options res).trust_verdict ≡ Verdict.identity_trusted
    → is_only res.signing_key_ids options.expected_key_id ≡ true
unfolding pin_signers
pin_signers-trusted options res plain h = ground arith

-- All signers of a bundle: of its seals and of its receipts.
abbrev pub IsSignedBy : Crypto → Trust → Text → List Text → Type 0
IsSignedBy c trust want =
    All (λ (id : Text). (p : Pair) × (lookup id trust ≡ some p) × (key_id c p ≡ ok want))

module _ (c : Crypto) (w : BundleWire) where
  -- The verdict IDENTITY_TRUSTED is given to a bundle of version 1 or 2 only if its receipts are an
  -- unbroken chain under trust roots of the bundle, and every key that signed one of them, or one of
  -- the two seals, has the complete fingerprint that the verifier expected.
  pub verify_legacy-trusted :
      (members : Members) (m : ManifestDocument) (options : Options) (res : BundleResult)
      → verify_legacy c w members m options ≡ ok res
      → res.trust_verdict ≡ Verdict.identity_trusted
      → (trust : Trust) × (rs : List Receipt) × (bundle_signer : Text) × (receipt_signer : Text)
        × (load_trust_roots c w members (m.version == text "v1") ≡ ok trust)
        × (parse_receipts w members ≡ ok rs)
        × (verify_bundle_seal c w members trust ≡ ok bundle_signer)
        × (verify_receipt_seal c w members rs trust ≡ ok receipt_signer)
        × IsChain c trust rs
        × IsSignedBy c trust options.expected_key_id
            (bundle_signer ∷ receipt_signer ∷ map (λ (r : Receipt). r.signing_key_id) rs)
  unfolding verify_legacy
  verify_legacy-trusted members m options res h trusted =
      let (trust, ht, h1) =
        map_err-ok _ (load_trust_roots c w members (m.version == text "v1")) _ h in
      let (signer, hs, h2) = map_err-ok _ (verify_bundle_seal c w members trust) _ h1 in
      let (rs, hr, h3) = map_err-ok _ (parse_receipts w members) _ h2 in
      let (hv, h4) = refuse_if-ok (not (verify c rs trust).is_ok) _ _ h3 in
      let (bound, hb, h5) =
        >>=-eq-ok (check_petitions c w rs (lookup (text "petitions.ndjson") members)) _ h4 in
      let (sealer, hq, h6) = map_err-ok _ (verify_receipt_seal c w members rs trust) _ h5 in
      let (ids, hi, h7) =
        map_err-ok _
          (canonical_signer_ids c (signer ∷ sealer ∷ map (λ (r : Receipt). r.signing_key_id) rs)
            trust)
          _ h6 in
      let verdict = ap (λ (x : BundleResult). x.trust_verdict) (ok-injective h7) ∙ trusted in
      (
        trust,
        rs,
        signer,
        sealer,
        ht,
        hr,
        hs,
        hq,
        (verify_iff c trust rs).0 (not-false (verify c rs trust).is_ok hv),
        canonical_signer_ids-only c trust options.expected_key_id _ ids hi
            (pin_signers-trusted options _ refl verdict),
      )
    where
      not-false : (b : Bool) → not b ≡ false → b ≡ true
      not-false true h = refl
      not-false false h = cc
