-- ===== src/Bundle/Bplus/Sound.antt =====
-- verify_bplus.go, verifyBPlusBundle: what the checks of the bundle itself show.
use ueg.Common.{
  false, length, ◌∙◌, ok-injective, ◌≡◌, refl, sym, ap, inl, inr, true, not, ◌&&◌, List, [], ◌∷◌,
  Option, none, some, map, ok, >>=-eq-ok, ℤ, All, Bool-cases, Option-cases, Result-cases, Text,
  text, text_eq_iff, text_Eq, ◌!=◌, arith,
}
use ueg.Crypto.{Crypto}
use ueg.Identity.{EpochState, State, active_of}
use ueg.Identity.Artifacts.{EvidenceAnchor}
use ueg.Ledger.{
  Receipt, Petition, Trust, verify, verify_bplus, epoch_by_key, sequence_authorized,
  check_authority, verify_lifecycle_boundaries, fail,
}
use ueg.Ledger.Petitions.{verify_petitions}
use ueg.Ledger.Chain.{IsChain}
use ueg.Ledger.Verified.{verify_iff}
use ueg.Bundle.{Members, Options, BundleWire, ManifestDocument, member}
use ueg.Bundle.Seals.{parse_receipts, parse_petitions, verify_bundle_seal, verify_receipt_seal}
use ueg.Bundle.Trust.{
  canonical_signer_ids, load_trust_roots, parse_revocations, revocations_name,
  exact_lifecycle_trust,
}
use ueg.Bundle.Trust.Roots.{
  IsNamed, IsBrought, load_trust_roots-IsNamed, exact_lifecycle_trust-IsBrought,
}
use ueg.Bundle.Authority.{parse_bplus_authority}
use ueg.Bundle.Checkpoint.{}
use ueg.Bundle.Bplus.{
  Checked, binds_head, check_roots, check_evidence, check_bundle, is_active_key, names_authority,
  some_ids,
}
use ueg.Bundle.Bplus.Early.{refuse_if-ok, map_err-ok}

-- A receipt at a place where its key's epoch may sign.
abbrev pub IsAuthorized : State → Receipt → Type 0
IsAuthorized s r =
    (e : EpochState) × (epoch_by_key s.epochs r.signing_key_id ≡ some e)
    × (sequence_authorized e r.sequence_no ≡ true)

pub check_authority-IsAuthorized :
    (epochs : List (ℤ × EpochState)) (rs : List Receipt)
    → check_authority epochs rs ≡ ok tt
    → All
        (λ (r : Receipt).
          (e : EpochState) × (epoch_by_key epochs r.signing_key_id ≡ some e)
          × (sequence_authorized e r.sequence_no ≡ true))
        rs
unfolding check_authority
check_authority-IsAuthorized epochs [] h = tt
check_authority-IsAuthorized epochs (r ∷ rs) h =
    elim (Option-cases (epoch_by_key epochs r.signing_key_id)) [
      | inl e ↦ absurd (ground arith)
      | inr (epoch, e) ↦ elim (Bool-cases (sequence_authorized epoch r.sequence_no)) [
        | inr q ↦ absurd (ground arith)
        | inl q ↦ ((epoch, e, q), check_authority-IsAuthorized epochs rs (ground arith))
      ]
    ]

-- The keys under which the seals are checked: those of the bundle, each under the id of its complete
-- fingerprint and none revoked; exactly as many as the lifecycle derives, and each key of the
-- lifecycle among them.
pub record IsLifecycleTrust (c : Crypto) (w : BundleWire) (members : Members) (s : State)
    (trust : Trust) : Type 0 where
  pub loaded : load_trust_roots c w members false ≡ ok trust
  pub named : All (IsNamed c) trust
  pub unrevoked : parse_revocations c w (member members revocations_name) ≡ ok []
  pub counted : length trust ≡ length s.trust
  pub brought : All (IsBrought c trust) s.trust

-- What the bundle itself shows: under the lifecycle that its members derive, an unbroken chain of
-- receipts, each where its key may sign, all requests bound, the embedded anchor at their end, and
-- both seals under the id of the
-- active key, checked with the keys of that lifecycle.
pub record IsSound (c : Crypto) (w : BundleWire) (members : Members) (s : State)
    (a : EvidenceAnchor) (rs : List Receipt) : Type 0 where
  pub embedded : parse_bplus_authority c w members ≡ ok (s, a)
  pub parsed : parse_receipts w members ≡ ok rs
  pub chain : IsChain c s.trust rs
  pub authorized : All (IsAuthorized s) rs
  pub petitions : List Petition
  pub stored : parse_petitions w (member members (text "petitions.ndjson")) ≡ ok petitions
  pub bound : (verify_petitions c rs petitions).is_ok ≡ true
  pub head : binds_head a.ledger_boundary rs ≡ true
  pub trust : Trust
  pub roots : IsLifecycleTrust c w members s trust
  pub signer : EpochState
  pub is_active : active_of s ≡ some signer
  pub sealed : verify_bundle_seal c w members trust ≡ ok signer.operational_key_id
  pub receipts_sealed : verify_receipt_seal c w members rs trust ≡ ok signer.operational_key_id

module _ (c : Crypto) (w : BundleWire) where
  verify_bplus-parts :
      (rs : List Receipt) (s : State)
      → (verify_bplus c rs (some s)).is_ok ≡ true
      → IsChain c s.trust rs × (check_authority s.epochs rs ≡ ok tt)
  unfolding verify_bplus fail
  verify_bplus-parts rs s h = elim (Bool-cases (verify c rs s.trust).is_ok) [
    | inr broken ↦ absurd (ground arith)
    | inl whole ↦ elim (Result-cases (verify_lifecycle_boundaries rs s.records)) [
      | inr (f, e) ↦ absurd (ground arith)
      | inl (u, e) ↦ elim (Result-cases (check_authority s.epochs rs)) [
        | inr (f, e') ↦ absurd (ground arith)
        | inl (u', e') ↦ ((verify_iff c s.trust rs).0 whole, ground arith)
      ]
    ]
  ]

  active_key-eq :
      (e : Option EpochState) (id : Text)
      → is_active_key e id ≡ true
      → (a : EpochState) × (e ≡ some a) × (id ≡ a.operational_key_id)
  active_key-eq none id h = cc
  active_key-eq (some a) id h = (a, refl, (text_eq_iff id a.operational_key_id).0 h)

  some_ids_lem : (ids : List Text) → some_ids ids ≡ false → ids ≡ []
  some_ids_lem [] h = refl
  some_ids_lem (id ∷ ids) h = cc

  check_roots-IsLifecycleTrust :
      (members : Members) (s : State) (trust : Trust)
      → check_roots c w members s ≡ ok trust
      → IsLifecycleTrust c w members s trust
  unfolding check_roots
  check_roots-IsLifecycleTrust members s trust h =
      let (t, ht, h1) = map_err-ok _ (load_trust_roots c w members false) _ h in
      let (revoked, hr, h2) =
        map_err-ok _ (parse_revocations c w (member members revocations_name)) _ h1 in
      let (he, h3) = refuse_if-ok (some_ids revoked) _ _ h2 in
      let (u, hx, h4) = map_err-ok _ (exact_lifecycle_trust c t s.trust) _ h3 in
      let same : t ≡ trust = ok-injective h4 in
      let (n, b) = exact_lifecycle_trust-IsBrought c t s.trust hx in
      rw (← same) (record {
        loaded = ht;
        named = load_trust_roots-IsNamed c w members t ht;
        unrevoked = hr ∙ ap ok (some_ids_lem revoked he);
        counted = n;
        brought = b;
      })

  -- What a check that went through has shown.
  check_evidence-IsSound :
      (members : Members) (s : State) (a : EvidenceAnchor) (trust : Trust) (k : Checked)
      → parse_bplus_authority c w members ≡ ok (s, a)
      → IsLifecycleTrust c w members s trust
      → check_evidence c w members s a trust ≡ ok k
      → (rs : List Receipt) × IsSound c w members s a rs × (k.receipts ≡ rs) × (k.state ≡ s)
  unfolding check_evidence
  check_evidence-IsSound members s a trust k embedded roots h =
      let (signer, hs, h1) = map_err-ok _ (verify_bundle_seal c w members trust) _ h in
      let (rs, hr, h2) = map_err-ok _ (parse_receipts w members) _ h1 in
      let (hv, h3) = refuse_if-ok (not (verify_bplus c rs (some s)).is_ok) _ _ h2 in
      let (ps, hp, h4) =
        map_err-ok _ (parse_petitions w (member members (text "petitions.ndjson"))) _ h3 in
      let (hb, h5) = refuse_if-ok (not (verify_petitions c rs ps).is_ok) _ _ h4 in
      let (sealer, hq, h6) = map_err-ok _ (verify_receipt_seal c w members rs trust) _ h5 in
      let (hk, h7) =
        refuse_if-ok
          (not (is_active_key (active_of s) signer && is_active_key (active_of s) sealer)) _ _ h6 in
      let (hh, h8) = refuse_if-ok (not (binds_head a.ledger_boundary rs)) _ _ h7 in
      let (ids, hi, h9) =
        map_err-ok _
          (canonical_signer_ids c (signer ∷ sealer ∷ map (λ (r : Receipt). r.signing_key_id) rs)
            trust)
          _ h8 in
      let (chain, authority) = verify_bplus-parts rs s (ground arith) in
      let (e, active, key) = active_key-eq (active_of s) signer (ground arith) in
      let (e', active', key') = active_key-eq (active_of s) sealer (ground arith) in
      (
        rs,
        record {
          embedded = embedded;
          parsed = hr;
          chain = chain;
          authorized = check_authority-IsAuthorized s.epochs rs authority;
          petitions = ps;
          stored = hp;
          bound = ground arith;
          head = ground (arith, hh);
          trust = trust;
          roots = roots;
          signer = e;
          is_active = active;
          sealed = rw (← key) hs;
          receipts_sealed = one_epoch e e' rs active active' sealer key' hq;
        },
        ap (λ (x : Checked). x.receipts) (sym (ok-injective h9)),
        ap (λ (x : Checked). x.state) (sym (ok-injective h9)),
      )
    where
      one_epoch :
          (e e' : EpochState) (rs : List Receipt)
          → active_of s ≡ some e
          → active_of s ≡ some e'
          → (sealer : Text) → sealer ≡ e'.operational_key_id
          → verify_receipt_seal c w members rs trust ≡ ok sealer
          → verify_receipt_seal c w members rs trust ≡ ok e.operational_key_id
      one_epoch e e' rs p q sealer key h = ground arith

  pub check_bundle-IsSound :
      (members : Members) (m : ManifestDocument) (options : Options) (k : Checked)
      → check_bundle c w members m options ≡ ok k
      → (s : State) × (a : EvidenceAnchor) × (rs : List Receipt) × IsSound c w members s a rs
        × (k.receipts ≡ rs)
        × (k.state ≡ s)
  unfolding check_bundle
  check_bundle-IsSound members m options k h =
      let (hx, h1) = refuse_if-ok (options.expected_key_id != []) _ _ h in
      let (sa, he, h2) = >>=-eq-ok (parse_bplus_authority c w members) _ h1 in
      let (hn, h3) = refuse_if-ok (not (names_authority m sa.0 sa.1)) _ _ h2 in
      let (trust, ht, h4) = >>=-eq-ok (check_roots c w members sa.0) _ h3 in
      let (rs, sound, receipts, state) =
        check_evidence-IsSound members sa.0 sa.1 trust k he
          (check_roots-IsLifecycleTrust members sa.0 trust ht) h4 in
      (sa.0, sa.1, rs, sound, receipts, state)
