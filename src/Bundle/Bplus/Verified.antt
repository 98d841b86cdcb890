-- ===== src/Bundle/Bplus/Verified.antt =====
-- verify_bplus.go, verifyBPlusBundle: what stands behind the verdict VERIFIED.
use ueg.Common.{
  ok-injective, map_err-eq-ok, ◌≡◌, refl, ap, ◌⊎◌, inl, inr, Bool, false, not, ◌||◌, List, [],
  Option, some, Result, ok, >>=-eq-ok, ℤ, ◌≤ℤ◌, All, Bool-cases, Option-cases, text_eq_iff, text_Eq,
  ◌==◌, ◌!=◌, arith,
}
use ueg.Crypto.{Crypto}
use ueg.Identity.{EpochState, State}
use ueg.Identity.Artifacts.{EvidenceAnchor, LifecycleCheckpoint, digest_at}
use ueg.Ledger.{Receipt, check_authority}
use ueg.Bundle.{
  Members, Options, Outside, BundleWire, ManifestDocument, BundleResult, Reason, Code, Overall,
  Mark,
}
use ueg.Bundle.Authority.{not_trusted_bplus}
use ueg.Identity.Records.{is_identity_id}
use ueg.Bundle.Checkpoint.{
  check_descends, supplied_checkpoint, retained_checkpoint, from_outside, select_checkpoint,
  load_external_anchor, verify_checkpoint_receipt_boundaries, verify_checkpoint_requirements,
  verify_receipt_authorization_at_state, is_indeterminate, signing_status_for_evidence,
}
use ueg.Bundle.Bplus.{
  Checked, check_bundle, conclude, judge_checkpoint, judge, verify_bplus_bundle, is_embedded,
}
use ueg.Bundle.Bplus.Early.{
  IsVerdict, >>=-IsVerdict, map_err-IsVerdict, refuse_if-IsVerdict, map_err-ok, map_result-Refuses,
}
use ueg.Bundle.Bplus.Sound.{
  IsAuthorized, IsSound, check_authority-IsAuthorized, check_bundle-IsSound,
}
use ueg.Bundle.Bplus.Refused.{check_bundle-Refuses, select_checkpoint-Refuses}
use ueg.Bundle.Bplus.Stands.{IsCovered, is_indeterminate-IsCovered}

-- What came from outside: the pin, and a later state of the same lifecycle.
pub record IsIndependent (c : Crypto) (w : BundleWire) (o : Outside) (options : Options)
    (s t : State) : Type 0 where
  pub pinned : options.expected_identity_id ≡ s.genesis.identity_id
  pub checkpoint : LifecycleCheckpoint
  pub supplied :
      (supplied_checkpoint c w o options.external_checkpoint_path ≡ ok (checkpoint, t))
      ⊎ (retained_checkpoint c w o options.trust_store options.expected_identity_id
          ≡ ok (checkpoint, t))
  pub same_identity : checkpoint.identity_id ≡ s.genesis.identity_id
  pub is_later : s.last_sequence ≤ℤ t.last_sequence
  pub continues : digest_at t.records s.last_sequence ≡ some s.last_record_digest

module _ (c : Crypto) (w : BundleWire) (o : Outside) where
  check_descends-parts :
      (s t : State) (k : LifecycleCheckpoint)
      → check_descends s (k, t) ≡ ok tt
      → (k.identity_id ≡ s.genesis.identity_id)
        × (s.last_sequence ≤ℤ t.last_sequence)
        × (digest_at t.records s.last_sequence ≡ some s.last_record_digest)
  unfolding check_descends
  check_descends-parts s t k h = elim (Option-cases (digest_at t.records s.last_sequence)) [
    | inl e ↦ absurd (ground arith)
    | inr (d, e) ↦
        ground (
          arith,
          text_eq_iff k.identity_id s.genesis.identity_id,
          text_eq_iff d s.last_record_digest,
        )
  ]

  signing_status-closed :
      (rs : List Receipt) (anchor : Option EvidenceAnchor) (t : State)
      → (signing_status_for_evidence rs anchor t).1 ≡ false
      → is_indeterminate rs anchor t.epochs ≡ false
  unfolding signing_status_for_evidence
  signing_status-closed rs anchor t h = ground arith

  conclude-verified :
      (options : Options) (source : Mark) (left_open : Bool) (res : BundleResult)
      → (conclude options source left_open res).overall_trust ≡ Overall.verified
      → (is_embedded source ≡ false)
        × (options.require_current_status ≡ false)
        × (left_open ≡ false)
  unfolding conclude
  conclude-verified options source left_open res h = ground arith

  from_outside-parts :
      (s t : State) (source kind : Mark) (found : Result Reason (LifecycleCheckpoint × State))
      → from_outside c w o s kind found ≡ ok (t, source)
      → (k : LifecycleCheckpoint) × (found ≡ ok (k, t)) × (check_descends s (k, t) ≡ ok tt)
  from_outside-parts s t source kind found h =
      let (k, hk, h1) = map_err-ok _ found _ h in
      let (u, hd, h2) = >>=-eq-ok (check_descends s k) _ h1 in rest k hk hd (ok-injective h2)
    where
      rest :
          (k : LifecycleCheckpoint × State)
          → found ≡ ok k
          → check_descends s k ≡ ok tt
          → ◌≡◌ {A = State × Mark} (k.1, kind) (t, source)
          → (k' : LifecycleCheckpoint) × (found ≡ ok (k', t)) × (check_descends s (k', t) ≡ ok tt)
      rest (k, t') hk hd same =
          let e : t' ≡ t = ap (λ (x : State × Mark). x.0) same in (k, rw (← e) hk, rw (← e) hd)

  select_checkpoint-parts :
      (options : Options) (s t : State) (source : Mark)
      → select_checkpoint c w o options s ≡ ok (t, source)
      → is_embedded source ≡ false
      → (k : LifecycleCheckpoint) × ((supplied_checkpoint c w o options.external_checkpoint_path
            ≡ ok (k, t))
          ⊎ (retained_checkpoint c w o options.trust_store options.expected_identity_id
              ≡ ok (k, t)))
        × (check_descends s (k, t) ≡ ok tt)
  unfolding select_checkpoint
  select_checkpoint-parts options s t source h outside =
      elim (Bool-cases (options.external_checkpoint_path != [])) [
        | inl path ↦ elim (Bool-cases (options.trust_store != [])) [
          | inl store ↦ absurd (ground arith)
          | inr store ↦
              let (k, hk, hd) =
                from_outside-parts s t source Mark.supplied_file
                  (supplied_checkpoint c w o options.external_checkpoint_path)
                  (rw (path, store) at h) in
              (k, inl hk, hd)
        ]
        | inr path ↦ elim (Bool-cases (options.trust_store != [])) [
          | inl store ↦
              let (k, hk, hd) =
                from_outside-parts s t source Mark.retained_store
                  (retained_checkpoint c w o options.trust_store options.expected_identity_id)
                  (rw (path, store) at h) in
              (k, inr hk, hd)
          | inr store ↦ absurd (ground arith)
        ]
      ]

  -- What the rest of the check has shown, where it ends with VERIFIED.
  judge_checkpoint-parts :
      (options : Options) (k : Checked)
      → IsVerdict (judge_checkpoint c w o options k)
      → (t : State) × (source : Mark) × (anchor : Option EvidenceAnchor) × (select_checkpoint c w o
            options k.state
          ≡ ok (t, source))
        × (is_embedded source ≡ false)
        × (verify_checkpoint_requirements options t ≡ ok tt)
        × (verify_checkpoint_receipt_boundaries k.receipts t.records ≡ ok tt)
        × (verify_receipt_authorization_at_state k.receipts t ≡ ok tt)
        × (load_external_anchor c w o options.external_anchor_path t k.receipts ≡ ok anchor)
        × (is_indeterminate k.receipts anchor t.epochs ≡ false)
        × (options.require_current_status ≡ false)
  unfolding judge_checkpoint
  judge_checkpoint-parts options k h =
      let (ts, hs, h1) =
        >>=-IsVerdict _ _
          (map_result-Refuses
            (λ (e : BundleResult). record e { identity_id = k.state.genesis.identity_id })
            (select_checkpoint c w o options k.state) (λ e. refl)
            (select_checkpoint-Refuses c w o options k.state))
          h in
      let hs' = map_err-eq-ok _ (select_checkpoint c w o options k.state) hs in
      let (u, hr, h2) =
        map_err-IsVerdict _ (verify_checkpoint_requirements options ts.0) _ (λ e p. cc) h1 in
      let (v, hb, h3) =
        map_err-IsVerdict _ (verify_checkpoint_receipt_boundaries k.receipts ts.0.records) _
          (λ e p. cc) h2 in
      let (x, ha, h4) =
        map_err-IsVerdict _ (verify_receipt_authorization_at_state k.receipts ts.0) _ (λ e p. cc)
          h3 in
      let (anchor, hl, h5) =
        map_err-IsVerdict _
          (load_external_anchor c w o options.external_anchor_path ts.0 k.receipts) _ (λ e p. cc)
          h4 in
      let (outside, past, closed) = conclude-verified options ts.1 _ _ h5 in
      (
        ts.0,
        ts.1,
        anchor,
        hs',
        outside,
        hr,
        hb,
        ha,
        hl,
        signing_status-closed k.receipts anchor ts.0 closed,
        past,
      )

  IsAuthorized-at :
      (rs : List Receipt) (t : State)
      → verify_receipt_authorization_at_state rs t ≡ ok tt
      → All (IsAuthorized t) rs
  unfolding verify_receipt_authorization_at_state
  IsAuthorized-at rs t h =
      check_authority-IsAuthorized t.epochs rs (map_err-eq-ok _ (check_authority t.epochs rs) h)

  judge-parts :
      (options : Options) (k : Checked)
      → IsVerdict (judge c w o options k)
      → (options.expected_identity_id ≡ k.state.genesis.identity_id)
        × IsVerdict (judge_checkpoint c w o options k)
  unfolding judge
  judge-parts options k h = elim (Bool-cases (options.expected_identity_id == [])) [
    | inl unpinned ↦ absurd (ground arith)
    | inr pinned ↦
        let (e, h1) =
          refuse_if-IsVerdict
            (not (is_identity_id options.expected_identity_id)
              || options.expected_identity_id != k.state.genesis.identity_id)
            (not_trusted_bplus (record k.result { identity_continuity = Mark.failed })
              Code.identity_pin_mismatch (Reason.of_code Code.identity_pin_mismatch))
            (λ u. judge_checkpoint c w o options k) (λ p. cc) (rw pinned at h) in
        (ground (arith, text_eq_iff options.expected_identity_id k.state.genesis.identity_id), h1)
  ]

  -- The verdict VERIFIED is given only to a bundle that is sound in itself, against an identity pin and
  -- a checkpoint of the same lifecycle that both came from outside it: there too each receipt is where
  -- its key may sign, the required minimum is met, and an anchor from outside covers all that a
  -- suspended or revoked epoch signed. It is never given where the current status was asked for.
  pub verify_bplus_bundle-verified :
      (members : Members) (m : ManifestDocument) (options : Options)
      → (verify_bplus_bundle c w o members m options).overall_trust ≡ Overall.verified
      → (s t : State) × (a : EvidenceAnchor) × (rs : List Receipt) × (anchor : Option
          EvidenceAnchor)
        × IsSound c w members s a rs
        × IsIndependent c w o options s t
        × (verify_checkpoint_requirements options t ≡ ok tt)
        × All (IsAuthorized t) rs
        × (load_external_anchor c w o options.external_anchor_path t rs ≡ ok anchor)
        × All (λ (x : ℤ × EpochState). IsCovered anchor x.1 rs) t.epochs
        × (options.require_current_status ≡ false)
  unfolding verify_bplus_bundle
  verify_bplus_bundle-verified members m options h =
      let (k, hk, h1) =
        >>=-IsVerdict (check_bundle c w members m options) (judge c w o options)
          (check_bundle-Refuses c w members m options) h in
      let (s, a, rs, sound, same_rs, same_s) = check_bundle-IsSound c w members m options k hk in
      let (pin, h2) = judge-parts options k h1 in
      let (t, source, anchor, found, outside, least, bounds, allowed, loaded, closed, past) =
        judge_checkpoint-parts options k h2 in
      let (point, hp, hd) = select_checkpoint-parts options k.state t source found outside in
      let (same, later, continues) = check_descends-parts k.state t point hd in
      (
        k.state,
        t,
        a,
        k.receipts,
        anchor,
        rw (same_s, same_rs) sound,
        record {
          pinned = pin;
          checkpoint = point;
          supplied = hp;
          same_identity = same;
          is_later = later;
          continues = continues;
        },
        least,
        IsAuthorized-at k.receipts t allowed,
        loaded,
        is_indeterminate-IsCovered k.receipts anchor t.epochs closed,
        past,
      )
