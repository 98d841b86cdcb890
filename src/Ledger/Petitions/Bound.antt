-- ===== src/Ledger/Petitions/Bound.antt =====
-- ledger.go, VerifyPetitions, against a description of the requests that it accepts.
use ueg.Common.{
  suc, ◌+◌, ◌≡◌, ◌≢◌, sym, ap, ◌∙◌, inl, inr, ◌↔◌, true, false, List, [], ◌∷◌, none, some, ok, Text,
  length, any, nat_eq_iff, text_eq_iff, Result-cases, Option-cases, text_Eq, ◌==◌, arith,
}
use ueg.Crypto.{Crypto}
use ueg.Ledger.{Receipt, Petition, VerifyResult, fail, fresh_result}
use ueg.Ledger.Chain.{IsFresh, any-IsFresh, IsFresh-any}
use ueg.Ledger.Petitions.{
  claimed_hash, named_receipt, receipt_by_id, petition_digest, check_petition,
  verify_petitions_from, verify_petitions,
}

-- A request names a receipt that holds the hash of its contents.
pub record IsBound (c : Crypto) (receipts : List Receipt) (p : Petition) : Type 0 where
  pub contents : petition_digest c p ≡ some (claimed_hash p)
  pub has_hash : claimed_hash p ≢ []
  pub has_receipt : named_receipt p ≢ []
  pub receipt : Receipt
  pub found : receipt_by_id receipts (named_receipt p) ≡ some receipt
  pub hash : receipt.petition_hash ≡ claimed_hash p

-- Every request is bound, and no two name one receipt.
abbrev pub AreBound : Crypto → List Receipt → List Text → List Petition → Type 0
AreBound c receipts seen [] = Unit
AreBound c receipts seen (p ∷ ps) =
    IsBound c receipts p
    × IsFresh (named_receipt p) seen
    × AreBound c receipts (named_receipt p ∷ seen) ps

module _ (c : Crypto) (receipts : List Receipt) where
  check_petition_parts :
      (seen : List Text) (p : Petition) (d : Text) (r : Receipt)
      → petition_digest c p ≡ some d
      → receipt_by_id receipts (named_receipt p) ≡ some r
      → check_petition c receipts seen p ≡ ok tt
      → (claimed_hash p ≡ d)
        × (claimed_hash p ≢ [])
        × (named_receipt p ≢ [])
        × (r.petition_hash ≡ claimed_hash p)
        × (any (λ o. o == named_receipt p) seen ≡ false)
  unfolding check_petition
  check_petition_parts seen p d r e f h = ground (
    arith,
    text_eq_iff (claimed_hash p) d,
    text_eq_iff (claimed_hash p) [],
    text_eq_iff (named_receipt p) [],
    text_eq_iff r.petition_hash (claimed_hash p),
  )

  check_petition_sound :
      (seen : List Text) (p : Petition)
      → check_petition c receipts seen p ≡ ok tt
      → IsBound c receipts p × IsFresh (named_receipt p) seen
  check_petition_sound seen p h = elim (Option-cases (petition_digest c p)) [
    | inl e ↦ absurd (unhashed e)
    | inr (d, e) ↦ elim (Option-cases (receipt_by_id receipts (named_receipt p))) [
      | inl f ↦ absurd (orphan d e f)
      | inr (r, f) ↦
          let (x, y, z, w, u) = check_petition_parts seen p d r e f h in
          (
            record {
              contents = e ∙ ap some (sym x);
              has_hash = y;
              has_receipt = z;
              receipt = r;
              found = f;
              hash = w;
            },
            any-IsFresh (named_receipt p) seen u,
          )
    ]
  ]
    where
      unhashed : petition_digest c p ≡ none → ⊥
      unhashed e = unfold check_petition in ground (arith, h)

      orphan :
          (d : Text)
          → petition_digest c p ≡ some d
          → receipt_by_id receipts (named_receipt p) ≡ none
          → ⊥
      orphan d e f = unfold check_petition in ground (arith, h)

  check_petition_complete :
      (seen : List Text) (p : Petition)
      → IsBound c receipts p
      → IsFresh (named_receipt p) seen
      → check_petition c receipts seen p ≡ ok tt
  unfolding check_petition
  check_petition_complete seen p b f = ground (
    arith,
    b.contents,
    b.has_hash,
    b.has_receipt,
    b.found,
    b.hash,
    IsFresh-any (named_receipt p) seen f,
    text_eq_iff (claimed_hash p) (claimed_hash p),
    text_eq_iff (claimed_hash p) [],
    text_eq_iff (named_receipt p) [],
    text_eq_iff b.receipt.petition_hash (claimed_hash p),
  )

  from_sound :
      (seen : List Text) (v : VerifyResult) (ps : List Petition)
      → (verify_petitions_from c receipts seen v ps).is_ok ≡ true
      → AreBound c receipts seen ps
  unfolding verify_petitions_from fail
  from_sound seen v [] h = tt
  from_sound seen v (p ∷ ps) h = elim (Result-cases (check_petition c receipts seen p)) [
    | inr (f, e) ↦ absurd (ground arith)
    | inl (u, e) ↦
        let (b, f) = check_petition_sound seen p e in
        (
          b,
          f,
          from_sound (named_receipt p ∷ seen) (record v { checked = suc v.checked }) ps
              (ground arith),
        )
  ]

  from_complete :
      (seen : List Text) (v : VerifyResult) (ps : List Petition)
      → AreBound c receipts seen ps
      → verify_petitions_from c receipts seen v ps ≡ record v { checked = v.checked + length ps }
  unfolding verify_petitions_from
  from_complete seen v [] h = ground arith
  from_complete seen v (p ∷ ps) (b, f, h) = ground (
    arith,
    check_petition_complete seen p b f,
    from_complete (named_receipt p ∷ seen) (record v { checked = suc v.checked }) ps h,
  )

  -- VerifyPetitions accepts exactly as many requests as receipts, each with a hash of its contents
  -- that the receipt it names holds, and no two naming one receipt.
  pub verify_petitions_iff :
      (ps : List Petition)
      → ((verify_petitions c receipts ps).is_ok ≡ true)
        ↔ ((length receipts ≡ length ps) × AreBound c receipts [] ps)
  unfolding verify_petitions fail
  verify_petitions_iff ps = (
    (λ h. (
      ground (arith, nat_eq_iff (length receipts) (length ps)),
      from_sound [] fresh_result ps (ground arith),
    )),
    λ h. ground (
      arith,
      from_complete [] fresh_result ps h.1,
      h.0,
      nat_eq_iff (length receipts) (length ps),
    ),
  )
