-- ===== src/Ledger/Verified.antt =====
-- ledger.go, Verify: soundness and completeness for the chains of Ledger/Chain.antt.
use ueg.Common.{
  ℕ, zero, suc, ◌+◌, ◌≡◌, ap, ◌∙◌, inl, inr, ◌↔◌, true, false, List, [], ◌∷◌, Option, none, some,
  ok, pos, Text, utf8, is_hex64, length, any, get_elem?, lookup, Result-cases, Option-cases,
  text_eq_iff, text_Eq, int_eq_iff, ◌==◌, arith,
}
use ueg.Crypto.{Crypto}
use ueg.Keys.{Pair, verify_b64}
use ueg.Ledger.{
  Receipt, Trust, VerifyResult, fail, fresh_result, check_link, compute_id, check_receipt,
  verify_from, verify,
}
use ueg.Ledger.Chain.{
  IsGenuine, IsLinked, IsFresh, IsChainFrom, IsChain, any-IsFresh, IsFresh-any, check_link-IsLinked,
  IsLinked-check_link,
}

module _ (c : Crypto) (trust : Trust) where
  check_receipt-parts :
      (i : ℕ) (seen : List Text) (prev : Option Text) (r : Receipt) (p : Pair)
      → lookup r.signing_key_id trust ≡ some p
      → check_receipt c trust i seen prev r ≡ ok tt
      → (r.sequence_no ≡ pos i)
        × (is_hex64 r.receipt_id ≡ true)
        × (compute_id c r ≡ some r.receipt_id)
        × (verify_b64 c p (utf8 r.receipt_id) r.signature_b64 ≡ true)
        × (any (λ o. o == r.receipt_id) seen ≡ false)
        × (check_link i prev r ≡ ok tt)
  unfolding check_receipt
  check_receipt-parts i seen prev r p t h = elim (Option-cases (compute_id c r)) [
    | inl e ↦ absurd (ground arith)
    | inr (d, e) ↦ ground (arith, int_eq_iff r.sequence_no (pos i), text_eq_iff d r.receipt_id)
  ]

  check_receipt_sound :
      (i : ℕ) (seen : List Text) (prev : Option Text) (r : Receipt)
      → check_receipt c trust i seen prev r ≡ ok tt
      → IsGenuine c trust i r × IsLinked i prev r × IsFresh r.receipt_id seen
  check_receipt_sound i seen prev r h = elim (Option-cases (lookup r.signing_key_id trust)) [
    | inl e ↦ absurd (untrusted e)
    | inr (p, e) ↦
        let (a, b, d, s, f, l) = check_receipt-parts i seen prev r p e h in
        (
          record { position = a; hex_id = b; contents = d; key = p; trusted = e; signed = s },
          check_link-IsLinked i prev r l,
          any-IsFresh r.receipt_id seen f,
        )
  ]
    where
      untrusted : lookup r.signing_key_id trust ≡ none → ⊥
      untrusted e = unfold check_receipt in ground (arith, h)

  check_receipt_complete :
      (i : ℕ) (seen : List Text) (prev : Option Text) (r : Receipt)
      → IsGenuine c trust i r
      → IsLinked i prev r
      → IsFresh r.receipt_id seen
      → check_receipt c trust i seen prev r ≡ ok tt
  unfolding check_receipt
  check_receipt_complete i seen prev r g l f = ground (
    arith,
    g.position,
    g.hex_id,
    g.contents,
    g.trusted,
    g.signed,
    int_eq_iff r.sequence_no (pos i),
    text_eq_iff r.receipt_id r.receipt_id,
    IsFresh-any r.receipt_id seen f,
    IsLinked-check_link i prev r l,
  )

  verify_from_sound :
      (i : ℕ) (seen : List Text) (prev : Option Text) (v : VerifyResult) (rs : List Receipt)
      → (verify_from c trust i seen prev v rs).is_ok ≡ true
      → IsChainFrom c trust i seen prev rs
  unfolding verify_from fail
  verify_from_sound i seen prev v [] h = tt
  verify_from_sound i seen prev v (r ∷ rs) h =
      elim (Result-cases (check_receipt c trust i seen prev r)) [
        | inr (f, e) ↦ absurd (ground arith)
        | inl (u, e) ↦
            let (g, l, f) = check_receipt_sound i seen prev r e in
            (
              g,
              l,
              f,
              verify_from_sound (suc i) (r.receipt_id ∷ seen) (some r.receipt_id)
                  (record v { checked = suc v.checked }) rs (ground arith),
            )
      ]

  verify_from_complete :
      (i : ℕ) (seen : List Text) (prev : Option Text) (v : VerifyResult) (rs : List Receipt)
      → IsChainFrom c trust i seen prev rs
      → verify_from c trust i seen prev v rs ≡ record v { checked = v.checked + length rs }
  unfolding verify_from
  verify_from_complete i seen prev v [] h = ground arith
  verify_from_complete i seen prev v (r ∷ rs) (g, l, f, h) = ground (
    arith,
    check_receipt_complete i seen prev r g l f,
    verify_from_complete (suc i) (r.receipt_id ∷ seen) (some r.receipt_id)
        (record v { checked = suc v.checked }) rs h,
  )

  -- Verify accepts exactly the chains: every receipt genuine at its position, linked to the one
  -- before it, and with an id that no receipt before it has.
  pub verify_iff : (rs : List Receipt) → ((verify c rs trust).is_ok ≡ true) ↔ IsChain c trust rs
  unfolding verify
  verify_iff rs = (
    verify_from_sound 0 [] none fresh_result rs,
    λ h. ap (λ (v : VerifyResult). v.is_ok) (verify_from_complete 0 [] none fresh_result rs h),
  )

  -- An accepted chain has no finding, and all its receipts are counted.
  verify-checked :
      (rs : List Receipt)
      → (verify c rs trust).is_ok ≡ true
      → verify c rs trust ≡ record { is_ok = true; checked = length rs; findings = [] }
  unfolding verify
  verify-checked rs h =
      verify_from_complete 0 [] none fresh_result rs (verify_from_sound 0 [] none fresh_result rs h)
      ∙ ground arith

  IsGenuine-at :
      (i k : ℕ) (seen : List Text) (prev : Option Text) (rs : List Receipt) (r : Receipt)
      → IsChainFrom c trust i seen prev rs
      → get_elem? rs k ≡ some r
      → IsGenuine c trust (i + k) r
  IsGenuine-at i k seen prev [] r h e = cc
  IsGenuine-at i zero seen prev (x ∷ rs) r (g, l, f, h) e = ground (arith, g)
  IsGenuine-at i (suc k) seen prev (x ∷ rs) r (g, l, f, h) e =
      ground (arith, IsGenuine-at (suc i) k (x.receipt_id ∷ seen) (some x.receipt_id) rs r h e)

  linked_at :
      (i k : ℕ) (seen : List Text) (prev : Option Text) (rs : List Receipt) (a b : Receipt)
      → IsChainFrom c trust i seen prev rs
      → get_elem? rs k ≡ some a
      → get_elem? rs (suc k) ≡ some b
      → b.prev_receipt_id ≡ some a.receipt_id
  linked_at i k seen prev [] a b h e f = cc
  linked_at i zero seen prev (x ∷ []) a b h e f = cc
  linked_at i zero seen prev (x ∷ y ∷ rs) a b (g, l, f', (g', (id, p, q), f'', rest)) e f =
      ground arith
  linked_at i (suc k) seen prev (x ∷ rs) a b (g, l, f', h) e f =
      linked_at (suc i) k (x.receipt_id ∷ seen) (some x.receipt_id) rs a b h e f

  -- In an accepted chain a receipt names the id of the one before it.
  pub verify-linked_at :
      (rs : List Receipt) (k : ℕ) (a b : Receipt)
      → (verify c rs trust).is_ok ≡ true
      → get_elem? rs k ≡ some a
      → get_elem? rs (suc k) ≡ some b
      → b.prev_receipt_id ≡ some a.receipt_id
  verify-linked_at rs k a b h e f = linked_at 0 k [] none rs a b ((verify_iff rs).0 h) e f

  -- In an accepted chain the receipt at a position is genuine there.
  pub verify-IsGenuine_at :
      (rs : List Receipt) (k : ℕ) (r : Receipt)
      → (verify c rs trust).is_ok ≡ true
      → get_elem? rs k ≡ some r
      → IsGenuine c trust k r
  verify-IsGenuine_at rs k r h e =
      let q : 0 + k ≡ k = omega arith in
      rw q at (IsGenuine-at 0 k [] none rs r ((verify_iff rs).0 h) e)
