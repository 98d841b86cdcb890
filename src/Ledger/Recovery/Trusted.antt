-- ===== src/Ledger/Recovery/Trusted.antt =====
-- transaction.go, recoverPendingFiles: the keys that it trusts for the whole chain.
use ueg.Common.{
  ℕ, ◌≡◌, ap, ◌∙◌, ◌⊎◌, inl, inr, true, not, List, [], ◌∷◌, some, ok, refuse_if, >>=-eq-ok, Text,
  Bool-cases, Result-cases, get_elem?, lookup, lookup-insert, text_eq_iff, text_Eq, ◌==◌, arith,
}
use ueg.Crypto.{Crypto}
use ueg.Keys.{Pair, legacy_key_id}
use ueg.Ledger.{Receipt, Petition, verify}
use ueg.Ledger.Verified.{verify-IsGenuine_at}
use ueg.Ledger.Parse.{Wire, PendingPair}
use ueg.Ledger.Recovery.{
  Files, recovery_trust, check_pending, plan_receipts, plan_petitions, recover_pair, chain_invalid,
}

module _ (c : Crypto) (w : Wire) (pair : Pair) where
  single :
      (id : Text) (p : Pair) (r : Receipt)
      → lookup id ((r.signing_key_id, pair) ∷ []) ≡ some p
      → id ≡ r.signing_key_id
  unfolding lookup
  single id p r h = ground (arith, h, text_eq_iff r.signing_key_id id)

  lookup-recovery_trust :
      (r : Receipt) (id : Text) (p : Pair)
      → lookup id (recovery_trust c w pair r) ≡ some p
      → (id ≡ r.signing_key_id) ⊎ (legacy_key_id c pair ≡ ok id)
  unfolding recovery_trust
  lookup-recovery_trust r id p h = elim (Result-cases (legacy_key_id c pair)) [
    | inr (e, q) ↦ inl (single id p r (rw (recovery_trust, q) at h))
    | inl (legacy, q) ↦ elim (Bool-cases (legacy == id)) [
      | inl s ↦ inr (q ∙ ap (λ x. ok x) ((text_eq_iff legacy id).0 s))
      | inr s ↦ inl (
          single id p r (
            rw (lookup-insert legacy id pair ((r.signing_key_id, pair) ∷ []), s) at
              (rw (recovery_trust, q) at h)))
    ]
  ]

  -- Recovery succeeds only where every receipt of the file, not the pending one alone, is signed under
  -- the key id of the pending receipt or the older form of its key's id. The chain of an identity that
  -- has changed its operational key has receipts under an earlier key, so it is refused.
  pub recover_pair-one_key :
      (pending : PendingPair) (d d' : Files) (r : Receipt) (p : Petition) (after : List ℕ)
      (rs : List Receipt)
      → recover_pair c w pair pending d ≡ ok d'
      → check_pending c w pair pending ≡ ok (r, p)
      → plan_receipts c w pair pending r d ≡ ok (after, rs)
      → (k : ℕ) (x : Receipt) → get_elem? rs k ≡ some x
      → (x.signing_key_id ≡ r.signing_key_id) ⊎ (legacy_key_id c pair ≡ ok x.signing_key_id)
  unfolding recover_pair
  recover_pair-one_key pending d d' r p after rs h hc hp k x hx =
      let h1 = rw (hc, hp) at h in
      let (q, hq, h2) = >>=-eq-ok (plan_petitions c w pair pending r d) _ h1 in
      let (u, hu, h3) =
        >>=-eq-ok
          (refuse_if (not (verify c rs (recovery_trust c w pair r)).is_ok)
            (chain_invalid (verify c rs (recovery_trust c w pair r)).findings))
          _ h2 in
      let good : (verify c rs (recovery_trust c w pair r)).is_ok ≡ true = ground (arith, hu) in
      let g = verify-IsGenuine_at c (recovery_trust c w pair r) rs k x good hx in
      lookup-recovery_trust r x.signing_key_id g.key g.trusted
