-- ===== src/Bundle/Trust/Roots.antt =====
-- verify.go, loadTrustRoots, and verify_bplus.go, exactLifecycleTrust: what the keys are worth under
-- which the seals of a bundle are checked.
use ueg.Common.{
  ◌≡◌, refl, inl, inr, true, false, not, List, [], ◌∷◌, some, Result, ok, err, refuse_if, or_fail,
  map_err, map_err-eq-ok, >>=-eq-ok, ok-injective, All, Bool-cases, Option-cases, Text, text_eq_iff,
  text_Eq, nat_Eq, any, length, lookup, ◌==◌, ◌!=◌, arith,
}
use ueg.Crypto.{Crypto}
use ueg.Keys.{Pair, key_id, validate_key_id, load_public_pem_text, public_pem}
use ueg.Strictjson.{unmarshal_by}
use ueg.Ledger.{Trust}
use ueg.Bundle.{Members, BundleWire, Reason, member}
use ueg.Bundle.Trust.{
  Root, roots_name, revocations_name, parse_revocations, load_root, load_roots, revoked_canonical,
  active_roots, some_entries, some_active, load_trust_roots, pem_or_empty, is_named_by,
  check_lifecycle_roots, exact_lifecycle_trust,
}

-- A key under the id of its complete fingerprint.
abbrev pub IsNamed : Crypto → Text × Pair → Type 0
IsNamed c (id, pair) = validate_key_id c pair id false ≡ ok tt

-- A key of the lifecycle that the bundle has too: under the same id, with that fingerprint, and with the
-- same public PEM text.
abbrev pub IsBrought : Crypto → Trust → Text × Pair → Type 0
IsBrought c trust (id, expected) =
    (actual : Pair) × (lookup id trust ≡ some actual)
    × IsNamed c (id, actual)
    × (pem_or_empty c (public_pem c expected) ≡ pem_or_empty c (public_pem c actual))

module _ (c : Crypto) (w : BundleWire) where
  load_root-IsNamed :
      (entry : Text × Text) (r : Root c w) → load_root c w false entry ≡ ok r → IsNamed c (r.0, r.1)
  unfolding load_root
  load_root-IsNamed (id, pem) r h =
      let (pair, hp, h1) =
        >>=-eq-ok (map_err (λ _. Reason.bad_root id) (load_public_pem_text c pem)) _ h in
      let (u, hv, h2) =
        >>=-eq-ok (map_err (λ _. Reason.bad_root id) (validate_key_id c pair id false)) _ h1 in
      let (k, hk, h3) = >>=-eq-ok (map_err (λ _. Reason.bad_root id) (key_id c pair)) _ h2 in
      rw (← ok-injective h3) (map_err-eq-ok _ (validate_key_id c pair id false) hv)

  load_roots-IsNamed :
      (entries : List (Text × Text)) (roots : List (Root c w))
      → load_roots c w false entries ≡ ok roots
      → All (λ (r : Root c w). IsNamed c (r.0, r.1)) roots
  unfolding load_roots
  load_roots-IsNamed [] roots h = rw (← ok-injective h) tt
  load_roots-IsNamed (e ∷ entries) roots h =
      let (r, hr, h1) = >>=-eq-ok (load_root c w false e) _ h in
      let (rs, hs, h2) = >>=-eq-ok (load_roots c w false entries) _ h1 in
      rw (← ok-injective h2) (load_root-IsNamed e r hr, load_roots-IsNamed entries rs hs)

  active_roots-IsNamed :
      (revoked : List Text) (roots : List (Root c w))
      → All (λ (r : Root c w). IsNamed c (r.0, r.1)) roots
      → All (IsNamed c) (active_roots c w revoked roots)
  unfolding active_roots
  active_roots-IsNamed revoked [] h = tt
  active_roots-IsNamed revoked ((id, pair, canonical) ∷ roots) (n, h) =
      let rest = active_roots-IsNamed revoked roots h in
      elim (Bool-cases (any (λ other. other == canonical) revoked)) [
        | inl e ↦ rw e rest
        | inr e ↦ rw e (n, rest)
      ]

  pub load_trust_roots-IsNamed :
      (members : Members) (trust : Trust)
      → load_trust_roots c w members false ≡ ok trust
      → All (IsNamed c) trust
  unfolding load_trust_roots
  load_trust_roots-IsNamed members trust h =
      let (raw, h0, i0) =
        >>=-eq-ok (or_fail (lookup roots_name members) (Reason.missing_member roots_name)) _ h in
      let (keys, h1, i1) =
        >>=-eq-ok
          (map_err (λ _. Reason.invalid_member roots_name)
            (unmarshal_by w.wire.json w.read_trust_roots raw))
          _ i0 in
      let (u, h2, i2) = >>=-eq-ok (some_entries c w keys) _ i1 in
      let (roots, h3, i3) = >>=-eq-ok (load_roots c w false keys) _ i2 in
      let (ids, h4, i4) =
        >>=-eq-ok
          (map_err (λ _. Reason.invalid_member revocations_name)
            (parse_revocations c w (member members revocations_name)))
          _ i3 in
      let (revoked, h5, i5) = >>=-eq-ok (revoked_canonical c w roots ids) _ i4 in
      rw (← some_active_lem (active_roots c w revoked roots) i5)
        (active_roots-IsNamed revoked roots (load_roots-IsNamed keys roots h3))
    where
      some_active_lem : (t : Trust) → some_active c w t ≡ ok trust → t ≡ trust
      some_active_lem [] e = cc
      some_active_lem (x ∷ t) e = ok-injective e

module _ (c : Crypto) (trust : Trust) where
  is_named_lem : (r : Result ueg.Keys.Error (Unit {0})) → is_named_by c r ≡ true → r ≡ ok tt
  is_named_lem (ok u) h = refl
  is_named_lem (err e) h = cc

  check_lifecycle_roots-IsBrought :
      (lifecycle : Trust)
      → check_lifecycle_roots c trust lifecycle ≡ ok tt
      → All (IsBrought c trust) lifecycle
  unfolding check_lifecycle_roots
  check_lifecycle_roots-IsBrought [] h = tt
  check_lifecycle_roots-IsBrought ((id, expected) ∷ lifecycle) h =
      elim (Option-cases (lookup id trust)) [
        | inl e ↦ absurd (ground (arith, h, e))
        | inr (actual, e) ↦
            let h0 = rw e at h in
            let (u, hn, h1) =
              >>=-eq-ok
                (refuse_if (not (is_named_by c (validate_key_id c actual id false)))
                  Reason.trust_missing)
                _ h0 in
            let (v, hp, h2) =
              >>=-eq-ok
                (refuse_if
                  (pem_or_empty c (public_pem c expected) != pem_or_empty c (public_pem c actual))
                  Reason.trust_differs)
                _ h1 in
            (
              (
                actual,
                e,
                is_named_lem (validate_key_id c actual id false) (ground (arith, hn)),
                ground (
                  arith,
                  hp,
                  text_eq_iff (pem_or_empty c (public_pem c expected))
                      (pem_or_empty c (public_pem c actual)),
                ),
              ),
              check_lifecycle_roots-IsBrought lifecycle h2,
            )
      ]

  pub exact_lifecycle_trust-IsBrought :
      (lifecycle : Trust)
      → exact_lifecycle_trust c trust lifecycle ≡ ok tt
      → (length trust ≡ length lifecycle) × All (IsBrought c trust) lifecycle
  unfolding exact_lifecycle_trust
  exact_lifecycle_trust-IsBrought lifecycle h =
      let (u, hl, h1) =
        >>=-eq-ok (refuse_if (length trust != length lifecycle) Reason.trust_count) _ h in
      (ground (arith, hl), check_lifecycle_roots-IsBrought lifecycle h1)
