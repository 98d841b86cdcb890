-- ===== src/Identity/Mutation/Signed.antt =====
-- lifecycle.go: what signRecord signs, validateRecordBasics accepts.
use mathlib.Core.Path.{subst}
use ueg.Common.{
  ℕ, ◌≡◌, refl, sym, ap, ◌∙◌, inl, inr, Bool, true, false, not, List, Option, none, some, Result,
  ok, refuse_if, or_fail, >>=-eq-ok, pos, lt_int, Text, is_hex64, length, Bool-cases, Option-cases,
  Result-cases, int_Eq, text_Eq, nat_Eq, text_eq_iff, arith,
}
use ueg.Crypto.{Crypto, CryptoLaws, IsKeyPair}
use ueg.Canon.{object}
use ueg.Canon.Hex.{hash_jcs-IsHex64}
use ueg.Keys.{Pair, public_key_size, sign_b64, validate_key_id}
use ueg.Keys.Signing.{verify_b64-sign_b64}
use ueg.Identity.{LifecycleRecord, Error}
use ueg.Identity.Records.{
  Members, lifecycle_schema, protocol_version_text, record_domain, record_core, record_signed,
  domain_payload, validate_boundary, validate_reason, is_identity_id, is_key_id, optional_hex64,
  needs_retiring, needs_proof, sign_domain, verify_domain, compute_record_digest,
  validate_signature_encoding, signed_by, validate_retiring, validate_proof, validate_record_basics,
}
use ueg.Identity.Mutation.{sign_root, sign_retiring, sign_proof, sign_record}

-- A pair whose public half verifies what its private half signs.
pub record IsWorking (c : Crypto) (p : Pair) : Type 0 where
  pub halves : IsKeyPair c p.private p.public
  pub size : length p.public ≡ public_key_size

-- The fields of a record that validateRecordBasics reads without a key.
pub record IsFilled (r : LifecycleRecord) : Type 0 where
  pub schema : r.schema ≡ lifecycle_schema
  pub protocol : r.protocol_version ≡ protocol_version_text
  pub identity : is_identity_id r.identity_id ≡ true
  pub sequence : lt_int r.lifecycle_sequence (pos 0) ≡ false
  pub epoch : lt_int r.epoch_number (pos 0) ≡ false
  pub key : is_key_id r.operational_key_id ≡ true
  pub boundary : validate_boundary r.ledger_boundary ≡ true
  pub reason : validate_reason r.reason_code ≡ true
  pub anchor : optional_hex64 r.evidence_anchor_digest ≡ true

module _ (c : Crypto) (laws : CryptoLaws c) where
  encoding_valid :
      (p : Pair) (message : List ℕ) (signature : Text)
      → sign_b64 c p message ≡ ok signature
      → validate_signature_encoding c signature ≡ true
  unfolding sign_b64 validate_signature_encoding
  encoding_valid p message signature h = ground (
    arith,
    h,
    laws.base64_inverse (c.ed25519_sign p.private message),
    laws.sign_size p.private message,
  )

  pub sign_domain-signed_by :
      (p : Pair) (domain : Text) (m : Members) (signature : Text)
      → IsWorking c p
      → sign_domain c p domain m ≡ ok signature
      → signed_by c p domain m signature ≡ true
  unfolding sign_domain verify_domain
  sign_domain-signed_by p domain m signature w h = elim (Option-cases (domain_payload domain m)) [
    | inl e ↦ absurd (ground arith)
    | inr (payload, e) ↦ elim (Result-cases (sign_b64 c p payload)) [
      | inr (f, q) ↦ absurd (ground arith)
      | inl (s, q) ↦
          let same : s ≡ signature = ground arith in
          let good = verify_b64-sign_b64 c laws p payload w.halves w.size q in
          ground (arith, encoding_valid p payload s q, good, same)
    ]
  ]

  unchanged : {x y : LifecycleRecord} → ◌≡◌ {A = Result Error LifecycleRecord} (ok x) (ok y) → x ≡ y
  unchanged h = cc

  or_fail-eq-ok :
      {A : Type 0} (o : Option A) {a : A} → or_fail o Error.retiring_required ≡ ok a → o ≡ some a
  or_fail-eq-ok none h = cc
  or_fail-eq-ok (some a) h = cc

  refused-false : (e : Error) (b : Bool) → b ≡ true → refuse_if (not b) e ≡ ok tt
  refused-false e b h = rw h refl

  sign_retiring_lem :
      (x y : LifecycleRecord) (retiring : Option Pair)
      → ((p : Pair) → retiring ≡ some p → IsWorking c p)
      → x.retiring_signature_b64 ≡ none
      → sign_retiring c x retiring ≡ ok y
      → (o : Option Text) × (y ≡ record x { retiring_signature_b64 = o })
        × (validate_retiring c (record x { retiring_signature_b64 = o }) retiring ≡ ok tt)
  unfolding sign_retiring validate_retiring record_signed record_core
  sign_retiring_lem x y retiring w none_yet h = elim (Bool-cases (needs_retiring x.action)) [
    | inr q ↦
        let same : x ≡ y = unchanged (rw q at h) in
        (none, sym same ∙ ap (λ o. record x { retiring_signature_b64 = o }) none_yet, rw q refl)
    | inl q ↦
        let (p, hp, h1) = >>=-eq-ok (or_fail retiring Error.retiring_required) _ (rw q at h) in
        let (s, hs, h2) = >>=-eq-ok (sign_domain c p record_domain (record_signed x)) _ h1 in
        let given : retiring ≡ some p = or_fail-eq-ok retiring hp in
        let good = sign_domain-signed_by p record_domain (record_signed x) s (w p given) hs in
        (some s, sym (unchanged h2), rw (q, given) (refused-false _ _ good))
  ]

  sign_proof_lem :
      (x y : LifecycleRecord) (operational : Pair) (pair : Option Pair)
      → IsWorking c operational
      → (needs_proof x.action ≡ true → pair ≡ some operational)
      → x.operational_proof_b64 ≡ none
      → sign_proof c x pair ≡ ok y
      → (o : Option Text) × (y ≡ record x { operational_proof_b64 = o })
        × (validate_proof c (record x { operational_proof_b64 = o }) operational ≡ ok tt)
  unfolding sign_proof validate_proof record_signed record_core
  sign_proof_lem x y operational pair w e none_yet h = elim (Bool-cases (needs_proof x.action)) [
    | inr q ↦
        let same : x ≡ y = unchanged (rw q at h) in
        (none, sym same ∙ ap (λ o. record x { operational_proof_b64 = o }) none_yet, rw q refl)
    | inl q ↦
        let h1 = rw (q, e q) at h in
        let (s, hs, h2) =
          >>=-eq-ok (sign_domain c operational record_domain (record_signed x)) _ h1 in
        let good = sign_domain-signed_by operational record_domain (record_signed x) s w hs in
        (some s, sym (unchanged h2), rw q (refused-false _ _ good))
  ]

  or_fail-eq-some : (o : Option Text) {a : Text} → or_fail o Error.not_canonical ≡ ok a → o ≡ some a
  or_fail-eq-some none h = cc
  or_fail-eq-some (some a) h = cc

  compute_record_digest-IsHex64 :
      (r : LifecycleRecord) (d : Text) → compute_record_digest c r ≡ some d → is_hex64 d ≡ true
  unfolding compute_record_digest
  compute_record_digest-IsHex64 r d h = hash_jcs-IsHex64 c laws (object (record_core r)) d h

  abbrev signed : LifecycleRecord → Text → Text → Option Text → Option Text → LifecycleRecord
  signed r d s o q = record r {
    record_digest = d;
    recovery_signature_b64 = s;
    retiring_signature_b64 = o;
    operational_proof_b64 = q;
  }

  signed_digest :
      (r : LifecycleRecord) (d s : Text) (o q : Option Text)
      → compute_record_digest c (signed r d s o q) ≡ compute_record_digest c r
  unfolding compute_record_digest record_core
  signed_digest r d s o q = refl

  signed_members :
      (r : LifecycleRecord) (d s : Text) (o q : Option Text)
      → record_signed (signed r d s o q) ≡ record_signed (record r { record_digest = d })
  unfolding record_signed record_core
  signed_members r d s o q = refl

  signed_retiring :
      (r : LifecycleRecord) (d s : Text) (o q : Option Text) (retiring : Option Pair)
      → validate_retiring c (signed r d s o q) retiring
        ≡ validate_retiring c (signed r d s o r.operational_proof_b64) retiring
  unfolding validate_retiring record_signed record_core
  signed_retiring r d s o q none = refl
  signed_retiring r d s none q (some p) = refl
  signed_retiring r d s (some signature) q (some p) = refl

  signed_basics :
      (r : LifecycleRecord) (root operational : Pair) (retiring : Option Pair) (d s : Text)
      (o q : Option Text)
      → IsFilled r
      → validate_key_id c operational r.operational_key_id false ≡ ok tt
      → compute_record_digest c (signed r d s o q) ≡ some d
      → is_hex64 d ≡ true
      → signed_by c root record_domain (record_signed (signed r d s o q)) s ≡ true
      → validate_retiring c (signed r d s o q) retiring ≡ ok tt
      → validate_proof c (signed r d s o q) operational ≡ ok tt
      → validate_record_basics c (signed r d s o q) root operational retiring ≡ ok tt
  unfolding validate_record_basics
  signed_basics r root operational retiring d s o q f key digest hex sig vo vq = ground (
    arith,
    f.schema,
    f.protocol,
    f.identity,
    f.sequence,
    f.epoch,
    f.key,
    f.boundary,
    f.reason,
    f.anchor,
    key,
    digest,
    hex,
    sig,
    vo,
    vq,
    text_eq_iff d d,
    text_eq_iff r.schema lifecycle_schema,
    text_eq_iff r.protocol_version protocol_version_text,
  )

  -- What signRecord signs, validateRecordBasics accepts: where the record's own fields are lawful, its
  -- operational key id is that of the pair it makes operational, and the pairs sign what they verify.
  pub sign_record-validate_record_basics :
      (r r' : LifecycleRecord) (root operational : Pair) (retiring proof : Option Pair)
      → IsFilled r
      → validate_key_id c operational r.operational_key_id false ≡ ok tt
      → r.retiring_signature_b64 ≡ none
      → r.operational_proof_b64 ≡ none
      → IsWorking c root
      → IsWorking c operational
      → ((p : Pair) → retiring ≡ some p → IsWorking c p)
      → (needs_proof r.action ≡ true → proof ≡ some operational)
      → sign_record c r root retiring proof ≡ ok r'
      → validate_record_basics c r' root operational retiring ≡ ok tt
  unfolding sign_record sign_root validate_record_basics
  sign_record-validate_record_basics r r' root operational retiring proof f key none_yet no_proof wr
        wo wt given h =
      let (d, hd, h1) = >>=-eq-ok (or_fail (compute_record_digest c r) Error.not_canonical) _ h in
      let (rooted, hr, h2) = >>=-eq-ok (sign_root c (record r { record_digest = d }) root) _ h1 in
      let (s, hs, h3) =
        >>=-eq-ok
          (sign_domain c root record_domain (record_signed (record r { record_digest = d }))) _
          hr in
      let (retired, ht, h4) = >>=-eq-ok (sign_retiring c rooted retiring) _ h2 in
      let er = sym (unchanged h3) in
      let (o, eo, vo) = sign_retiring_lem rooted retired retiring wt (rw er none_yet) ht in
      let (q, eq, vq) =
        sign_proof_lem retired r' operational proof wo (rw (eo, er) given) (rw (eo, er) no_proof)
          h4 in
      let digest = or_fail-eq-some (compute_record_digest c r) hd in
      let whole = eo ∙ ap (λ (x : LifecycleRecord). record x { retiring_signature_b64 = o }) er in
      let vo' =
        subst
          (λ (x : LifecycleRecord).
            validate_retiring c (record x { retiring_signature_b64 = o }) retiring ≡ ok tt)
          er vo in
      let vq' =
        subst
          (λ (x : LifecycleRecord).
            validate_proof c (record x { operational_proof_b64 = q }) operational ≡ ok tt)
          whole vq in
      let sig =
        sign_domain-signed_by root record_domain (record_signed (record r { record_digest = d })) s
          wr hs in
      subst (λ (x : LifecycleRecord). validate_record_basics c x root operational retiring ≡ ok tt)
        (sym (eq ∙ ap (λ (x : LifecycleRecord). record x { operational_proof_b64 = q }) whole))
        (signed_basics r root operational retiring d s o q f key (signed_digest r d s o q ∙ digest)
          (compute_record_digest-IsHex64 r d digest) (rw (signed_members r d s o q) sig)
          (signed_retiring r d s o q retiring ∙ vo') vq')
