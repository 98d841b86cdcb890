-- ===== src/Bundle/Trust.antt =====
-- verify.go, loadTrustRoots, parseRevocations and canonicalSignerIDs, and verify_bplus.go,
-- exactLifecycleTrust: the keys that a bundle brings and those that its lifecycle derives.
pub mod Roots
use ueg.Common.{
  ℕ, Bool, true, false, not, ◌&&◌, ◌||◌, List, [], ◌∷◌, Option, none, some, Result, ok, err, ◌>>=◌,
  ◌>>◌, refuse_if, or_fail, map_err, Text, text, trim_space, any, length, lookup, ◌==◌, ◌!=◌,
  text_Eq, nat_Eq, if◌then◌else◌,
}
use ueg.Crypto.{Crypto}
use ueg.Canon.{Value, Items, str, arr, obj, nil, cons}
use ueg.Keys.{Pair, key_id, validate_key_id, load_public_pem_text, public_pem}
use ueg.Strictjson.{unmarshal, unmarshal_by}
use ueg.Ledger.{Petition, Trust}
use ueg.Ledger.Parse.{entries, sort_texts}
use ueg.Bundle.{Members, BundleWire, Reason, member}

abbrev pub roots_name : Text
roots_name = text "trust_roots.json"

abbrev pub revocations_name : Text
revocations_name = text "revocations.json"

-- parseRevocationRecord.
abbrev is_record_field : Text → Bool
is_record_field k = k == text "key_id" || k == text "reason" || k == text "revoked_at"

abbrev is_text : Value → Bool
is_text (str s) = true
is_text _ = false

unfoldable pub check_record_fields : Petition → Result Reason (Unit {0})
check_record_fields [] = ok tt
check_record_fields ((k, v) ∷ fields) = do
  refuse_if (not (is_record_field k && is_text v)) Reason.revocations_form
  check_record_fields fields

abbrev pub text_of : Option Value → Option Text
text_of (some (str s)) = some s
text_of _ = none

unfoldable pub parse_revocation_record : Petition → Result Reason Text
unfolding text
parse_revocation_record fields = do
  check_record_fields fields
  id ← or_fail (text_of (lookup (text "key_id") fields)) Reason.revocations_form
  refuse_if (trim_space id == []) Reason.revocations_form
  ok id

unfoldable pub revocation_entry : Value → Result Reason Text
revocation_entry (str s) = ok s
revocation_entry (obj fs) = parse_revocation_record (entries fs)
revocation_entry _ = err Reason.revocations_form

unfoldable pub revocation_text : Value → Result Reason Text
revocation_text (str s) = ok s
revocation_text _ = err Reason.revocations_form

unfoldable pub collect_ids : (Value → Result Reason Text) → Items → Result Reason (List Text)
collect_ids read nil = ok []
collect_ids read (cons v vs) = do id ← read v; ids ← collect_ids read vs; ok (id ∷ ids)

-- The object form has the one key revoked_key_ids.
abbrev pub revoked_key_ids : Petition → Result Reason (List Text)
revoked_key_ids ((k, arr items) ∷ []) =
    if k == text "revoked_key_ids"
    then collect_ids revocation_text items
    else err Reason.revocations_form
revoked_key_ids _ = err Reason.revocations_form

unfoldable pub revocations_of : Value → Result Reason (List Text)
revocations_of (arr items) = collect_ids revocation_entry items
revocations_of (obj fs) = revoked_key_ids (entries fs)
revocations_of _ = err Reason.revocations_form

unfoldable pub check_ids : List Text → List Text → Result Reason (Unit {0})
check_ids seen [] = ok tt
check_ids seen (id ∷ ids) = do
  refuse_if (trim_space id == []) Reason.revocation_empty
  refuse_if (any (λ other. other == id) seen) (Reason.duplicate_revocation id)
  check_ids (id ∷ seen) ids

-- A set of texts.
unfoldable pub unique : List Text → List Text
unique [] = []
unique (s ∷ l) = let rest = unique l in if any (λ t. t == s) rest then rest else s ∷ rest

module _ (c : Crypto) (w : BundleWire) where
  unfoldable pub parse_revocations : List ℕ → Result Reason (List Text)
  parse_revocations raw = do
    refuse_if (raw == []) Reason.revocations_missing
    value ← map_err Reason.bad_json (unmarshal w.wire.json raw)
    ids ← revocations_of value
    check_ids [] ids
    ok ids

  -- A root with its complete fingerprint.
  abbrev pub Root : Type 0
  Root = Text × Pair × Text

  unfoldable pub load_root : Bool → Text × Text → Result Reason Root
  load_root allow_legacy (id, pem) = do
    pair ← map_err (λ _. Reason.bad_root id) (load_public_pem_text c pem)
    map_err (λ _. Reason.bad_root id) (validate_key_id c pair id allow_legacy)
    canonical ← map_err (λ _. Reason.bad_root id) (key_id c pair)
    ok (id, pair, canonical)

  unfoldable pub load_roots : Bool → List (Text × Text) → Result Reason (List Root)
  load_roots allow_legacy [] = ok []
  load_roots allow_legacy (entry ∷ entries) = do
    root ← load_root allow_legacy entry
    roots ← load_roots allow_legacy entries
    ok (root ∷ roots)

  unfoldable pub canonical_of : Text → List Root → Option Text
  canonical_of id [] = none
  canonical_of id ((claim, pair, canonical) ∷ roots) =
      if claim == id then some canonical else canonical_of id roots

  unfoldable pub revoked_canonical : List Root → List Text → Result Reason (List Text)
  revoked_canonical roots [] = ok []
  revoked_canonical roots (id ∷ ids) = do
    canonical ← or_fail (canonical_of id roots) (Reason.unbound_revocation id)
    rest ← revoked_canonical roots ids
    ok (canonical ∷ rest)

  unfoldable pub active_roots : List Text → List Root → Trust
  active_roots revoked [] = []
  active_roots revoked ((id, pair, canonical) ∷ roots) =
      let rest = active_roots revoked roots in
      if any (λ other. other == canonical) revoked then rest else (id, pair) ∷ rest

  abbrev some_entries : List (Text × Text) → Result Reason (Unit {0})
  some_entries [] = err Reason.no_public_keys
  some_entries (e ∷ l) = ok tt

  abbrev some_active : Trust → Result Reason Trust
  some_active [] = err Reason.all_revoked
  some_active (e ∷ l) = ok (e ∷ l)

  unfoldable pub load_trust_roots : Members → Bool → Result Reason Trust
  load_trust_roots members allow_legacy = do
    raw ← or_fail (lookup roots_name members) (Reason.missing_member roots_name)
    keys ←
        map_err (λ _. Reason.invalid_member roots_name)
          (unmarshal_by w.wire.json w.read_trust_roots raw)
    some_entries keys
    roots ← load_roots allow_legacy keys
    revoked_ids ←
        map_err (λ _. Reason.invalid_member revocations_name)
          (parse_revocations (member members revocations_name))
    revoked ← revoked_canonical roots revoked_ids
    some_active (active_roots revoked roots)

module _ (c : Crypto) where
  unfoldable pub canonical_ids : Trust → List Text → Result Reason (List Text)
  canonical_ids trust [] = ok []
  canonical_ids trust (id ∷ ids) = do
    pair ← or_fail (lookup id trust) (Reason.inactive_signer id)
    canonical ← map_err Reason.bad_key (key_id c pair)
    rest ← canonical_ids trust ids
    ok (canonical ∷ rest)

  unfoldable pub canonical_signer_ids : List Text → Trust → Result Reason (List Text)
  canonical_signer_ids claimed trust = do
    ids ← canonical_ids trust claimed
    ok (sort_texts (unique ids))

  -- The text that PublicPEM returns, empty with an error.
  abbrev pem_or_empty : Result ueg.Keys.Error Text → Text
  pem_or_empty (ok pem) = pem
  pem_or_empty (err e) = []

  abbrev is_named_by : Result ueg.Keys.Error (Unit {0}) → Bool
  is_named_by (ok done) = true
  is_named_by (err e) = false

  unfoldable pub check_lifecycle_roots : Trust → Trust → Result Reason (Unit {0})
  check_lifecycle_roots bundle_trust [] = ok tt
  check_lifecycle_roots bundle_trust ((id, expected) ∷ lifecycle_trust) = do
    actual ← or_fail (lookup id bundle_trust) Reason.trust_missing
    refuse_if (not (is_named_by (validate_key_id c actual id false))) Reason.trust_missing
    refuse_if (pem_or_empty (public_pem c expected) != pem_or_empty (public_pem c actual))
        Reason.trust_differs
    check_lifecycle_roots bundle_trust lifecycle_trust

  unfoldable pub exact_lifecycle_trust : Trust → Trust → Result Reason (Unit {0})
  exact_lifecycle_trust bundle_trust lifecycle_trust = do
    refuse_if (length bundle_trust != length lifecycle_trust) Reason.trust_count
    check_lifecycle_roots bundle_trust lifecycle_trust
