-- ===== src/Bundle/Seals.antt =====
-- verify.go: the records of a bundle, and the two seals that its signer puts on the receipts and on
-- the archive; bundle.go: how these are made.
use ueg.Common.{
  ℕ, ◌+◌, ◌-◌, ◌*◌, not, ◌&&◌, ◌||◌, List, [], ◌∷◌, ◌++◌, Option, none, some, Result, ok, err,
  ◌>>=◌, ◌>>◌, refuse_if, or_fail, map_err, Text, text, utf8, join, split_rune, is_hex64, every,
  lookup, last?, leb, map, same_optional, ◌==◌, ◌!=◌, text_Eq, nat_Eq, if◌then◌else◌,
}
use ueg.Crypto.{Crypto}
use ueg.Canon.{Value, str, strs, object, encode, hash_jcs, sha256_hex}
use ueg.Canon.Merkle.{merkle_root_hex}
use ueg.Keys.{Pair, verify_b64}
use ueg.Strictjson.{unmarshal_by}
use ueg.Ledger.{Receipt, Petition, Trust}
use ueg.Ledger.Parse.{sort_texts, parse_receipt_strict, parse_petition}
use ueg.Ledger.Recovery.{is_blank}
use ueg.Bundle.{Members, BundleWire, BundleSealDocument, ReceiptSealDocument, Reason, member}
use ueg.Bundle.Manifest.{manifest_name, seal_name}
use ueg.Bundle.Trust.{unique}

abbrev pub receipts_name : Text
receipts_name = text "receipts.ndjson"

abbrev pub seals_name : Text
seals_name = text "seals.json"

-- The records of the lines that are not blank.
unfoldable pub parse_records :
    {A : Type 0}
    → (List ℕ → Result ueg.Ledger.Parse.Error A)
    → List (List ℕ)
    → Result Reason (List A)
parse_records parse [] = ok []
parse_records parse (line ∷ lines) =
    let blank : Result Reason (List _) = parse_records parse lines in
    if is_blank line then blank else do
      a ← map_err Reason.bad_line (parse line)
      rest ← parse_records parse lines
      ok (a ∷ rest)

abbrev some_receipts : List Receipt → Result Reason (List Receipt)
some_receipts [] = err Reason.no_receipts
some_receipts (r ∷ rs) = ok (r ∷ rs)

unfoldable pub parse_receipts : BundleWire → Members → Result Reason (List Receipt)
parse_receipts w members = do
  raw ← or_fail (lookup receipts_name members) (Reason.missing_member receipts_name)
  receipts ← parse_records (parse_receipt_strict w.wire) (split_rune b'\n' raw)
  some_receipts receipts

unfoldable pub parse_petitions : BundleWire → List ℕ → Result Reason (List Petition)
parse_petitions w raw = parse_records (parse_petition w.wire) (split_rune b'\n' raw)

-- encoding/hex.DecodeString.
unfoldable pub hex_value : ℕ → Option ℕ
hex_value r =
    if leb b'0' r && leb r b'9'
    then some (r - b'0')
    else if leb b'a' r && leb r b'f'
    then some (r - b'a' + 10)
    else if leb b'A' r && leb r b'F'
    then some (r - b'A' + 10)
    else none

abbrev push_byte : Option ℕ → Option ℕ → Option (List ℕ) → Option (List ℕ)
push_byte (some high) (some low) (some bytes) = some ((16 * high + low) ∷ bytes)
push_byte _ _ _ = none

unfoldable pub hex_decode : Text → Option (List ℕ)
unfolding hex_value
hex_decode [] = some []
hex_decode (a ∷ []) = none
hex_decode (a ∷ b ∷ s) = push_byte (hex_value a) (hex_value b) (hex_decode s)

unfoldable pub receipt_leaves : List Receipt → Result Reason (List (List ℕ))
receipt_leaves [] = ok []
receipt_leaves (r ∷ rs) = do
  leaf ← or_fail (hex_decode r.receipt_id) Reason.receipt_id_not_hex
  leaves ← receipt_leaves rs
  ok (leaf ∷ leaves)

unfoldable pub member_names : Members → List Text
member_names [] = []
member_names ((name, bytes) ∷ members) =
    let rest = member_names members in if name == seal_name then rest else name ∷ rest

-- The set of policies of some receipts, in order.
unfoldable pub policies_of : List Receipt → List Text
policies_of rs = sort_texts (unique (map (λ (r : Receipt). r.policy_hash) rs))

abbrev pub first_id : List Receipt → Option Text
first_id [] = none
first_id (r ∷ rs) = some r.receipt_id

abbrev pub last_id : List Receipt → Option Text
last_id rs = elim (last? rs) [ none ↦ none | some r ↦ some r.receipt_id ]

-- What the id of a seal is taken over.
unfoldable pub bundle_seal_base : BundleSealDocument → List (Text × Value)
unfolding text
bundle_seal_base s =
    (text "created_at", str s.created_at)
    ∷ (text "manifest_sha256", str s.manifest_sha256)
    ∷ (text "members_merkle_root", str s.members_merkle_root)
    ∷ (text "signing_key_id", str s.signing_key_id)
    ∷ (text "version", str s.version)
    ∷ []

unfoldable pub receipt_seal_base : ReceiptSealDocument → List (Text × Value)
unfolding text
receipt_seal_base s =
    (text "first_receipt_id", str s.first_receipt_id)
    ∷ (text "last_receipt_id", str s.last_receipt_id)
    ∷ (text "merkle_root", str s.merkle_root)
    ∷ (text "policy_hash_set", strs s.policy_hash_set)
    ∷ (text "signing_key_id", str s.signing_key_id)
    ∷ (
      text "window",
      object (
          (text "end_iso8601", str s.window.end_iso8601)
          ∷ (text "start_iso8601", str s.window.start_iso8601)
          ∷ (text "type", str s.window.window_type)
          ∷ []),
    )
    ∷ []

module _ (c : Crypto) where
  unfoldable pub member_leaves : Members → List Text → List (List ℕ)
  unfolding text
  member_leaves members [] = []
  member_leaves members (name ∷ names) =
      c.sha256 (utf8 (name ++ (text ":" ++ sha256_hex c (member members name))))
      ∷ member_leaves members names

  -- The Merkle root over the members but the seal, by name.
  unfoldable pub members_root : Members → Option Text
  members_root members =
      merkle_root_hex c (member_leaves members (sort_texts (member_names members)))

  -- The end of both checks: the id is the hash of the base, and the signature is over both.
  unfoldable pub check_sealed : Pair → List (Text × Value) → Text → Text → Result Reason (Unit {0})
  unfolding text
  check_sealed pair base id signature = do
    refuse_if (not (same_optional (hash_jcs c (object base)) (some id))) Reason.seal_identity
    canonical ←
        or_fail (encode (object (base ++ (text "seal_id", str id) ∷ []))) Reason.not_canonicalizable
    refuse_if (not (verify_b64 c pair (utf8 canonical) signature)) Reason.seal_signature

  unfoldable pub check_bundle_seal : Members → Trust → BundleSealDocument → Result Reason Text
  unfolding text
  check_bundle_seal members trust s = do
    refuse_if
        (s.version != text "v1"
          || s.created_at == []
          || not (is_hex64 s.seal_id)
          || not (is_hex64 s.manifest_sha256)
          || not (is_hex64 s.members_merkle_root))
        Reason.seal_fields
    pair ← or_fail (lookup s.signing_key_id trust) Reason.seal_key
    refuse_if (s.manifest_sha256 != sha256_hex c (member members manifest_name))
        Reason.seal_manifest
    refuse_if (not (same_optional (members_root members) (some s.members_merkle_root)))
        Reason.seal_merkle_root
    check_sealed pair (bundle_seal_base s) s.seal_id s.signature_b64
    ok s.signing_key_id

  unfoldable pub verify_bundle_seal : BundleWire → Members → Trust → Result Reason Text
  verify_bundle_seal w members trust = do
    raw ← or_fail (lookup seal_name members) (Reason.missing_member seal_name)
    s ←
        map_err (λ _. Reason.invalid_member seal_name)
          (unmarshal_by w.wire.json w.read_bundle_seal raw)
    check_bundle_seal members trust s

  unfoldable pub check_receipt_seal :
      List Receipt → Trust → ReceiptSealDocument → Result Reason Text
  unfolding text
  check_receipt_seal receipts trust s = do
    refuse_if
        (not (is_hex64 s.first_receipt_id)
          || not (is_hex64 s.last_receipt_id)
          || not (is_hex64 s.merkle_root)
          || not (is_hex64 s.seal_id)
          || s.window.window_type != text "time"
          || s.window.start_iso8601 == []
          || s.window.end_iso8601 == [])
        Reason.seal_fields
    refuse_if (not (every is_hex64 s.policy_hash_set)) Reason.seal_policy_hash
    pair ← or_fail (lookup s.signing_key_id trust) Reason.seal_key
    refuse_if (not (same_optional (first_id receipts) (some s.first_receipt_id))) Reason.seal_first
    refuse_if (not (same_optional (last_id receipts) (some s.last_receipt_id))) Reason.seal_last
    leaves ← receipt_leaves receipts
    refuse_if (not (same_optional (merkle_root_hex c leaves) (some s.merkle_root)))
        Reason.seal_merkle_root
    refuse_if (join (0 ∷ []) (policies_of receipts) != join (0 ∷ []) s.policy_hash_set)
        Reason.seal_policies
    check_sealed pair (receipt_seal_base s) s.seal_id s.signature_b64
    ok s.signing_key_id

  abbrev the_one : List ReceiptSealDocument → Result Reason ReceiptSealDocument
  the_one (s ∷ []) = ok s
  the_one _ = err Reason.seal_count

  unfoldable pub verify_receipt_seal :
      BundleWire → Members → List Receipt → Trust → Result Reason Text
  verify_receipt_seal w members receipts trust = do
    raw ← or_fail (lookup seals_name members) (Reason.missing_member seals_name)
    seals ←
        map_err (λ _. Reason.invalid_member seals_name)
          (unmarshal_by w.wire.json w.read_receipt_seals raw)
    s ← the_one seals
    check_receipt_seal receipts trust s
