-- ===== src/Identity/Artifacts.antt =====
-- artifacts.go: cards, checkpoints and evidence anchors of an identity. The raw bytes are read by a
-- parameter, how encoding/json fills a struct; the trust store is the file of one identity.
pub mod Checkpoints
pub mod Agreed
use ueg.Common.{
  ℕ, zero, suc, Bool, true, false, not, ◌&&◌, ◌||◌, List, [], ◌∷◌, ◌++◌, Option, none, some, Result,
  ok, err, ◌>>=◌, ◌>>◌, refuse_if, or_fail, map_err, ℤ, pos, negsuc, lt_int, minus_one, int_succ,
  ◌*◌, Text, text, utf8_decode, split_rune, trim_space, is_hex64, length, get_elem?, lookup, ltb,
  leb, ◌==◌, ◌!=◌, int_Eq, text_Eq, if◌then◌else◌,
}
use ueg.Crypto.{Crypto}
use ueg.Canon.{int, str, hash_jcs, object}
use ueg.Keys.{Pair, validate_key_id}
use ueg.Strictjson.{Json, unmarshal_by}
use ueg.Identity.{
  Status, Genesis, LedgerBoundary, LifecycleRecord, EpochState, State, status_Eq, active_of,
}
use ueg.Identity.Records.{
  Members, protocol_version_text, boundary_map, validate_boundary, is_identity_id, is_key_id, is_ok,
  sign_domain, verify_domain, validate_signature_encoding,
}
use ueg.Identity.Lifecycle.{validate_genesis, derive_state}

-- A genesis that the text does not have is nil.
pub record IdentityCard : Type 0 where
  pub schema : Text
  pub protocol_version : Text
  pub identity_id : Text
  pub advisory_label : Text
  pub genesis : Option Genesis

pub record EvidenceAnchor : Type 0 where
  pub schema : Text
  pub protocol_version : Text
  pub identity_id : Text
  pub epoch_number : ℤ
  pub operational_key_id : Text
  pub ledger_boundary : LedgerBoundary
  pub lifecycle_sequence : ℤ
  pub lifecycle_record_digest : Text
  pub anchor_digest : Text
  pub signature_b64 : Text

pub record LifecycleCheckpoint : Type 0 where
  pub schema : Text
  pub protocol_version : Text
  pub identity_id : Text
  pub genesis : Option Genesis
  pub lifecycle_records : List LifecycleRecord
  pub checkpoint_sequence : ℤ
  pub checkpoint_digest : Text

pub record ImportResult : Type 0 where
  pub identity_id : Text
  pub sequence : ℤ
  pub digest : Text
  pub replaced_sequence : Option ℤ

pub data Error : Type 0 where
  state_required boundary_invalid active_key_required not_canonical signing_failed : Error
  anchor_fields unknown_checkpoint unknown_epoch anchor_digest_mismatch anchor_signature : Error
  card_fields too_long checkpoint_fields not_the_head : Error
  line_too_long : ℕ → Error
  too_many_records no_records other_identity rollback conflict fork : Error
  pin_required not_stored : Error
  fork_at : ℕ → Error
  invalid_json : ueg.Strictjson.Error → Error
  lifecycle : ueg.Identity.Error → Error
  stored_invalid : Error → Error

pub data Freshness : Type 0 where
  local_stale external_stale same : Freshness

abbrev pub card_schema : Text
card_schema = text "ueg.identity-card.v1"

abbrev pub anchor_schema : Text
anchor_schema = text "ueg.evidence-anchor.v1"

abbrev pub checkpoint_schema : Text
checkpoint_schema = text "ueg.lifecycle-checkpoint.v1"

abbrev pub anchor_domain : Text
anchor_domain = text "UEG-BPLUS-EVIDENCE-ANCHOR-v1"

unfoldable pub new_identity_card : State → IdentityCard
new_identity_card s = record {
  schema = card_schema;
  protocol_version = protocol_version_text;
  identity_id = s.genesis.identity_id;
  advisory_label = s.genesis.advisory_label;
  genesis = some s.genesis;
}

unfoldable pub new_lifecycle_checkpoint : State → Result Error LifecycleCheckpoint
new_lifecycle_checkpoint s = do
  refuse_if (lt_int s.last_sequence (pos 0)) state_required
  ok (record {
    schema = checkpoint_schema;
    protocol_version = protocol_version_text;
    identity_id = s.genesis.identity_id;
    genesis = some s.genesis;
    lifecycle_records = s.records;
    checkpoint_sequence = s.last_sequence;
    checkpoint_digest = s.last_record_digest;
  })

unfoldable pub anchor_core : EvidenceAnchor → Members
unfolding text boundary_map
anchor_core a =
    (text "epoch_number", int a.epoch_number)
    ∷ (text "identity_id", str a.identity_id)
    ∷ (text "ledger_boundary", boundary_map a.ledger_boundary)
    ∷ (text "lifecycle_record_digest", str a.lifecycle_record_digest)
    ∷ (text "lifecycle_sequence", int a.lifecycle_sequence)
    ∷ (text "operational_key_id", str a.operational_key_id)
    ∷ (text "protocol_version", str a.protocol_version)
    ∷ (text "schema", str a.schema)
    ∷ []

unfoldable pub anchor_signed : EvidenceAnchor → Members
unfolding text anchor_core
anchor_signed a = anchor_core a ++ (text "anchor_digest", str a.anchor_digest) ∷ []

-- The digest of the record at a sequence number.
abbrev pub digest_at : List LifecycleRecord → ℤ → Option Text
digest_at rs (negsuc n) = none
digest_at rs (pos n) = elim (get_elem? rs n) [ none ↦ none | some r ↦ some r.record_digest ]

abbrev pub is_digest : Option Text → Text → Bool
is_digest none d = false
is_digest (some e) d = e == d

abbrev pub names_key : Option EpochState → Text → Bool
names_key none id = false
names_key (some e) id = e.operational_key_id == id

module _ (c : Crypto) where
  unfoldable pub compute_anchor_digest : EvidenceAnchor → Option Text
  compute_anchor_digest a = hash_jcs c (object (anchor_core a))

  -- Whether a pair is the key of an active epoch.
  abbrev pub may_anchor : Option EpochState → Pair → Bool
  may_anchor none p = false
  may_anchor (some e) p =
      e.status == Status.active && is_ok (validate_key_id c p e.operational_key_id false)

  unfoldable pub anchor_draft : State → EpochState → LedgerBoundary → EvidenceAnchor
  anchor_draft s e boundary = record {
    schema = anchor_schema;
    protocol_version = protocol_version_text;
    identity_id = s.genesis.identity_id;
    epoch_number = e.epoch_number;
    operational_key_id = e.operational_key_id;
    ledger_boundary = boundary;
    lifecycle_sequence = s.last_sequence;
    lifecycle_record_digest = s.last_record_digest;
    anchor_digest = [];
    signature_b64 = [];
  }

  unfoldable pub sign_anchor : EvidenceAnchor → Pair → Result Error EvidenceAnchor
  sign_anchor a pair = do
    signature ← map_err (λ _. signing_failed) (sign_domain c pair anchor_domain (anchor_signed a))
    ok (record a { signature_b64 = signature })

  unfoldable pub new_evidence_anchor :
      State → LedgerBoundary → Option Pair → Result Error EvidenceAnchor
  new_evidence_anchor s boundary pair = do
    refuse_if (not (validate_boundary boundary)) boundary_invalid
    active ← or_fail (active_of s) active_key_required
    key ← or_fail pair active_key_required
    refuse_if (not (may_anchor (some active) key)) active_key_required
    digest ← or_fail (compute_anchor_digest (anchor_draft s active boundary)) not_canonical
    sign_anchor (record (anchor_draft s active boundary) { anchor_digest = digest }) key

  abbrev pub anchor_signed_by : Option Pair → EvidenceAnchor → Bool
  anchor_signed_by none a = false
  anchor_signed_by (some p) a =
      validate_signature_encoding c a.signature_b64
      && verify_domain c p anchor_domain (anchor_signed a) a.signature_b64

  -- The trust of a derived state has a key for every epoch.
  unfoldable pub validate_evidence_anchor : EvidenceAnchor → State → Result Error (Unit {0})
  validate_evidence_anchor a s = do
    refuse_if
        (a.schema != anchor_schema
          || a.protocol_version != protocol_version_text
          || a.identity_id != s.genesis.identity_id
          || lt_int a.epoch_number (pos 0)
          || not (is_key_id a.operational_key_id)
          || lt_int a.lifecycle_sequence (pos 0)
          || not (is_hex64 a.lifecycle_record_digest)
          || not (is_hex64 a.anchor_digest))
        anchor_fields
    refuse_if (not (validate_boundary a.ledger_boundary)) boundary_invalid
    refuse_if (not (is_digest (digest_at s.records a.lifecycle_sequence) a.lifecycle_record_digest))
        unknown_checkpoint
    refuse_if (not (names_key (lookup a.epoch_number s.epochs) a.operational_key_id)) unknown_epoch
    expected ← or_fail (compute_anchor_digest a) anchor_digest_mismatch
    refuse_if (expected != a.anchor_digest) anchor_digest_mismatch
    refuse_if (not (anchor_signed_by (lookup a.operational_key_id s.trust) a)) anchor_signature
