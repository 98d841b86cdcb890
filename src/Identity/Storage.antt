-- ===== src/Identity/Storage.antt =====
-- internal/identity/storage.go: the files of an evidence home, and what is loaded from them. A file is
-- its bytes, none where it is missing; all files are regular ones, and access modes are left out.
pub mod Transaction
use ueg.Common.{
  ℕ, ◌*◌, suc, Bool, true, false, not, ◌&&◌, ◌||◌, List, [], ◌∷◌, ◌++◌, Option, none, some, Result,
  ok, err, ◌>>=◌, ◌>>◌, refuse_if, or_fail, map_err, ℤ, pos, Text, text, utf8_decode, split_rune,
  trim_space, length, last?, ltb, leb, is_some, ◌==◌, ◌!=◌, int_Eq, text_Eq, nat_Eq, if◌then◌else◌,
}
use ueg.Crypto.{Crypto, PemBlock}
use ueg.Strictjson.{Json, unmarshal_by}
use ueg.Keys.{Pair, decode_pem, validate_key_id, load_public_pem_text}
use ueg.Identity.{Status, Genesis, LifecycleRecord, EpochState, State, status_Eq, active_of}
use ueg.Identity.Records.{protocol_version_text, is_ok}
use ueg.Identity.Lifecycle.{derive_state}

pub record Marker : Type 0 where
  pub schema : Text
  pub protocol_version : Text
  pub identity_id : Text

pub record PendingTransaction : Type 0 where
  pub schema : Text
  pub identity_id : Text
  pub base_sequence : ℤ
  pub base_record_digest : Text
  pub new_record : Option LifecycleRecord
  pub has_new_key : Bool
  pub new_epoch : Option ℤ
  pub remove_private_epoch : Option ℤ
  pub lifecycle_after_sha256 : Text

-- The files that say who may sign.
pub record AuthorityFiles : Type 0 where
  pub marker : Option (List ℕ)
  pub genesis : Option (List ℕ)
  pub lifecycle : Option (List ℕ)
  pub legacy_public : Option (List ℕ)
  pub pending : Option (List ℕ)
  pub read_guard : Option (List ℕ)

-- The directory of one epoch.
pub record EpochFiles : Type 0 where
  pub exists : Bool
  pub private : Option (List ℕ)
  pub public : Option (List ℕ)
  pub pending_private : Option (List ℕ)
  pub pending_public : Option (List ℕ)

pub record HomeFiles : Type 0 where
  pub authority : AuthorityFiles
  pub epochs : ℤ → EpochFiles

-- encoding/json and crypto/x509: how structs are filled, how a record is written, and a private key
-- with its public half.
pub record HomeWire : Type 0 where
  pub json : Json
  pub read_marker : List ℕ → Option Marker
  pub read_genesis : List ℕ → Option Genesis
  pub read_record : List ℕ → Option LifecycleRecord
  pub read_pending : List ℕ → Option PendingTransaction
  pub write_record : LifecycleRecord → List ℕ
  pub parse_pkcs8 : List ℕ → Option Pair

pub data Error : Type 0 where
  not_exist too_large : Error
  marker_invalid genesis_invalid record_invalid too_many_records line_too_long : Error
  other_marker legacy_mismatch : Error
  lifecycle : ueg.Identity.Error → Error
  recovery_required no_active_epoch key_unavailable key_mismatch : Error
  journal_invalid journal_fields guard_exists other_identity changed_outside hash_mismatch : Error
  transition : ueg.Identity.Error → Error
  publish_failed published_mismatch : Error

abbrev pub marker_schema : Text
marker_schema = text "ueg.identity-home.v1"

unfoldable pub read_bounded_regular : ℕ → Option (List ℕ) → Result Error (List ℕ)
read_bounded_regular maximum file = do
  bytes ← or_fail file not_exist
  refuse_if (ltb maximum (length bytes)) too_large
  ok bytes

-- bufio.Scanner drops a carriage return at the end of a line.
unfoldable pub drop_return : List ℕ → List ℕ
drop_return [] = []
drop_return (b ∷ []) = if b == 13 then [] else b ∷ []
drop_return (b ∷ a ∷ line) = b ∷ drop_return (a ∷ line)

module _ (c : Crypto) (w : HomeWire) where
  -- The lines of readLifecycle; `count` records stand before them.
  unfoldable pub read_lines : ℕ → List (List ℕ) → Result Error (List LifecycleRecord)
  read_lines count [] = ok []
  read_lines count (raw ∷ lines) =
      let blank : Result Error (List LifecycleRecord) = read_lines count lines in
      if leb (1024 * 1024) (length raw)
      then err line_too_long
      else if trim_space (utf8_decode (drop_return raw)) == []
      then blank
      else (do
        r ← map_err (λ _. record_invalid) (unmarshal_by w.json w.read_record (drop_return raw))
        refuse_if (ltb 10000 (suc count)) too_many_records
        rs ← read_lines (suc count) lines
        ok (r ∷ rs))

  unfoldable pub read_lifecycle : Option (List ℕ) → Result Error (List LifecycleRecord)
  read_lifecycle file = do
    raw ← read_bounded_regular (10 * 1024 * 1024) file
    read_lines 0 (split_rune b'\n' raw)

  unfoldable pub marshal_lifecycle : List LifecycleRecord → List ℕ
  marshal_lifecycle [] = []
  marshal_lifecycle (r ∷ rs) = w.write_record r ++ (b'\n' ∷ marshal_lifecycle rs)

  abbrev pub read_public : Option (List ℕ) → Option Pair
  read_public none = none
  read_public (some bytes) = elim (load_public_pem_text c (utf8_decode bytes)) [
    | ok p ↦ some p
    | err e ↦ none
  ]

  -- Whether a public-key file holds the key of an id.
  abbrev pub is_key_of : Option Pair → Text → Bool
  is_key_of none id = false
  is_key_of (some p) id = is_ok (validate_key_id c p id false)

  unfoldable pub load_public : Text → AuthorityFiles → Result Error State
  load_public home a = do
    marker_raw ← read_bounded_regular (64 * 1024) a.marker
    marker ← map_err (λ _. marker_invalid) (unmarshal_by w.json w.read_marker marker_raw)
    refuse_if (marker.schema != marker_schema || marker.protocol_version != protocol_version_text)
        marker_invalid
    genesis_raw ← read_bounded_regular (1024 * 1024) a.genesis
    g ← map_err (λ _. genesis_invalid) (unmarshal_by w.json w.read_genesis genesis_raw)
    records ← read_lifecycle a.lifecycle
    s ← map_err lifecycle (derive_state c home g records)
    refuse_if (marker.identity_id != g.identity_id) other_marker
    refuse_if (not (is_key_of (read_public a.legacy_public) g.epoch_zero_key_id)) legacy_mismatch
    ok (record s { pending_mutation = is_some a.pending })

  unfoldable pub load_private_pem : List ℕ → Option Pair
  unfolding text
  load_private_pem bytes = elim (decode_pem c (utf8_decode bytes) (text "PRIVATE KEY")) [
    | err e ↦ none
    | ok block ↦ w.parse_pkcs8 block.bytes
  ]

  abbrev pub paired : Option Pair → Option Pair → Option Pair
  paired none q = none
  paired (some p) none = none
  paired (some p) (some q) = if p.public == q.public then some p else none

  -- keys.LoadExisting on the two files of an epoch.
  unfoldable pub load_existing : EpochFiles → Option Pair
  load_existing f = elim f.private [
    | none ↦ none
    | some bytes ↦ paired (load_private_pem bytes) (read_public f.public)
  ]

  unfoldable pub load_active : State → EpochState → EpochFiles → Result Error State
  load_active s active f = do
    pair ← or_fail (load_existing f) key_unavailable
    refuse_if (not (is_ok (validate_key_id c pair active.operational_key_id false))) key_mismatch
    ok (record s { active_pair = some pair })

  unfoldable pub load_signing : Text → HomeFiles → Result Error State
  load_signing home f = do
    s ← load_public home f.authority
    refuse_if s.pending_mutation recovery_required
    active ← or_fail (active_of s) no_active_epoch
    refuse_if (active.status != Status.active) no_active_epoch
    load_active s active (f.epochs active.epoch_number)
