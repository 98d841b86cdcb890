-- ===== src/Ledger/Append.antt =====
-- ledger.go, Append: a receipt for a request, signed and chained. The clock is an argument. What
-- Append writes is the pair of lines that it journals; Ledger/Recovery.antt carries that out.
pub mod Guards
pub mod Chained
use ueg.Common.{
  ℕ, zero, suc, Bool, true, false, not, List, [], ◌∷◌, ◌++◌, Option, none, some, Result, ok, err,
  ◌>>=◌, ◌>>◌, refuse_if, or_fail, map_err, ℤ, int_succ, Text, text, utf8, ◌==◌, text_Eq,
  if◌then◌else◌,
}
use ueg.Crypto.{Crypto}
use ueg.Canon.{Value, str, arr, items, object, hash_jcs}
use ueg.Keys.{Pair, sign_b64}
use ueg.Ledger.{Receipt, PetitionSummary, Petition, compute_id, text_values}
use ueg.Ledger.Home.{Ledger, Error, not_canonical, no_pair, no_signature, check_append}

-- The arguments of Append beside the ledger.
pub record Request : Type 0 where
  pub petition : Petition
  pub summary : PetitionSummary
  pub actor : Text
  pub admission : Text
  pub expression : Text
  pub policy_hash : Text
  pub clause_ids : List Text

-- `delete(body, key)`.
unfoldable pub remove_key : Text → Petition → Petition
remove_key key [] = []
remove_key key ((k, v) ∷ p) = if k == key then remove_key key p else (k, v) ∷ remove_key key p

-- `petition[key] = value` puts the entry in the place of an older one.
unfoldable pub set_key : Text → Text → Petition → Petition
unfolding remove_key
set_key key s p = (key, str s) ∷ remove_key key p

-- What `evaluation_hash` is taken over.
unfoldable pub evaluation : Request → Text → Text → Value
unfolding text text_values
evaluation q engine_version petition_hash = object (
    (text "clause_ids", arr (items (text_values q.clause_ids)))
    ∷ (text "engine_version", str engine_version)
    ∷ (text "final_decision", str q.admission)
    ∷ (text "petition_hash", str petition_hash)
    ∷ (text "policy_hash", str q.policy_hash)
    ∷ (text "rule_results", arr (items []))
    ∷ [])

abbrev pub engine_version_text : Text
engine_version_text = text "ueg/2.2.0-v3-candidate.1"

-- The receipt before it has an id and a signature.
unfoldable pub draft : Ledger → Request → Text → Text → Text → Receipt
unfolding text
draft l q now petition_hash evaluation_hash = record {
  receipt_id = [];
  prev_receipt_id = l.head;
  sequence_no = int_succ l.seq;
  timestamp_iso8601 = now;
  time_source = text "kernel_observed";
  actor = q.actor;
  adapter_degraded = false;
  petition_hash = petition_hash;
  petition_summary = q.summary;
  admission_outcome = q.admission;
  expression_outcome = q.expression;
  policy_hash = q.policy_hash;
  engine_version = engine_version_text;
  clause_ids = q.clause_ids;
  evaluation_hash = evaluation_hash;
  passport_ref = none;
  signing_key_id = l.key_id;
  signature_b64 = [];
}

-- The request as it is stored beside its receipt.
unfoldable pub stored : Request → Text → Text → Petition
unfolding text set_key
stored q petition_hash id =
    set_key (text "receipt_id") id (set_key (text "petition_hash") petition_hash q.petition)

-- The ledger once both lines are on disk.
unfoldable pub extend : Ledger → Receipt → Petition → Ledger
extend l r p = record l {
  receipts = l.receipts ++ r ∷ [];
  petitions = l.petitions ++ p ∷ [];
  head = some r.receipt_id;
  seq = r.sequence_no;
}

module _ (c : Crypto) where
  unfoldable pub signed_receipt : Pair → Receipt → Result Error Receipt
  signed_receipt pair r = do
    id ← or_fail (compute_id c r) not_canonical
    signature ← map_err (λ _. no_signature) (sign_b64 c pair (utf8 id))
    ok (record r { receipt_id = id; signature_b64 = signature })

  -- The receipt and the stored request that Append writes, before it writes them.
  unfoldable pub prepare : Ledger → Request → Text → Result Error (Receipt × Petition)
  unfolding text
  prepare l q now = do
    check_append c l
    petition_hash ←
        or_fail (hash_jcs c (object (remove_key (text "petition_hash") q.petition))) not_canonical
    evaluation_hash ←
        or_fail (hash_jcs c (evaluation q engine_version_text petition_hash)) not_canonical
    pair ← or_fail l.pair no_pair
    r ← signed_receipt pair (draft l q now petition_hash evaluation_hash)
    ok (r, stored q petition_hash r.receipt_id)

  -- Append where every write succeeds.
  unfoldable pub append : Ledger → Request → Text → Result Error (Ledger × Receipt)
  append l q now = do (r, p) ← prepare l q now; ok (extend l r p, r)
