-- ===== src/Ledger/Chain.antt =====
-- ledger.go, Verify, against a description of the chains that it accepts.
use ueg.Common.{
  ℕ, zero, suc, ◌≡◌, ◌≢◌, refl, sym, ap, ◌∙◌, ◌⊎◌, inl, inr, true, false, List, [], ◌∷◌, Option,
  none, some, ok, pos, Text, utf8, is_hex64, any, All, lookup, Option-cases, same_optional_iff,
  text_eq_iff, text_Eq, ◌==◌, arith,
}
use ueg.Crypto.{Crypto}
use ueg.Keys.{Pair, verify_b64}
use ueg.Ledger.{Receipt, Trust, check_link, compute_id}

-- What a receipt at position `i` of a genuine chain is.
pub record IsGenuine (c : Crypto) (trust : Trust) (i : ℕ) (r : Receipt) : Type 0 where
  pub position : r.sequence_no ≡ pos i
  pub hex_id : is_hex64 r.receipt_id ≡ true
  pub contents : compute_id c r ≡ some r.receipt_id
  pub key : Pair
  pub trusted : lookup r.signing_key_id trust ≡ some key
  pub signed : verify_b64 c key (utf8 r.receipt_id) r.signature_b64 ≡ true

-- Each receipt names the one before it; the first names none.
abbrev pub IsLinked : ℕ → Option Text → Receipt → Type 0
IsLinked zero prev r = (r.prev_receipt_id ≡ none) ⊎ (r.prev_receipt_id ≡ some [])
IsLinked (suc i) prev r = (id : Text) × (prev ≡ some id) × (r.prev_receipt_id ≡ some id)

abbrev pub IsFresh : Text → List Text → Type 0
IsFresh id = All (λ other. other ≢ id)

-- The receipts from position `i` on, behind ids `seen` of which `prev` is the last.
abbrev pub IsChainFrom : Crypto → Trust → ℕ → List Text → Option Text → List Receipt → Type 0
IsChainFrom c trust i seen prev [] = Unit
IsChainFrom c trust i seen prev (r ∷ rs) =
    IsGenuine c trust i r
    × IsLinked i prev r
    × IsFresh r.receipt_id seen
    × IsChainFrom c trust (suc i) (r.receipt_id ∷ seen) (some r.receipt_id) rs

abbrev pub IsChain : Crypto → Trust → List Receipt → Type 0
IsChain c trust = IsChainFrom c trust 0 [] none

pub any-IsFresh : (id : Text) (seen : List Text) → any (λ o. o == id) seen ≡ false → IsFresh id seen
any-IsFresh id [] h = tt
any-IsFresh id (o ∷ seen) h =
    ((λ e. ground (arith, text_eq_iff o id)), any-IsFresh id seen (ground arith))

pub IsFresh-any : (id : Text) (seen : List Text) → IsFresh id seen → any (λ o. o == id) seen ≡ false
IsFresh-any id [] h = refl
IsFresh-any id (o ∷ seen) h = ground (arith, text_eq_iff o id, IsFresh-any id seen h.1, h.0)

pub check_link-IsLinked :
    (i : ℕ) (prev : Option Text) (r : Receipt) → check_link i prev r ≡ ok tt → IsLinked i prev r
unfolding check_link
check_link-IsLinked zero prev r h = elim (Option-cases r.prev_receipt_id) [
  | inl e ↦ inl e
  | inr (p, e) ↦ inr (e ∙ ap some (ground (arith, text_eq_iff p [])))
]
check_link-IsLinked (suc i) prev r h = elim (Option-cases prev) [
  | inl e ↦ absurd (ground arith)
  | inr (p, e) ↦ (p, e, (same_optional_iff r.prev_receipt_id prev).0 (ground arith) ∙ e)
]

pub IsLinked-check_link :
    (i : ℕ) (prev : Option Text) (r : Receipt) → IsLinked i prev r → check_link i prev r ≡ ok tt
unfolding check_link
IsLinked-check_link zero prev r h = ground (arith, text_eq_iff [] [])
IsLinked-check_link (suc i) prev r (p, e, q) =
    ground (arith, (same_optional_iff r.prev_receipt_id prev).1 (q ∙ sym e))
