-- ===== src/Ledger/Append/Chained.antt =====
-- ledger.go, Append: a chain stays a chain, and the new request is bound to the new receipt.
use ueg.Common.{
  ℕ, suc, ◌+◌, ◌<◌, ◌≡◌, ◌≢◌, refl, sym, ap, ◌∙◌, inl, inr, true, false, List, [], ◌∷◌, ◌++◌,
  Option, none, some, ok, err, ℤ, pos, int_succ, max_int, Text, text, utf8, is_hex64, length,
  length-append, All, lookup, lookup-insert, Option-cases, Result-cases, or_fail, >>=-eq-ok,
  text_eq_iff, text_Eq, arith,
}
use ueg.Crypto.{Crypto, CryptoLaws, IsKeyPair}
use ueg.Canon.{hash_jcs, object}
use ueg.Canon.Hex.{hash_jcs-IsHex64}
use ueg.Keys.{Pair, public_key_size, legacy_key_id, sign_b64, verify_b64}
use ueg.Keys.Signing.{verify_b64-sign_b64}
use ueg.Ledger.{Receipt, Petition, Trust, core, compute_id}
use ueg.Ledger.Chain.{IsGenuine, IsLinked, IsFresh, IsChainFrom, IsChain}
use ueg.Ledger.Home.{Ledger, trust_legacy, trust_self, check_append, not_canonical, no_pair}
use ueg.Ledger.Append.{
  Request, draft, signed_receipt, remove_key, evaluation, engine_version_text, prepare, append,
  extend,
}

-- The id of the receipt before, behind `prev`.
abbrev pub id_after : Option Text → List Receipt → Option Text
id_after prev [] = prev
id_after prev (r ∷ rs) = id_after (some r.receipt_id) rs

int_succ_pos : (q : ℤ) (n : ℕ) → q ≡ pos n → n < max_int → int_succ q ≡ pos (suc n)
int_succ_pos q n e h = rw e (ground arith)

zero_add : (n : ℕ) → 0 + n ≡ n
zero_add n = omega arith

-- A ledger in memory: its receipts are a chain under its own keys, and it stands at their end.
pub record IsWhole (c : Crypto) (l : Ledger) : Type 0 where
  pub chain : IsChain c (trust_self c l) l.receipts
  pub head : l.head ≡ id_after none l.receipts
  pub next : int_succ l.seq ≡ pos (length l.receipts)

module _ (c : Crypto) (laws : CryptoLaws c) where
  pub compute_id-IsHex64 : (r : Receipt) (id : Text) → compute_id c r ≡ some id → is_hex64 id ≡ true
  unfolding compute_id
  compute_id-IsHex64 r id h = hash_jcs-IsHex64 c laws (core r) id h

IsChainFrom-snoc :
    (c : Crypto) (trust : Trust) (i : ℕ) (seen : List Text) (prev : Option Text) (rs : List Receipt)
    (r : Receipt)
    → IsChainFrom c trust i seen prev rs
    → IsGenuine c trust (i + length rs) r
    → IsLinked (i + length rs) (id_after prev rs) r
    → IsFresh r.receipt_id seen
    → All (λ o. o.receipt_id ≢ r.receipt_id) rs
    → IsChainFrom c trust i seen prev (rs ++ r ∷ [])
IsChainFrom-snoc c trust i seen prev [] r h g l f n =
    let e : i + 0 ≡ i = omega arith in (rw e at g, rw e at l, f, tt)
IsChainFrom-snoc c trust i seen prev (x ∷ rs) r (gx, lx, fx, h) g l f (nx, n) =
    let e : i + suc (length rs) ≡ suc i + length rs = omega arith in
    (
      gx,
      lx,
      fx,
      IsChainFrom-snoc c trust (suc i) (x.receipt_id ∷ seen) (some x.receipt_id) rs r h (rw e at g)
          (rw e at l) (nx, f) n,
    )

id_after-snoc :
    (prev : Option Text) (rs : List Receipt) (r : Receipt)
    → id_after prev (rs ++ r ∷ []) ≡ some r.receipt_id
id_after-snoc prev [] r = refl
id_after-snoc prev (x ∷ rs) r = id_after-snoc (some x.receipt_id) rs r

id_after-some : (id : Text) (rs : List Receipt) → (id' : Text) × (id_after (some id) rs ≡ some id')
id_after-some id [] = (id, refl)
id_after-some id (r ∷ rs) = id_after-some r.receipt_id rs

IsLinked-next :
    (rs : List Receipt) (r : Receipt)
    → r.prev_receipt_id ≡ id_after none rs
    → IsLinked (length rs) (id_after none rs) r
IsLinked-next [] r h = inl h
IsLinked-next (x ∷ rs) r h = let (id, e) = id_after-some x.receipt_id rs in (id, e, h ∙ e)

signed_receipt_lem :
    (c : Crypto) (pair : Pair) (d r : Receipt)
    → signed_receipt c pair d ≡ ok r
    → (id : Text) × (signature : Text) × (compute_id c d ≡ some id)
      × (sign_b64 c pair (utf8 id) ≡ ok signature)
      × (r ≡ record d { receipt_id = id; signature_b64 = signature })
signed_receipt_lem c pair d r h = elim (Option-cases (compute_id c d)) [
  | inl e ↦ absurd (no_id e)
  | inr (id, e) ↦ elim (Result-cases (sign_b64 c pair (utf8 id))) [
    | inr (f, q) ↦ absurd (unsigned id e f q)
    | inl (s, q) ↦ (id, s, e, q, unfold signed_receipt in ground (arith, h))
  ]
]
  where
    no_id : compute_id c d ≡ none → ⊥
    no_id e = unfold signed_receipt in ground (arith, h)

    unsigned :
        (id : Text)
        → compute_id c d ≡ some id
        → (f : ueg.Keys.Error) → sign_b64 c pair (utf8 id) ≡ err f
        → ⊥
    unsigned id e f q = unfold signed_receipt in ground (arith, h)

-- What a successful preparation signed.
prepare_lem :
    (c : Crypto) (l : Ledger) (q : Request) (now : Text) (r : Receipt) (p : Petition) (pair : Pair)
    → l.pair ≡ some pair
    → prepare c l q now ≡ ok (r, p)
    → (petition_hash : Text) × (evaluation_hash : Text) × (signed_receipt c pair
          (draft l q now petition_hash evaluation_hash)
        ≡ ok r)
unfolding prepare
prepare_lem c l q now r p pair e h =
    let (u, hu, h1) = >>=-eq-ok (check_append c l) _ h in
    let (ph, hp, h2) =
      >>=-eq-ok
        (or_fail (hash_jcs c (object (remove_key (text "petition_hash") q.petition))) not_canonical)
        _ h1 in
    let (eh, he, h3) =
      >>=-eq-ok (or_fail (hash_jcs c (evaluation q engine_version_text ph)) not_canonical) _ h2 in
    let (k, hk, h4) = >>=-eq-ok (or_fail l.pair no_pair) _ h3 in
    let (r', hr, h5) = >>=-eq-ok (signed_receipt c k (draft l q now ph eh)) _ h4 in
    (ph, eh, ground (arith, h5))

module _ (c : Crypto) (laws : CryptoLaws c) (l : Ledger) (pair : Pair) (legacy : l.is_bplus ≡ false)
    (has_pair : l.pair ≡ some pair) (halves : IsKeyPair c pair.private pair.public)
    (size : length pair.public ≡ public_key_size) where
  trusted_self : lookup l.key_id (trust_self c l) ≡ some pair
  unfolding trust_self
  trusted_self =
      rw (legacy, has_pair)
        (elim (Result-cases (legacy_key_id c pair)) [
          | inr (e, q) ↦
              rw (trust_legacy, q) (unfold lookup in ground (arith, text_eq_iff l.key_id l.key_id))
          | inl (k, q) ↦
              rw (trust_legacy, q, lookup-insert k l.key_id pair ((l.key_id, pair) ∷ []))
                (unfold lookup in ground (arith, text_eq_iff l.key_id l.key_id))
        ])

  signed-IsGenuine :
      (q : Request) (now ph eh : Text) (r : Receipt)
      → IsWhole c l
      → signed_receipt c pair (draft l q now ph eh) ≡ ok r
      → IsGenuine c (trust_self c l) (length l.receipts) r
        × (r.prev_receipt_id ≡ l.head)
        × (r.sequence_no ≡ int_succ l.seq)
  unfolding draft
  signed-IsGenuine q now ph eh r w h =
      let (id, s, e, sg, same) = signed_receipt_lem c pair (draft l q now ph eh) r h in
      rw same (
        record {
          position = w.next;
          hex_id = compute_id-IsHex64 c laws (draft l q now ph eh) id e;
          contents = unfold compute_id core in e;
          key = pair;
          trusted = trusted_self;
          signed = verify_b64-sign_b64 c laws pair (utf8 id) halves size sg;
        },
        refl,
        refl,
      )

  -- Where the halves of the key pair belong together, the public half has 32 bytes, the new id is that
  -- of no older receipt (which Append does not check) and there is room for one more number, Append to
  -- a whole ledger of a legacy home leaves a whole ledger: the chain with one receipt more, genuine
  -- and linked.
  pub append-IsWhole :
      (q : Request) (now : Text) (l' : Ledger) (r : Receipt)
      → IsWhole c l
      → append c l q now ≡ ok (l', r)
      → All (λ o. o.receipt_id ≢ r.receipt_id) l.receipts
      → length l.receipts < max_int
      → IsWhole c l'
  unfolding append
  append-IsWhole q now l' r w h fresh room =
      let ((r', p), hp, h1) = >>=-eq-ok (prepare c l q now) _ h in
      let same : r' ≡ r = ground (arith, h1) in
      let grown : extend l r p ≡ l' = ground (arith, h1, same) in
      let (ph, eh, sg) =
        prepare_lem c l q now r p pair has_pair (hp ∙ ap (λ (x : Receipt). ok (x, p)) same) in
      let (g, pv, sq) = signed-IsGenuine q now ph eh r w sg in
      let n = length l.receipts in
      rw (← grown) (
        unfold extend trust_self in
        record {
          chain =
              IsChainFrom-snoc c (trust_self c l) 0 [] none l.receipts r w.chain (rw (zero_add n) g)
                (rw (zero_add n) (IsLinked-next l.receipts r (pv ∙ w.head))) tt fresh;
          head = sym (id_after-snoc none l.receipts r);
          next = ground (
            arith,
            sq,
            w.next,
            length-append l.receipts (r ∷ []),
            int_succ_pos r.sequence_no (length l.receipts) (sq ∙ w.next) room,
          );
        })
