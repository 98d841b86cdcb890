-- ===== src/Ledger/Parse/Exact.antt =====
-- parse.go, ParseReceiptStrict: a receipt is read only from an object with exactly its fields.
use ueg.Common.{
  refuse_if-eq-ok, map_err-eq-ok, ℕ, ◌≡◌, ◌⊎◌, refl, sym, ap, ◌∙◌, inl, inr, Bool, true, false, not,
  List, [], ◌∷◌, ◌++◌, Option, none, some, ok, or_fail, >>=-eq-ok, Text, text, join, any, every,
  lookup, nat_eq, contains_rune, split_rune, Bool-cases, text_eq_iff, ◌==◌, ◌!=◌, text_Eq, arith,
}
use ueg.Strictjson.{unmarshal_by, validate}
use ueg.Strictjson.Trees.{Tree, flatten, IsStrict}
use ueg.Strictjson.Accepted.{validate-IsStrict}
use ueg.Ledger.{Receipt, Petition}
use ueg.Ledger.Parse.{
  Wire, not_an_object, not_json, receipt_fields, summary_fields, keys_of, insert_text, sort_texts,
  exact_keys, object_at, parse_petition, parse_receipt_strict,
}

abbrev pub has : Text → List Text → Bool
has t l = any (λ s. s == t) l

has-insert_text : (t s : Text) (l : List Text) → has t (insert_text s l) ≡ has t (s ∷ l)
unfolding insert_text
has-insert_text t s [] = refl
has-insert_text t s (u ∷ l) = let ih = has-insert_text t s l in ground arith

pub has-sort_texts : (t : Text) (l : List Text) → has t (sort_texts l) ≡ has t l
unfolding sort_texts
has-sort_texts t [] = refl
has-sort_texts t (s ∷ l) = ground (arith, has-insert_text t s (sort_texts l), has-sort_texts t l)

-- No text of the list has a comma, which separates the keys where they are compared.
abbrev pub clean : List Text → Bool
clean l = every (λ s. not (contains_rune b',' s)) l

clean-insert_text : (s : Text) (l : List Text) → clean (insert_text s l) ≡ clean (s ∷ l)
unfolding insert_text
clean-insert_text s [] = refl
clean-insert_text s (t ∷ l) = let ih = clean-insert_text s l in ground arith

clean-sort_texts : (l : List Text) → clean (sort_texts l) ≡ clean l
unfolding sort_texts
clean-sort_texts [] = refl
clean-sort_texts (s ∷ l) = ground (arith, clean-insert_text s (sort_texts l), clean-sort_texts l)

split_rune_some : (s : Text) → (t : Text) × (ts : List Text) × (split_rune b',' s ≡ t ∷ ts)
unfolding split_rune
split_rune_some [] = ([], [], refl)
split_rune_some (a ∷ s) =
    let (t, ts, e) = split_rune_some s in
    elim (Bool-cases (nat_eq a b',')) [
      | inl q ↦ ([], t ∷ ts, rw (e, q) refl)
      | inr q ↦ (a ∷ t, ts, rw (e, q) refl)
    ]

split_rune-one : (s : Text) → contains_rune b',' s ≡ false → split_rune b',' s ≡ s ∷ []
unfolding split_rune contains_rune
split_rune-one [] h = refl
split_rune-one (a ∷ s) h = rw (split_rune-one s (ground arith)) (ground arith)

split_rune-next :
    (s rest : Text)
    → contains_rune b',' s ≡ false
    → split_rune b',' (s ++ b',' ∷ rest) ≡ s ∷ split_rune b',' rest
unfolding split_rune contains_rune
split_rune-next [] rest h = let (t, ts, e) = split_rune_some rest in rw e refl
split_rune-next (a ∷ s) rest h = rw (split_rune-next s rest (ground arith)) (ground arith)

split_rune-join :
    (s : Text) (l : List Text)
    → clean (s ∷ l) ≡ true
    → split_rune b',' (join (text ",") (s ∷ l)) ≡ s ∷ l
unfolding join text
split_rune-join s [] h = split_rune-one s (ground arith)
split_rune-join s (t ∷ l) h =
    split_rune-next s (join (text ",") (t ∷ l)) (ground arith)
    ∙ ap (λ x. s ∷ x) (split_rune-join t l (ground arith))

-- Of texts without a comma, the joined text tells which they are.
join_same :
    (k l : List Text) (a : ℕ) (b : Text)
    → clean k ≡ true
    → clean l ≡ true
    → join (text ",") l ≡ a ∷ b
    → join (text ",") k ≡ join (text ",") l
    → k ≡ l
unfolding join
join_same [] l a b hk hl full e = cc
join_same (s ∷ k) [] a b hk hl full e = cc
join_same (s ∷ k) (t ∷ l) a b hk hl full e =
    sym (split_rune-join s k hk) ∙ ap (split_rune b',') e ∙ split_rune-join t l hl

-- The object has the fields that are wanted and no other.
abbrev pub IsExactly : Petition → List Text → Type 0
IsExactly m want = (t : Text) → has t (keys_of m) ≡ has t want

exact_keys-IsExactly :
    (m : Petition) (want : List Text) (a : ℕ) (b : Text)
    → clean (keys_of m) ≡ true
    → clean want ≡ true
    → join (text ",") (sort_texts want) ≡ a ∷ b
    → exact_keys m want ≡ ok tt
    → IsExactly m want
unfolding exact_keys
exact_keys-IsExactly m want a b hm hw full h t =
    let got = sort_texts (keys_of m) in
    let expected = sort_texts want in
    let e : join (text ",") got ≡ join (text ",") expected = ground (
      arith,
      refuse_if-eq-ok (join (text ",") got != join (text ",") expected) _ h,
      text_eq_iff (join (text ",") got) (join (text ",") expected),
    ) in
    let same =
      join_same got expected a b (clean-sort_texts (keys_of m) ∙ hm) (clean-sort_texts want ∙ hw)
        full e in
    sym (has-sort_texts t (keys_of m)) ∙ ap (has t) same ∙ has-sort_texts t want

receipt-IsExactly :
    (m : Petition)
    → clean (keys_of m) ≡ true
    → exact_keys m receipt_fields ≡ ok tt
    → IsExactly m receipt_fields
unfolding receipt_fields text contains_rune sort_texts insert_text ueg.Canon.text_lt join
receipt-IsExactly m hm h = exact_keys-IsExactly m receipt_fields _ _ hm refl refl h

summary-IsExactly :
    (m : Petition)
    → clean (keys_of m) ≡ true
    → exact_keys m summary_fields ≡ ok tt
    → IsExactly m summary_fields
unfolding summary_fields text contains_rune sort_texts insert_text ueg.Canon.text_lt join
summary-IsExactly m hm h = exact_keys-IsExactly m summary_fields _ _ hm refl refl h

unless_comma :
    (m : Petition) (want : List Text)
    → (clean (keys_of m) ≡ true → IsExactly m want)
    → (clean (keys_of m) ≡ false) ⊎ IsExactly m want
unless_comma m want f = elim (Bool-cases (clean (keys_of m))) [ inl k ↦ inr (f k) | inr k ↦ inl k ]

module _ (w : Wire) where
  or_fail-eq-ok : {E A : Type 0} (e : E) (o : Option A) {a : A} → or_fail o e ≡ ok a → o ≡ some a
  or_fail-eq-ok e none h = cc
  or_fail-eq-ok e (some a) h = cc

  -- A receipt is read only from a line whose tokens are those of one value, no object of it with a
  -- key twice, and it is then what the decoder makes of that line. The line is an object with exactly
  -- the fields of a receipt, or one with a key that has a comma in it, and its petition_summary is
  -- an object with exactly the fields of a summary, or again one with such a key.
  pub parse_receipt_strict-IsStrict :
      (line : List ℕ) (r : Receipt)
      → parse_receipt_strict w line ≡ ok r
      → ((t : Tree) × (w.json.tokens line ≡ flatten t []) × IsStrict t)
        × (w.read_receipt line ≡ some r)
        × ((m s : Petition) × (parse_petition w line ≡ ok m)
            × (object_at (lookup (text "petition_summary") m) ≡ some s)
            × ((clean (keys_of m) ≡ false) ⊎ IsExactly m receipt_fields)
            × ((clean (keys_of s) ≡ false) ⊎ IsExactly s summary_fields))
  unfolding parse_receipt_strict unmarshal_by
  parse_receipt_strict-IsStrict line r h =
      let (g, hg, h1) = >>=-eq-ok (parse_petition w line) _ h in
      let (u, hu, h2) = >>=-eq-ok (exact_keys g receipt_fields) _ h1 in
      let (s, hs, h3) =
        >>=-eq-ok (or_fail (object_at (lookup (text "petition_summary") g)) not_an_object) _ h2 in
      let (u', hu', h4) = >>=-eq-ok (exact_keys s summary_fields) _ h3 in
      let h5 = map_err-eq-ok not_json (unmarshal_by w.json w.read_receipt line) h4 in
      let (v, hv, h6) = >>=-eq-ok (validate w.json line) _ h5 in
      let (valid, t, e, st) = validate-IsStrict w.json line hv in
      (
        (t, e, st),
        or_fail-eq-ok ueg.Strictjson.not_decoded (w.read_receipt line) h6,
        (
          g,
          s,
          hg,
          or_fail-eq-ok not_an_object (object_at (lookup (text "petition_summary") g)) hs,
          unless_comma g receipt_fields (λ k. receipt-IsExactly g k hu),
          unless_comma s summary_fields (λ k. summary-IsExactly s k hu'),
        ),
      )
