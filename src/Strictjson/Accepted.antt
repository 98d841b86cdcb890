-- ===== src/Strictjson/Accepted.antt =====
-- strictjson.go, Validate: what it accepts is one value with no key twice in an object.
use ueg.Common.{
  ℕ, zero, suc, ◌≡◌, ◌≢◌, refl, ap, ◌∙◌, inl, inr, true, false, not, List, [], ◌∷◌, ok, Text, All,
  any, Bool-cases, >>=-eq-ok, text_eq_iff, text_Eq, ◌==◌, arith, refuse_if,
}
use ueg.Strictjson.{
  Delim, open_object, close_object, open_array, close_array, Token, delim, string, scalar, Lexed,
  token, failure, Json, Error, valid_after, more, close_with, next_key, scan_value, scan_members,
  scan_items, at_end, fuel_for, validate, object_not_closed, array_not_closed,
}
use ueg.Strictjson.Trees.{
  Tree, leaf, word, stray, array, object, Trees, nil, cons, Members, end, member, flatten,
  flatten_items, flatten_members, IsStrict, AreStrict, AreDistinct,
}

any-All-ne : (k : Text) (seen : List Text) → any (λ o. o == k) seen ≡ false → All (λ o. o ≢ k) seen
any-All-ne k [] h = tt
any-All-ne k (o ∷ seen) h =
    ((λ e. ground (arith, text_eq_iff o k)), any-All-ne k seen (ground arith))

close_with_object :
    (ts rest : List Lexed)
    → close_with close_object object_not_closed ts ≡ ok rest
    → ts ≡ token (delim close_object) ∷ rest
close_with_object (token (delim close_object) ∷ ts) rest h = ground arith
close_with_object (token (delim open_object) ∷ ts) rest h = cc
close_with_object (token (delim open_array) ∷ ts) rest h = cc
close_with_object (token (delim close_array) ∷ ts) rest h = cc
close_with_object (token (string s) ∷ ts) rest h = cc
close_with_object (token scalar ∷ ts) rest h = cc
close_with_object (failure ∷ ts) rest h = cc
close_with_object [] rest h = cc

close_with_array :
    (ts rest : List Lexed)
    → close_with close_array array_not_closed ts ≡ ok rest
    → ts ≡ token (delim close_array) ∷ rest
close_with_array (token (delim close_array) ∷ ts) rest h = ground arith
close_with_array (token (delim open_object) ∷ ts) rest h = cc
close_with_array (token (delim open_array) ∷ ts) rest h = cc
close_with_array (token (delim close_object) ∷ ts) rest h = cc
close_with_array (token (string s) ∷ ts) rest h = cc
close_with_array (token scalar ∷ ts) rest h = cc
close_with_array (failure ∷ ts) rest h = cc
close_with_array [] rest h = cc

next_key_lem :
    (seen : List Text) (ts rest : List Lexed) (k : Text)
    → next_key seen ts ≡ ok (k, rest)
    → (ts ≡ token (string k) ∷ rest) × All (λ o. o ≢ k) seen
next_key_lem seen (token (string s) ∷ ts) rest k h = elim (Bool-cases (any (λ o. o == s) seen)) [
  | inl e ↦ absurd (ground (arith, h, e))
  | inr e ↦
      let same : s ≡ k = ground (arith, h, e) in
      let tail : ts ≡ rest = ground (arith, h, e) in
      (rw (same, tail) refl, rw same at (any-All-ne s seen e))
]
next_key_lem seen (token (delim d) ∷ ts) rest k h = cc
next_key_lem seen (token scalar ∷ ts) rest k h = cc
next_key_lem seen (failure ∷ ts) rest k h = cc
next_key_lem seen [] rest k h = cc

mutual
  unfolding scan_value scan_members scan_items flatten flatten_items flatten_members IsStrict
      AreStrict AreDistinct

  value_sound :
      (fuel : ℕ) (ts rest : List Lexed)
      → scan_value fuel ts ≡ ok rest
      → (t : Tree) × (ts ≡ flatten t rest) × IsStrict t
  value_sound zero ts rest h = cc
  value_sound (suc fuel) [] rest h = cc
  value_sound (suc fuel) (failure ∷ ts) rest h = cc
  value_sound (suc fuel) (token (delim open_object) ∷ ts) rest h =
      let (ms, e, s) = members_sound fuel [] ts rest h in (object ms, rw e refl, s)
  value_sound (suc fuel) (token (delim open_array) ∷ ts) rest h =
      let (xs, e, s) = items_sound fuel ts rest h in (array xs, rw e refl, s)
  value_sound (suc fuel) (token (delim close_object) ∷ ts) rest h =
      (stray close_object, ground (arith, h), tt)
  value_sound (suc fuel) (token (delim close_array) ∷ ts) rest h =
      (stray close_array, ground (arith, h), tt)
  value_sound (suc fuel) (token (string s) ∷ ts) rest h = (word s, ground (arith, h), tt)
  value_sound (suc fuel) (token scalar ∷ ts) rest h = (leaf, ground (arith, h), tt)

  members_sound :
      (fuel : ℕ) (seen : List Text) (ts rest : List Lexed)
      → scan_members fuel seen ts ≡ ok rest
      → (ms : Members) × (ts ≡ flatten_members ms (token (delim close_object) ∷ rest))
        × AreDistinct seen ms
  members_sound zero seen ts rest h = cc
  members_sound (suc fuel) seen ts rest h = elim (Bool-cases (more ts)) [
    | inr e ↦ (end, close_with_object ts rest (rw (scan_members, e) at h), tt)
    | inl e ↦
        let h1 = rw (scan_members, e) at h in
        let ((k, ts1), hk, h2) = >>=-eq-ok (next_key seen ts) _ h1 in
        let (ts2, hv, h3) = >>=-eq-ok (scan_value fuel ts1) _ h2 in
        let (ek, fresh) = next_key_lem seen ts ts1 k hk in
        let (t, et, st) = value_sound fuel ts1 ts2 hv in
        let (ms, em, sm) = members_sound fuel (k ∷ seen) ts2 rest h3 in
        (
          member k t ms,
          ek ∙ ap (λ l. token (string k) ∷ l) (et ∙ ap (flatten t) em),
          (fresh, st, sm),
        )
  ]

  items_sound :
      (fuel : ℕ) (ts rest : List Lexed)
      → scan_items fuel ts ≡ ok rest
      → (xs : Trees) × (ts ≡ flatten_items xs (token (delim close_array) ∷ rest)) × AreStrict xs
  items_sound zero ts rest h = cc
  items_sound (suc fuel) ts rest h = elim (Bool-cases (more ts)) [
    | inr e ↦ (nil, close_with_array ts rest (rw (scan_items, e) at h), tt)
    | inl e ↦
        let h1 = rw (scan_items, e) at h in
        let (ts2, hv, h3) = >>=-eq-ok (scan_value fuel ts) _ h1 in
        let (t, et, st) = value_sound fuel ts ts2 hv in
        let (xs, ex, sx) = items_sound fuel ts2 rest h3 in
        (cons t xs, et ∙ ap (flatten t) ex, (st, sx))
  ]

at_end_lem : (ts : List Lexed) → at_end ts ≡ ok tt → ts ≡ []
at_end_lem [] h = refl
at_end_lem (failure ∷ ts) h = cc
at_end_lem (token t ∷ ts) h = cc

-- A text that Validate accepts is well-formed UTF-8, and its tokens are those of one value in which
-- no object has a key twice.
pub validate-IsStrict :
    (j : Json) (bytes : List ℕ)
    → validate j bytes ≡ ok tt
    → (valid_after 0 bytes ≡ true) × (t : Tree) × (j.tokens bytes ≡ flatten t []) × IsStrict t
unfolding validate
validate-IsStrict j bytes h =
    let (u, hu, h1) =
      >>=-eq-ok (refuse_if (not (valid_after 0 bytes)) ueg.Strictjson.invalid_utf8) _ h in
    let (rest, hs, h2) = >>=-eq-ok (scan_value (fuel_for (j.tokens bytes)) (j.tokens bytes)) _ h1 in
    let (t, e, s) = value_sound (fuel_for (j.tokens bytes)) (j.tokens bytes) rest hs in
    (ground (arith, hu), t, e ∙ ap (flatten t) (at_end_lem rest h2), s)
