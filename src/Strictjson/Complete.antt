-- ===== src/Strictjson/Complete.antt =====
-- strictjson.go, Validate: it accepts every value with no key twice in an object.
use ueg.Common.{
  ℕ, zero, suc, ◌+◌, ◌≤◌, ◌≡◌, ◌≢◌, refl, true, false, List, [], ◌∷◌, ok, Text, All, any,
  text_eq_iff, text_Eq, ◌==◌, arith,
}
use ueg.Strictjson.{
  close_object, close_array, delim, Lexed, token, Json, valid_after, more, scan_value, scan_members,
  scan_items, fuel_for, validate,
}
use ueg.Strictjson.Trees.{
  Tree, leaf, word, stray, array, object, Trees, nil, cons, Members, end, member, flatten,
  flatten_items, flatten_members, IsStrict, AreStrict, AreDistinct,
}

-- No closing bracket stands for a value.
unfoldable mutual
  pub IsValue : Tree → Type 0
  IsValue leaf = Unit
  IsValue (word s) = Unit
  IsValue (stray d) = ⊥
  IsValue (array ts) = AreValues ts
  IsValue (object ms) = HaveValues ms

  pub AreValues : Trees → Type 0
  AreValues nil = Unit
  AreValues (cons t ts) = IsValue t × AreValues ts

  pub HaveValues : Members → Type 0
  HaveValues end = Unit
  HaveValues (member k t ms) = IsValue t × HaveValues ms

-- The rounds that are enough for a tree.
unfoldable mutual
  rounds : Tree → ℕ
  rounds leaf = 1
  rounds (word s) = 1
  rounds (stray d) = 1
  rounds (array ts) = suc (rounds_items ts)
  rounds (object ms) = suc (rounds_members ms)

  rounds_items : Trees → ℕ
  rounds_items nil = 1
  rounds_items (cons t ts) = suc (rounds t + rounds_items ts)

  rounds_members : Members → ℕ
  rounds_members end = 1
  rounds_members (member k t ms) = suc (rounds t + rounds_members ms)

mutual
  unfolding rounds rounds_items rounds_members flatten flatten_items flatten_members

  rounds_lem :
      (t : Tree) (rest : List Lexed) → suc (rounds t + fuel_for rest) ≤ fuel_for (flatten t rest)
  rounds_lem leaf rest = omega arith
  rounds_lem (word s) rest = omega arith
  rounds_lem (stray d) rest = omega arith
  rounds_lem (array ts) rest = omega (arith, rounds_items_lem ts (token (delim close_array) ∷ rest))
  rounds_lem (object ms) rest =
      omega (arith, rounds_members_lem ms (token (delim close_object) ∷ rest))

  rounds_items_lem :
      (ts : Trees) (rest : List Lexed)
      → rounds_items ts + fuel_for rest ≤ suc (fuel_for (flatten_items ts rest))
  rounds_items_lem nil rest = omega arith
  rounds_items_lem (cons t ts) rest =
      omega (arith, rounds_lem t (flatten_items ts rest), rounds_items_lem ts rest)

  rounds_members_lem :
      (ms : Members) (rest : List Lexed)
      → rounds_members ms + fuel_for rest ≤ suc (fuel_for (flatten_members ms rest))
  rounds_members_lem end rest = omega arith
  rounds_members_lem (member k t ms) rest =
      omega (arith, rounds_lem t (flatten_members ms rest), rounds_members_lem ms rest)

more-flatten : (t : Tree) (rest : List Lexed) → IsValue t → more (flatten t rest) ≡ true
unfolding IsValue flatten
more-flatten leaf rest v = refl
more-flatten (word s) rest v = refl
more-flatten (stray d) rest v = absurd v
more-flatten (array ts) rest v = refl
more-flatten (object ms) rest v = refl

All-ne-any : (k : Text) (seen : List Text) → All (λ o. o ≢ k) seen → any (λ o. o == k) seen ≡ false
All-ne-any k [] h = refl
All-ne-any k (o ∷ seen) (h, t) = ground (arith, text_eq_iff o k, All-ne-any k seen t, h)

mutual
  unfolding scan_value scan_members scan_items rounds rounds_items rounds_members flatten
      flatten_items flatten_members IsStrict AreStrict AreDistinct IsValue AreValues HaveValues

  value_complete :
      (t : Tree) (fuel : ℕ) (rest : List Lexed)
      → rounds t ≤ fuel
      → IsStrict t
      → IsValue t
      → scan_value fuel (flatten t rest) ≡ ok rest
  value_complete leaf zero rest h s v = absurd (omega (arith, h))
  value_complete leaf (suc fuel) rest h s v = refl
  value_complete (word w) zero rest h s v = absurd (omega (arith, h))
  value_complete (word w) (suc fuel) rest h s v = refl
  value_complete (stray d) fuel rest h s v = absurd v
  value_complete (array ts) zero rest h s v = absurd (omega (arith, h))
  value_complete (array ts) (suc fuel) rest h s v =
      items_complete ts fuel rest (omega (arith, h)) s v
  value_complete (object ms) zero rest h s v = absurd (omega (arith, h))
  value_complete (object ms) (suc fuel) rest h s v =
      members_complete ms fuel [] rest (omega (arith, h)) s v

  items_complete :
      (ts : Trees) (fuel : ℕ) (rest : List Lexed)
      → rounds_items ts ≤ fuel
      → AreStrict ts
      → AreValues ts
      → scan_items fuel (flatten_items ts (token (delim close_array) ∷ rest)) ≡ ok rest
  items_complete nil zero rest h s v = absurd (omega (arith, h))
  items_complete nil (suc fuel) rest h s v = refl
  items_complete (cons t ts) zero rest h s v = absurd (omega (arith, h))
  items_complete (cons t ts) (suc fuel) rest h (s, ss) (v, vs) =
      rw
        (
          scan_items,
          more-flatten t (flatten_items ts (token (delim close_array) ∷ rest)) v,
          value_complete t fuel (flatten_items ts (token (delim close_array) ∷ rest))
              (omega (arith, h)) s v,
        )
        (items_complete ts fuel rest (omega (arith, h)) ss vs)

  members_complete :
      (ms : Members) (fuel : ℕ) (seen : List Text) (rest : List Lexed)
      → rounds_members ms ≤ fuel
      → AreDistinct seen ms
      → HaveValues ms
      → scan_members fuel seen (flatten_members ms (token (delim close_object) ∷ rest)) ≡ ok rest
  members_complete end zero seen rest h s v = absurd (omega (arith, h))
  members_complete end (suc fuel) seen rest h s v = refl
  members_complete (member k t ms) zero seen rest h s v = absurd (omega (arith, h))
  members_complete (member k t ms) (suc fuel) seen rest h (fresh, s, ss) (v, vs) =
      rw
        (
          All-ne-any k seen fresh,
          value_complete t fuel (flatten_members ms (token (delim close_object) ∷ rest))
              (omega (arith, h)) s v,
        )
        (members_complete ms fuel (k ∷ seen) rest (omega (arith, h)) ss vs)

-- Validate accepts every well-formed UTF-8 text whose tokens are those of one value in which no object
-- has a key twice: the fuel of the scan suffices.
pub IsStrict-validate :
    (j : Json) (bytes : List ℕ) (t : Tree)
    → valid_after 0 bytes ≡ true
    → j.tokens bytes ≡ flatten t []
    → IsStrict t
    → IsValue t
    → validate j bytes ≡ ok tt
unfolding validate
IsStrict-validate j bytes t h e s v =
    rw (h, e, value_complete t (fuel_for (flatten t [])) [] (omega (arith, rounds_lem t [])) s v)
      refl
