-- ===== src/Strictjson.antt =====
-- internal/strictjson/strictjson.go. Package encoding/json is a parameter: what Decoder.Token returns
-- on a text, one after the other, and what Decoder.Decode makes of a text that is one value.
pub mod Trees
pub mod Accepted
pub mod Complete
use ueg.Common.{
  ℕ, zero, suc, Bool, true, false, not, ◌&&◌, List, [], ◌∷◌, Option, none, some, Result, ok, err,
  ◌>>=◌, ◌>>◌, refuse_if, or_fail, Text, any, length, nat_eq, decode_rune, ◌-◌, ◌==◌, text_Eq,
  if◌then◌else◌,
}
use ueg.Canon.{Value}

pub data Delim : Type 0 where
  open_object close_object open_array close_array : Delim

-- `scalar` is a number, a Boolean or null.
pub data Token : Type 0 where
  delim : Delim → Token
  string : Text → Token
  scalar : Token

-- `failure` is an error of the decoder; the end of the list is io.EOF.
pub data Lexed : Type 0 where
  token : Token → Lexed
  failure : Lexed

pub record Json : Type 0 where
  pub tokens : List ℕ → List Lexed
  pub decode : List ℕ → Option Value

pub data Error : Type 0 where
  invalid_utf8 unexpected_end malformed key_not_string : Error
  duplicate_key : Text → Error
  object_not_closed array_not_closed trailing_value not_decoded : Error

-- utf8.Valid: no character is the replacement of an ill-formed byte.
abbrev pub is_ill_formed : ℕ × ℕ → Bool
is_ill_formed (r, width) = nat_eq r 65533 && nat_eq width 1

unfoldable pub valid_after : ℕ → List ℕ → Bool
valid_after skip [] = true
valid_after (suc skip) (b ∷ bs) = valid_after skip bs
valid_after zero (b ∷ bs) =
    not (is_ill_formed (decode_rune b bs)) && valid_after ((decode_rune b bs).1 - 1) bs

-- Decoder.More.
abbrev pub more : List Lexed → Bool
more [] = false
more (token (delim close_object) ∷ ts) = false
more (token (delim close_array) ∷ ts) = false
more _ = true

abbrev pub close_with : Delim → Error → List Lexed → Result Error (List Lexed)
close_with d e [] = err unexpected_end
close_with d e (failure ∷ ts) = err malformed
close_with close_object e (token (delim close_object) ∷ ts) = ok ts
close_with close_array e (token (delim close_array) ∷ ts) = ok ts
close_with d e _ = err e

-- An object key.
abbrev pub next_key : List Text → List Lexed → Result Error (Text × List Lexed)
next_key seen [] = err unexpected_end
next_key seen (failure ∷ ts) = err malformed
next_key seen (token (string k) ∷ ts) =
    if any (λ other. other == k) seen then err (duplicate_key k) else ok (k, ts)
next_key seen (token _ ∷ ts) = err key_not_string

unfoldable mutual
  -- scanValue, and its two loops; each round takes a token.
  pub scan_value : ℕ → List Lexed → Result Error (List Lexed)
  scan_value zero ts = err malformed
  scan_value (suc fuel) [] = err unexpected_end
  scan_value (suc fuel) (failure ∷ ts) = err malformed
  scan_value (suc fuel) (token (delim open_object) ∷ ts) = scan_members fuel [] ts
  scan_value (suc fuel) (token (delim open_array) ∷ ts) = scan_items fuel ts
  scan_value (suc fuel) (token (delim close_object) ∷ ts) = ok ts
  scan_value (suc fuel) (token (delim close_array) ∷ ts) = ok ts
  scan_value (suc fuel) (token (string s) ∷ ts) = ok ts
  scan_value (suc fuel) (token scalar ∷ ts) = ok ts

  pub scan_members : ℕ → List Text → List Lexed → Result Error (List Lexed)
  scan_members zero seen ts = err malformed
  scan_members (suc fuel) seen ts = elim (more ts) [
    | false ↦ close_with close_object object_not_closed ts
    | true ↦ next_key seen ts >>= λ (p : Text × List Lexed).
        scan_value fuel p.1 >>= λ (rest : List Lexed). scan_members fuel (p.0 ∷ seen) rest
  ]

  pub scan_items : ℕ → List Lexed → Result Error (List Lexed)
  scan_items zero ts = err malformed
  scan_items (suc fuel) ts = elim (more ts) [
    | false ↦ close_with close_array array_not_closed ts
    | true ↦ scan_value fuel ts >>= λ (rest : List Lexed). scan_items fuel rest
  ]

abbrev pub at_end : List Lexed → Result Error (Unit {0})
at_end [] = ok tt
at_end (failure ∷ ts) = err malformed
at_end (token t ∷ ts) = err trailing_value

-- Two rounds for each token are enough.
abbrev pub fuel_for : List Lexed → ℕ
fuel_for [] = 1
fuel_for (t ∷ ts) = suc (suc (fuel_for ts))

module _ (j : Json) where
  unfoldable pub validate : List ℕ → Result Error (Unit {0})
  validate bytes = do
    refuse_if (not (valid_after 0 bytes)) invalid_utf8
    rest ← scan_value (fuel_for (j.tokens bytes)) (j.tokens bytes)
    at_end rest

  -- Unmarshal into a destination that `read` fills.
  unfoldable pub unmarshal_by : {A : Type 0} → (List ℕ → Option A) → List ℕ → Result Error A
  unmarshal_by read bytes = do validate bytes; or_fail (read bytes) not_decoded

  unfoldable pub unmarshal : List ℕ → Result Error Value
  unfolding unmarshal_by
  unmarshal = unmarshal_by j.decode
