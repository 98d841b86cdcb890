-- ===== src/Canon.antt =====
-- internal/canon/canon.go: canonical JSON and hashes. A Go string is its list of code points, and
-- an ill-formed byte is U+FFFD, as `range` yields it. Canonicalize fails by `none`.
pub mod Merkle
pub mod Hex
use ueg.Common.{
  ℕ, zero, suc, ◌+◌, ◌-◌, ◌/◌, ◌%◌, Bool, true, false, List, [], ◌∷◌, ◌++◌, Option, none, some, ℤ,
  pos, negsuc, Text, text, utf8, ltb, nat_eq, if◌then◌else◌,
}
use ueg.Crypto.{Crypto}

-- `int` stands for Go's int and int64, which print alike, `strs` for []string, `float` for a float
-- (by its integral part, all that the program reads of one) and `number` for a json.Number.
mutual
  pub data Value : Type 0 where
    null : Value
    bool : Bool → Value
    int : ℤ → Value
    str : Text → Value
    strs : List Text → Value
    arr : Items → Value
    obj : Fields → Value
    float : ℤ → Value
    number : Text → Value
    unsupported : Value

  pub data Items : Type 0 where
    nil : Items
    cons : Value → Items → Items

  pub data Fields : Type 0 where
    end : Fields
    field : Text → Value → Fields → Fields

unfoldable pub hex_digit : ℕ → ℕ
hex_digit d = if ltb d 10 then b'0' + d else b'a' + (d - 10)

-- encoding/hex.EncodeToString.
unfoldable pub hex : List ℕ → Text
unfolding hex_digit
hex [] = []
hex (b ∷ bs) = hex_digit (b / 16) ∷ hex_digit (b % 16) ∷ hex bs

-- One character of a JSON string; a control character is below 0x20.
unfoldable pub escape_rune : ℕ → Text
unfolding hex_digit text
escape_rune r =
    if nat_eq r b'"'
    then b'\\' ∷ b'"' ∷ []
    else if nat_eq r b'\\'
    then b'\\' ∷ b'\\' ∷ []
    else if nat_eq r 8
    then b'\\' ∷ b'b' ∷ []
    else if nat_eq r 12
    then b'\\' ∷ b'f' ∷ []
    else if nat_eq r 10
    then b'\\' ∷ b'n' ∷ []
    else if nat_eq r 13
    then b'\\' ∷ b'r' ∷ []
    else if nat_eq r 9
    then b'\\' ∷ b't' ∷ []
    else if ltb r 0x20
    then b'\\' ∷ b'u' ∷ b'0' ∷ b'0' ∷ hex_digit (r / 16) ∷ hex_digit (r % 16) ∷ []
    else if nat_eq r 0xfffd
    then text "\\ufffd"
    else r ∷ []

unfoldable pub escape : Text → Text
unfolding escape_rune
escape [] = []
escape (r ∷ s) = escape_rune r ++ escape s

unfoldable pub encode_string : Text → Text
unfolding escape
encode_string s = b'"' ∷ (escape s ++ b'"' ∷ [])

-- strconv.FormatInt in base 10: a 64-bit magnitude has at most 20 digits.
unfoldable pub decimal : ℕ → ℕ → Text → Text
decimal zero n acc = acc
decimal (suc fuel) n acc =
    let digits = (b'0' + n % 10) ∷ acc in
    let rest = decimal fuel (n / 10) digits in if ltb n 10 then digits else rest

unfoldable pub format_int : ℤ → Text
unfolding decimal
format_int (pos n) = decimal 20 n []
format_int (negsuc n) = b'-' ∷ decimal 20 (n + 1) []

-- sort.Strings compares bytes, which orders texts by their code points.
unfoldable pub text_lt : Text → Text → Bool
text_lt s [] = false
text_lt [] (b ∷ t) = true
text_lt (a ∷ s) (b ∷ t) = if ltb a b then true else if nat_eq a b then text_lt s t else false

-- A member of an object, its key and its encoded value.
abbrev pub Member : Type 0
Member = Text × Text

unfoldable pub insert_member : Member → List Member → List Member
unfolding text_lt
insert_member (k, v) [] = (k, v) ∷ []
insert_member (k, v) ((j, w) ∷ m) =
    if text_lt j k then (j, w) ∷ insert_member (k, v) m else (k, v) ∷ (j, w) ∷ m

unfoldable pub sort_members : List Member → List Member
unfolding insert_member
sort_members [] = []
sort_members (x ∷ m) = insert_member x (sort_members m)

pub print_items : List Text → Text
print_items [] = []
print_items (x ∷ []) = x
print_items (x ∷ y ∷ xs) = x ++ (b',' ∷ print_items (y ∷ xs))

pub print_members : List Member → List Text
unfolding encode_string
print_members [] = []
print_members ((k, v) ∷ m) = (encode_string k ++ (b':' ∷ v)) ∷ print_members m

pub encode_strings : List Text → List Text
unfolding encode_string
encode_strings [] = []
encode_strings (s ∷ l) = encode_string s ∷ encode_strings l

pub add_item : Option Text → Option (List Text) → Option (List Text)
add_item none _ = none
add_item (some x) none = none
add_item (some x) (some xs) = some (x ∷ xs)

pub add_member : Text → Option Text → Option (List Member) → Option (List Member)
add_member k none _ = none
add_member k (some x) none = none
add_member k (some x) (some xs) = some ((k, x) ∷ xs)

pub close_array : Option (List Text) → Option Text
unfolding print_items
close_array none = none
close_array (some l) = some (b'[' ∷ (print_items l ++ b']' ∷ []))

pub close_object : Option (List Member) → Option Text
unfolding print_items print_members sort_members
close_object none = none
close_object (some m) = some (b'{' ∷ (print_items (print_members (sort_members m)) ++ b'}' ∷ []))

unfoldable mutual
  unfolding add_item add_member close_array close_object encode_string encode_strings format_int
      text

  pub encode : Value → Option Text
  encode null = some (text "null")
  encode (bool true) = some (text "true")
  encode (bool false) = some (text "false")
  encode (int n) = some (format_int n)
  encode (str s) = some (encode_string s)
  encode (strs l) = close_array (some (encode_strings l))
  encode (arr xs) = close_array (encode_items xs)
  encode (obj fs) = close_object (encode_fields fs)
  encode (float n) = none
  encode (number s) = none
  encode unsupported = none

  pub encode_items : Items → Option (List Text)
  encode_items nil = some []
  encode_items (cons x xs) = add_item (encode x) (encode_items xs)

  pub encode_fields : Fields → Option (List Member)
  encode_fields end = some []
  encode_fields (field k v fs) = add_member k (encode v) (encode_fields fs)

-- Items and fields from lists, to write the objects of the source.
unfoldable pub items : List Value → Items
items [] = nil
items (v ∷ vs) = cons v (items vs)

unfoldable pub object : List (Text × Value) → Value
object l = obj (fields l)
  where
    fields : List (Text × Value) → Fields
    fields [] = end
    fields ((k, v) ∷ r) = field k v (fields r)

module _ (c : Crypto) where
  unfoldable pub sha256_hex : List ℕ → Text
  unfolding hex
  sha256_hex data_bytes = hex (c.sha256 data_bytes)

  pub hash_text : Option Text → Option Text
  unfolding sha256_hex
  hash_text none = none
  hash_text (some s) = some (sha256_hex (utf8 s))

  unfoldable pub hash_jcs : Value → Option Text
  unfolding hash_text encode
  hash_jcs v = hash_text (encode v)
