-- ===== src/Common/Strings.antt =====
-- Go's strings, by their code points, and the parts of package strings that the program uses.
use Prim.Native.Nat.{ℕ, zero, suc, ◌+◌, ◌-◌, ◌*◌, ◌/◌, ◌%◌}
use Prim.Native.Char.{code}
use Prim.Native.String.{String}
use mathlib.Core.Path.{◌≡◌, refl}
use mathlib.Core.Logic.{◌↔◌}
use mathlib.Core.Bool.{Bool, true, false, ◌&&◌, ◌||◌}
use mathlib.Core.List.{List, [], ◌∷◌, ◌++◌, reverse}
use native.Mathlib.Omega.{arith}
use ueg.Common.Tests.{Eq, ltb, leb, nat_eq, if◌then◌else◌}
use ueg.Common.Lists.{length, every, drop}

abbrev pub Text : Type 0
Text = List ℕ

-- A literal of the source.
unfoldable pub text : String → Text
text String.[] = []
text (String.◌∷◌ c s) = code c ∷ text s

unfoldable pub text_eq : Text → Text → Bool
text_eq [] [] = true
text_eq [] (b ∷ t) = false
text_eq (a ∷ s) [] = false
text_eq (a ∷ s) (b ∷ t) = nat_eq a b && text_eq s t

pub text_eq_iff : (s t : Text) → (text_eq s t ≡ true) ↔ (s ≡ t)
unfolding text_eq
text_eq_iff [] [] = ((λ _. refl), (λ _. refl))
text_eq_iff [] (b ∷ t) = ((λ h. cc), (λ h. cc))
text_eq_iff (a ∷ s) [] = ((λ h. cc), (λ h. cc))
text_eq_iff (a ∷ s) (b ∷ t) = let ih = text_eq_iff s t in ground arith

instance abbrev pub text_Eq : Eq Text
text_Eq = record { beq = text_eq; beq_iff = text_eq_iff }

unfoldable pub has_prefix : Text → Text → Bool
has_prefix s [] = true
has_prefix [] (b ∷ t) = false
has_prefix (a ∷ s) (b ∷ t) = nat_eq a b && has_prefix s t

unfoldable pub contains_rune : ℕ → Text → Bool
contains_rune r [] = false
contains_rune r (a ∷ s) = nat_eq a r || contains_rune r s

-- strings.Join.
unfoldable pub join : Text → List Text → Text
join sep [] = []
join sep (s ∷ []) = s
join sep (s ∷ t ∷ ts) = s ++ (sep ++ join sep (t ∷ ts))

-- strings.Split at a separator of one character.
unfoldable pub split_rune : ℕ → Text → List Text
split_rune sep [] = [] ∷ []
split_rune sep (a ∷ s) = elim (split_rune sep s) [
  | [] ↦ [] ∷ []
  | t ∷ ts ↦ if nat_eq a sep then [] ∷ t ∷ ts else (a ∷ t) ∷ ts
]

-- strings.TrimLeft and strings.TrimRight by a test on characters.
unfoldable pub trim_left : (ℕ → Bool) → Text → Text
trim_left p [] = []
trim_left p (a ∷ s) = if p a then trim_left p s else a ∷ s

unfoldable pub trim_right : (ℕ → Bool) → Text → Text
unfolding trim_left
trim_right p s = reverse (trim_left p (reverse s))

unfoldable pub trim : (ℕ → Bool) → Text → Text
unfolding trim_left trim_right
trim p s = trim_right p (trim_left p s)

-- unicode.IsSpace.
unfoldable pub is_space : ℕ → Bool
is_space r =
    (leb 9 r && leb r 13)
    || nat_eq r 32
    || nat_eq r 0x85
    || nat_eq r 0xa0
    || nat_eq r 0x1680
    || (leb 0x2000 r && leb r 0x200a)
    || nat_eq r 0x2028
    || nat_eq r 0x2029
    || nat_eq r 0x202f
    || nat_eq r 0x205f
    || nat_eq r 0x3000

unfoldable pub trim_space : Text → Text
unfolding trim is_space
trim_space = trim is_space

-- The UTF-8 bytes of a text, which hashes and signatures read and `len` counts.
unfoldable pub utf8_rune : ℕ → List ℕ
utf8_rune r =
    if ltb r 0x80
    then r ∷ []
    else if ltb r 0x800
    then (0xc0 + r / 64) ∷ (0x80 + r % 64) ∷ []
    else if ltb r 0x10000
    then (0xe0 + r / 4096) ∷ (0x80 + r / 64 % 64) ∷ (0x80 + r % 64) ∷ []
    else (0xf0 + r / 262144) ∷ (0x80 + r / 4096 % 64) ∷ (0x80 + r / 64 % 64) ∷ (0x80 + r % 64) ∷ []

unfoldable pub utf8 : Text → List ℕ
unfolding utf8_rune
utf8 [] = []
utf8 (r ∷ s) = utf8_rune r ++ utf8 s

-- The lowercase hexadecimal digits that `^[0-9a-f]$` matches.
unfoldable pub is_hex : ℕ → Bool
is_hex c = (leb b'0' c && leb c b'9') || (leb b'a' c && leb c b'f')

-- `^[0-9a-f]{64}$`, and the same behind a fixed beginning.
unfoldable pub is_hex64 : Text → Bool
is_hex64 s = nat_eq (length s) 64 && every is_hex s

unfoldable pub is_hex64_after : Text → Text → Bool
is_hex64_after start s = has_prefix s start && is_hex64 (drop (length start) s)

-- The first character of some bytes and its width: U+FFFD of width 1 where they are not UTF-8.
abbrev pub continues : ℕ → ℕ → ℕ → Bool
continues low high b = leb low b && leb b high

unfoldable pub decode_two : ℕ → List ℕ → ℕ × ℕ
decode_two b0 [] = (65533, 1)
decode_two b0 (b1 ∷ bs) =
    if continues 128 191 b1 then ((b0 - 192) * 64 + (b1 - 128), 2) else (65533, 1)

unfoldable pub decode_three : ℕ → List ℕ → ℕ × ℕ
decode_three b0 (b1 ∷ b2 ∷ bs) =
    let low = if nat_eq b0 224 then 160 else 128 in
    let high = if nat_eq b0 237 then 159 else 191 in
    if continues low high b1 && continues 128 191 b2
    then ((b0 - 224) * 4096 + (b1 - 128) * 64 + (b2 - 128), 3)
    else (65533, 1)
decode_three b0 bs = (65533, 1)

unfoldable pub decode_four : ℕ → List ℕ → ℕ × ℕ
decode_four b0 (b1 ∷ b2 ∷ b3 ∷ bs) =
    let low = if nat_eq b0 240 then 144 else 128 in
    let high = if nat_eq b0 244 then 143 else 191 in
    if continues low high b1 && continues 128 191 b2 && continues 128 191 b3
    then ((b0 - 240) * 262144 + (b1 - 128) * 4096 + (b2 - 128) * 64 + (b3 - 128), 4)
    else (65533, 1)
decode_four b0 bs = (65533, 1)

unfoldable pub decode_rune : ℕ → List ℕ → ℕ × ℕ
decode_rune b0 bs =
    if ltb b0 128
    then (b0, 1)
    else if continues 194 223 b0
    then decode_two b0 bs
    else if continues 224 239 b0
    then decode_three b0 bs
    else if continues 240 244 b0
    then decode_four b0 bs
    else (65533, 1)

-- The characters of a Go string that is these bytes; `skip` bytes belong to the last one.
unfoldable pub decode_after : ℕ → List ℕ → Text
decode_after skip [] = []
decode_after (suc skip) (b ∷ bs) = decode_after skip bs
decode_after zero (b ∷ bs) = (decode_rune b bs).0 ∷ decode_after ((decode_rune b bs).1 - 1) bs

abbrev pub utf8_decode : List ℕ → Text
utf8_decode bs = decode_after 0 bs
