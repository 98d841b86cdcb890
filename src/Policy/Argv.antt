-- ===== src/Policy/Argv.antt =====
-- policy.go: how an argument vector is read. unwrap, executableBase, isWrapperFlag, splitArgs.
pub mod Operands
pub mod Wrappers
use ueg.Common.{
  ℕ, ◌≡◌, Bool, true, false, not, ◌&&◌, ◌||◌, List, [], ◌∷◌, ◌++◌, map, Option, none, some, Text,
  text, text_eq, has_prefix, contains_rune, trim, trim_space, any, length, drop, take, leb, ltb,
  nat_eq, ◌==◌, ◌-◌, text_Eq, if◌then◌else◌,
}
use ueg.Policy.{Host}

abbrev pub mem : Text → List Text → Bool
mem s l = any (λ t. t == s) l

unfoldable pub wrappers : List Text
unfolding text
wrappers =
    text "sudo"
    ∷ text "doas"
    ∷ text "nice"
    ∷ text "nohup"
    ∷ text "time"
    ∷ text "env"
    ∷ text "stdbuf"
    ∷ text "setsid"
    ∷ []

unfoldable pub elevating : List Text
unfolding text
elevating = text "sudo" ∷ text "doas" ∷ text "runas" ∷ []

-- strings.ReplaceAll of one character by one.
unfoldable pub replace_rune : ℕ → ℕ → Text → Text
replace_rune old new s = map (λ r. if nat_eq r old then new else r) s

-- The part behind the last separator.
unfoldable pub after_last : ℕ → Text → Text
after_last sep [] = []
after_last sep (a ∷ s) =
    if contains_rune sep s then after_last sep s else if nat_eq a sep then s else a ∷ s

unfoldable pub has_suffix : Text → Text → Bool
has_suffix s t = leb (length t) (length s) && drop (length s - length t) s == t

unfoldable pub strip_suffix : List Text → Text → Text
unfolding has_suffix
strip_suffix [] s = s
strip_suffix (t ∷ ts) s = if has_suffix s t then take (length s - length t) s else strip_suffix ts s

unfoldable pub executable_suffixes : List Text
unfolding text
executable_suffixes = text ".exe" ∷ text ".com" ∷ text ".bat" ∷ text ".cmd" ∷ []

unfoldable pub is_wrapper_flag : Text → Text → Bool
unfolding text
is_wrapper_flag wrapper flag =
    if wrapper == text "sudo" || wrapper == text "doas"
    then flag == text "-E" || flag == text "-H" || flag == text "-n" || flag == text "-S"
    else if wrapper == text "nice"
    then has_prefix flag (text "-n")
    else if wrapper == text "env"
    then flag == text "-i" || flag == text "-u"
    else false

-- Whether an argument belongs to the wrapper before it: its own flags, and VAR=value.
unfoldable pub owned_by : Text → Text → Bool
unfolding text
owned_by wrapper a =
    if has_prefix a (text "-")
    then is_wrapper_flag wrapper a
    else contains_rune b'=' a && not (has_prefix a (text "/"))

abbrev pub skips : Option Text → Text → Bool
skips none a = false
skips (some wrapper) a = owned_by wrapper a

module _ (h : Host) where
  unfoldable pub executable_base : Text → Text
  unfolding text trim trim_space replace_rune after_last strip_suffix executable_suffixes
  executable_base name = strip_suffix executable_suffixes (
      map h.lower_rune
        (after_last b'/' (replace_rune b'\\' b'/' (trim (λ r. nat_eq r b'"') (trim_space name)))))

  -- The arguments left when leading wrappers are gone, and whether one of them elevates. `wrapper`
  -- is the one just read, while its own arguments are skipped.
  unfoldable pub strip_wrappers : Option Text → Bool → List Text → List Text × Bool
  strip_wrappers wrapper elevated [] = ([], elevated)
  strip_wrappers wrapper elevated (a ∷ rest) =
      let base = executable_base a in
      let skipped = strip_wrappers wrapper elevated rest in
      let unwrapped = strip_wrappers (some base) (elevated || mem base elevating) rest in
      if skips wrapper a
      then skipped
      else if mem base wrappers || mem base elevating
      then unwrapped
      else (a ∷ rest, elevated)

  -- A command line of wrappers alone is left as it is.
  unfoldable pub unwrap : List Text → List Text × Bool
  unwrap argv =
      let (effective, elevated) = strip_wrappers none false argv in
      elim effective [ [] ↦ (argv, elevated) | x ∷ xs ↦ (x ∷ xs, elevated) ]

-- Flags and operands; the flags are the set of a map's keys.
pub record Args : Type 0 where
  pub flags : List Text
  pub operands : List Text

-- The part of a long flag before `=`.
unfoldable pub before_equals : Text → Text
before_equals [] = []
before_equals (a ∷ s) = if nat_eq a b'=' then [] else a ∷ before_equals s

unfoldable pub cluster : Text → List Text
cluster s = map (λ r. b'-' ∷ r ∷ []) s

abbrev pub add_operand : Text → Args → Args
add_operand a r = record r { operands = a ∷ r.operands }

abbrev pub add_flags : List Text → Args → Args
add_flags fs r = record r { flags = fs ++ r.flags }

unfoldable pub split_args : Bool → List Text → Args
unfolding text before_equals cluster
split_args end_of_flags [] = record { flags = []; operands = [] }
split_args true (a ∷ rest) = add_operand a (split_args true rest)
split_args false (a ∷ rest) =
    let after_dashes = split_args true rest in
    let more = split_args false rest in
    if a == text "--"
    then after_dashes
    else if has_prefix a (text "--")
    then add_flags (before_equals a ∷ []) more
    else if has_prefix a (text "-") && ltb 1 (length a)
    then add_flags (a ∷ cluster (drop 1 a)) more
    else add_operand a more
