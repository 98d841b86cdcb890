-- ===== src/Bundle/Archive/Limits.antt =====
-- verify.go, readTarGz: the limits that an archive is read within.
use ueg.Common.{
  ℕ, ◌+◌, ◌≤◌, ◌≡◌, inl, inr, true, List, [], ◌∷◌, Option, none, some, ok, length, lookup,
  Option-cases, text_Eq, arith,
}
use ueg.Bundle.{Members, max_files, max_file_bytes, max_total_bytes, safe_name}
use ueg.Bundle.Archive.{
  TarNext, entry, broken, read_entries, read_tar_gz, check_sizes, validate_member_limits,
}

abbrev pub total_bytes : Members → ℕ
total_bytes [] = 0
total_bytes ((name, bytes) ∷ members) = length bytes + total_bytes members

-- Safe names, no name twice, and no member over the limit.
abbrev pub IsClean : Members → Type 0
IsClean [] = Unit
IsClean ((name, bytes) ∷ members) =
    (safe_name name ≡ true)
    × (lookup name members ≡ none)
    × (length bytes ≤ max_file_bytes)
    × IsClean members

pub record IsWithin (members : Members) : Type 0 where
  pub count : length members ≤ max_files
  pub total : total_bytes members ≤ max_total_bytes
  pub clean : IsClean members

read_entries-IsWithin :
    (found : Members) (total : ℕ) (rest : List TarNext) (members : Members)
    → IsWithin found
    → total_bytes found ≡ total
    → read_entries found total rest ≡ ok members
    → IsWithin members
unfolding read_entries
read_entries-IsWithin found total [] members v t h = let e : found ≡ members = cc in rw (← e) v
read_entries-IsWithin found total (broken ∷ rest) members v t h = cc
read_entries-IsWithin found total (entry e ∷ rest) members v t h = elim (Option-cases e.contents) [
  | inl q ↦ absurd (ground arith)
  | inr (bytes, q) ↦
      let absent : lookup e.name found ≡ none = elim (Option-cases (lookup e.name found)) [
        | inl none_there ↦ none_there
        | inr (b, there) ↦ absurd (ground arith)
      ] in
      read_entries-IsWithin ((e.name, bytes) ∷ found) (total + length bytes) rest members
        (record {
          count = ground arith;
          total = ground arith;
          clean = (ground arith, absent, ground arith, v.clean);
        })
        (omega arith) (ground arith)
]

-- An archive is read only if it has at most 200 members, each of at most 10 MiB, of at most 50 MiB
-- together, and under safe names of which none stands twice.
pub read_tar_gz-IsWithin :
    (archive : Option (List TarNext)) (members : Members)
    → read_tar_gz archive ≡ ok members
    → IsWithin members
unfolding read_tar_gz
read_tar_gz-IsWithin none members h = cc
read_tar_gz-IsWithin (some entries) members h =
    read_entries-IsWithin [] 0 entries members
      (record { count = omega arith; total = omega arith; clean = tt }) (omega arith) h

check_sizes-total :
    (total : ℕ) (members : Members)
    → check_sizes total members ≡ ok tt
    → total ≤ max_total_bytes
    → total + total_bytes members ≤ max_total_bytes
unfolding check_sizes
check_sizes-total total [] h t = omega arith
check_sizes-total total ((name, bytes) ∷ members) h t =
    let rest = check_sizes-total (total + length bytes) members (ground arith) (ground arith) in
    omega arith

-- Members that may be exported keep the limits on their number and their total size.
pub validate_member_limits-total :
    (members : Members)
    → validate_member_limits members ≡ ok tt
    → (length members ≤ max_files) × (total_bytes members ≤ max_total_bytes)
unfolding validate_member_limits
validate_member_limits-total members h =
    let total = check_sizes-total 0 members (ground arith) (omega arith) in
    (ground arith, omega arith)
