-- ===== src/Bundle/Archive.antt =====
-- verify.go, readTarGz, and bundle.go, validateMemberLimits: the members of an archive, within the
-- limits on their number and sizes.
pub mod Limits
use ueg.Common.{
  ℕ, ◌+◌, Bool, true, false, not, List, [], ◌∷◌, ◌++◌, Option, none, some, Result, ok, err, ◌>>=◌,
  ◌>>◌, refuse_if, or_fail, Text, length, is_some, lookup, ltb, leb, text_Eq,
}
use ueg.Bundle.{Members, Reason, max_files, max_file_bytes, max_total_bytes, safe_name}

-- What tar.Reader.Next returns before io.EOF: a header with the contents, or an error. Contents that
-- cannot be read are none.
pub record TarEntry : Type 0 where
  pub is_regular : Bool
  pub name : Text
  pub contents : Option (List ℕ)

pub data TarNext : Type 0 where
  entry : TarEntry → TarNext
  broken : TarNext

-- The members so far, the newest first, and their total size.
unfoldable pub read_entries : Members → ℕ → List TarNext → Result Reason Members
read_entries members total [] = ok members
read_entries members total (broken ∷ rest) = err Reason.bad_tar
read_entries members total (entry e ∷ rest) = do
  refuse_if (not e.is_regular) Reason.not_regular
  refuse_if (not (safe_name e.name)) Reason.unsafe_member
  refuse_if (is_some (lookup e.name members)) Reason.duplicate_member
  refuse_if (leb max_files (length members)) Reason.too_many_files
  bytes ← or_fail e.contents Reason.member_unreadable
  refuse_if (ltb max_file_bytes (length bytes)) Reason.member_too_large
  refuse_if (ltb max_total_bytes (total + length bytes)) Reason.bundle_too_large
  read_entries ((e.name, bytes) ∷ members) (total + length bytes) rest

-- A file that cannot be opened, or that is not gzip, is none.
unfoldable pub read_tar_gz : Option (List TarNext) → Result Reason Members
read_tar_gz archive = do
  entries ← or_fail archive Reason.archive_unreadable
  read_entries [] 0 entries

unfoldable pub check_sizes : ℕ → Members → Result Reason (Unit {0})
check_sizes total [] = ok tt
check_sizes total ((name, bytes) ∷ members) = do
  refuse_if (ltb max_file_bytes (length bytes)) Reason.member_too_large
  refuse_if (ltb max_total_bytes (total + length bytes)) Reason.bundle_too_large
  check_sizes (total + length bytes) members

unfoldable pub validate_member_limits : Members → Result Reason (Unit {0})
validate_member_limits members = do
  refuse_if (ltb max_files (length members)) Reason.too_many_files
  check_sizes 0 members
