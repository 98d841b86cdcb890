-- ===== src/Gateway/Capture.antt =====
-- gateway.go, outputCapture: the bounded excerpt, the byte count and the digest of a stream. The
-- running hash is the list of the bytes that were written to it; counts are below 2^63.
pub mod Chunks
use ueg.Common.{
  ℕ, ◌+◌, ◌-◌, ◌*◌, ◌≡◌, Bool, true, false, List, [], ◌∷◌, ◌++◌, Option, none, some, Text, length,
  take, ltb, nat_eq, if◌then◌else◌,
}
use ueg.Crypto.{Crypto}
use ueg.Canon.{sha256_hex}

abbrev pub max_excerpt_bytes : ℕ
max_excerpt_bytes = 65536

-- What a write returns: the number of bytes taken, and its error.
pub data WriteError : Type 0 where
  mirror_failed short_write : WriteError

-- The mirror is the writer that output is copied to: for some bytes, how many it takes, and
-- whether it fails.
pub record OutputCapture : Type 0 where
  pub digest : List ℕ
  pub excerpt : List ℕ
  pub bytes : ℕ
  pub mirror : Option (List ℕ → ℕ × Bool)

pub record CapturedOutput : Type 0 where
  pub excerpt : List ℕ
  pub sha256 : Text
  pub bytes : ℕ
  pub truncated : Bool

unfoldable pub new_output_capture : Option (List ℕ → ℕ × Bool) → OutputCapture
new_output_capture mirror = record { digest = []; excerpt = []; bytes = 0; mirror = mirror }

-- The bytes that still fit an excerpt of at most `limit`.
unfoldable pub keep_excerpt : ℕ → List ℕ → List ℕ → List ℕ
keep_excerpt limit excerpt p =
    let remaining = limit - length excerpt in
    if ltb 0 remaining
    then excerpt ++ take (if ltb (length p) remaining then length p else remaining) p
    else excerpt

abbrev pub copied : List ℕ → ℕ × Bool → ℕ × Option WriteError
copied p (n, true) = (n, some mirror_failed)
copied p (n, false) = if nat_eq n (length p) then (length p, none) else (n, some short_write)

abbrev pub mirrored : Option (List ℕ → ℕ × Bool) → List ℕ → ℕ × Option WriteError
mirrored none p = (length p, none)
mirrored (some copy) p = copied p (copy p)

unfoldable pub write : OutputCapture → List ℕ → OutputCapture × (ℕ × Option WriteError)
write o p = (
  record o {
    bytes = o.bytes + length p;
    digest = o.digest ++ p;
    excerpt = keep_excerpt max_excerpt_bytes o.excerpt p;
  },
  mirrored o.mirror p,
)

-- os/exec copies chunks until a write fails.
unfoldable pub write_all : OutputCapture → List (List ℕ) → OutputCapture
write_all o [] = o
write_all o (p ∷ ps) = elim (write o p).1.1 [
  | none ↦ write_all (write o p).0 ps
  | some e ↦ (write o p).0
]

module _ (c : Crypto) where
  unfoldable pub capture_result : OutputCapture → CapturedOutput
  capture_result o = record {
    excerpt = o.excerpt;
    sha256 = sha256_hex c o.digest;
    bytes = o.bytes;
    truncated = ltb (length o.excerpt) o.bytes;
  }
