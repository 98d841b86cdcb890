-- ===== src/Gateway/Capture/Chunks.antt =====
-- gateway.go, outputCapture: what is kept of a stream does not depend on how it is cut into writes.
use mathlib.Core.List.{append_assoc, append-nil}
use ueg.Common.{
  ℕ, zero, suc, ◌-◌, ◌≡◌, refl, sym, ap, ◌∙◌, ◌≤◌, List, [], ◌∷◌, ◌++◌, none, ltb, length, take,
  length-append, length-take, arith, Bool-cases, inl, inr, if◌then◌else◌,
}
use ueg.Crypto.{Crypto}
use ueg.Canon.{sha256_hex}
use ueg.Gateway.Capture.{
  OutputCapture, max_excerpt_bytes, new_output_capture, keep_excerpt, write, write_all,
  capture_result,
}

take_all : (n : ℕ) (xs : List ℕ) → length xs ≤ n → take n xs ≡ xs
take_all zero [] h = refl
take_all zero (x ∷ xs) h = absurd (omega arith)
take_all (suc n) [] h = refl
take_all (suc n) (x ∷ xs) h = ap (◌∷◌ x) (take_all n xs (omega arith))

take-append : (n : ℕ) (xs ys : List ℕ) → take n (xs ++ ys) ≡ take n xs ++ take (n - length xs) ys
take-append zero [] ys = refl
take-append zero (x ∷ xs) ys = rw (zero_sub (length (x ∷ xs)))
  where
    zero_sub : (k : ℕ) → zero - k ≡ zero
    zero_sub k = omega arith
take-append (suc n) [] ys = rw (sub_zero (suc n))
  where
    sub_zero : (k : ℕ) → k - 0 ≡ k
    sub_zero k = omega arith
take-append (suc n) (x ∷ xs) ys = ap (◌∷◌ x) (take-append n xs ys ∙ rw (sub_suc n (length xs)))
  where
    sub_suc : (a b : ℕ) → suc a - suc b ≡ a - b
    sub_suc a b = omega arith

take_short : (n : ℕ) (xs : List ℕ) → n ≡ 0 → take n xs ≡ []
take_short zero xs h = refl
take_short (suc n) xs h = absurd (omega arith)

take_within : (m : ℕ) (p : List ℕ) → take (if ltb (length p) m then length p else m) p ≡ take m p
take_within m p = elim (Bool-cases (ltb (length p) m)) [
  | inl lt ↦ rw lt (take_all (length p) p (omega arith) ∙ sym (take_all m p (ground arith)))
  | inr ge ↦ rw ge
]

-- The excerpt of a stream that is followed by a chunk.
keep_excerpt-take : (n : ℕ) (s p : List ℕ) → keep_excerpt n (take n s) p ≡ take n (s ++ p)
unfolding keep_excerpt
keep_excerpt-take n s p = rw (left n s) (elim (Bool-cases (ltb 0 (n - length s))) [
  | inr full ↦ rw full (
      sym (append-nil (take n s))
      ∙ ap (◌++◌ (take n s)) (sym (take_short (n - length s) p (ground (arith, full))))
      ∙ sym (take-append n s p))
  | inl room ↦
      rw room (ap (◌++◌ (take n s)) (take_within (n - length s) p) ∙ sym (take-append n s p))
])
  where
    left : (n : ℕ) (s : List ℕ) → n - length (take n s) ≡ n - length s
    left n s = omega (arith, length-take n s)

-- What a capture without a mirror keeps of the bytes `s` written so far.
abbrev Keeps : List ℕ → OutputCapture → Type 0
Keeps s o =
    (o.digest ≡ s)
    × (o.bytes ≡ length s)
    × (o.excerpt ≡ take max_excerpt_bytes s)
    × (o.mirror ≡ none)

write-Keeps :
    (s p : List ℕ) (o : OutputCapture)
    → Keeps s o
    → Keeps (s ++ p) (write o p).0 × ((write o p).1.1 ≡ none)
unfolding write
write-Keeps s p o (d, b, e, m) = (
  (
    ap (λ l. l ++ p) d,
    omega (arith, b, length-append s p),
    ap (λ l. keep_excerpt max_excerpt_bytes l p) e ∙ keep_excerpt-take max_excerpt_bytes s p,
    m,
  ),
  rw m,
)

-- The bytes of a run of writes.
abbrev pub stream : List (List ℕ) → List ℕ
stream [] = []
stream (p ∷ ps) = p ++ stream ps

write_all-Keeps :
    (s : List ℕ) (ps : List (List ℕ)) (o : OutputCapture)
    → Keeps s o
    → Keeps (s ++ stream ps) (write_all o ps)
unfolding write_all
write_all-Keeps s [] o k = rw (append-nil s) k
write_all-Keeps s (p ∷ ps) o k =
    let (kept, fine) = write-Keeps s p o k in
    rw (fine, write_all, ← append_assoc s p (stream ps))
      (write_all-Keeps (s ++ p) ps (write o p).0 kept)

-- Without a mirror the evidence of a stream is its first 65536 bytes, the digest and the length of
-- all of it, and whether it is longer, however the stream is cut into writes.
pub capture_result-write_all :
    (c : Crypto) (ps : List (List ℕ))
    → (let r = capture_result c (write_all (new_output_capture none) ps) in
        (r.excerpt ≡ take max_excerpt_bytes (stream ps))
        × (r.sha256 ≡ sha256_hex c (stream ps))
        × (r.bytes ≡ length (stream ps))
        × (r.truncated ≡ ltb max_excerpt_bytes (length (stream ps))))
unfolding capture_result new_output_capture
capture_result-write_all c ps =
    let (d, b, e, m) = write_all-Keeps [] ps (new_output_capture none) (refl, refl, refl, refl) in
    (e, ap (sha256_hex c) d, b, rw (e, b) (truncated_iff max_excerpt_bytes (stream ps)))
  where
    truncated_iff : (n : ℕ) (s : List ℕ) → ltb (length (take n s)) (length s) ≡ ltb n (length s)
    truncated_iff n s = rw (length-take n s) (ground arith)
