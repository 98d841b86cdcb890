-- ===== src/Ledger/Recovery/Lines.antt =====
-- transaction.go: the lines of a file and what an interrupted append leaves of them.
use mathlib.Core.List.{append-nil, append_assoc}
use ueg.Common.{
  ℕ, zero, suc, ◌≡◌, ◌≢◌, refl, sym, ap, ◌∙◌, ◌⊎◌, inl, inr, Bool, true, false, List, [], ◌∷◌, ◌++◌,
  some, ok, split_rune, has_prefix, last?, take, All, nat_eq_iff, nat_eq, nat_Eq, if◌then◌else◌,
  arith,
}
use ueg.Ledger.Recovery.{
  newline, cut_partial, extend_cut, read_recovery_data, append_record, end_line,
}

-- A file of whole lines.
abbrev pub render : List (List ℕ) → List ℕ
render [] = []
render (l ∷ ls) = l ++ newline ∷ render ls

abbrev pub IsLine : List ℕ → Type 0
IsLine = All (λ b. b ≢ newline)

extend_cut_some :
    (b : ℕ) (l w p : List ℕ) → extend_cut b (l ++ newline ∷ w) p ≡ (b ∷ (l ++ newline ∷ w), p)
extend_cut_some b [] w p = refl
extend_cut_some b (a ∷ l) w p = refl

cut_partial-line :
    (l rest w p : List ℕ)
    → cut_partial rest ≡ (w, p)
    → cut_partial (l ++ newline ∷ rest) ≡ (l ++ newline ∷ w, p)
unfolding cut_partial
cut_partial-line [] rest [] p h = rw h refl
cut_partial-line [] rest (a ∷ w) p h = rw h refl
cut_partial-line (b ∷ l) rest w p h = rw (cut_partial-line l rest w p h) (extend_cut_some b l w p)

cut_partial-IsLine : (p : List ℕ) → IsLine p → cut_partial p ≡ ([], p)
unfolding cut_partial
cut_partial-IsLine [] h = refl
cut_partial-IsLine (b ∷ p) (h, t) =
    rw (cut_partial-IsLine p t) (ground (arith, nat_eq_iff b newline, h))

pub cut_partial-render :
    (ls : List (List ℕ)) (p : List ℕ) → IsLine p → cut_partial (render ls ++ p) ≡ (render ls, p)
cut_partial-render [] p h = cut_partial-IsLine p h
cut_partial-render (l ∷ ls) p h =
    rw (append_line l (render ls) p)
      (cut_partial-line l (render ls ++ p) (render ls) p (cut_partial-render ls p h))
  where
    append_line : (l m p : List ℕ) → ((l ++ newline ∷ m) ++ p) ≡ (l ++ newline ∷ (m ++ p))
    append_line [] m p = refl
    append_line (a ∷ l) m p = ap (λ x. a ∷ x) (append_line l m p)

has_prefix-take : (k : ℕ) (l : List ℕ) → has_prefix l (take k l) ≡ true
unfolding has_prefix
has_prefix-take zero [] = refl
has_prefix-take zero (a ∷ l) = refl
has_prefix-take (suc k) [] = refl
has_prefix-take (suc k) (a ∷ l) = ground (arith, nat_eq_iff a a, has_prefix-take k l)

take-IsLine : (k : ℕ) (l : List ℕ) → IsLine l → IsLine (take k l)
take-IsLine zero l h = tt
take-IsLine (suc k) [] h = tt
take-IsLine (suc k) (a ∷ l) (h, t) = (h, take-IsLine k l t)

-- What is written of a line and its end is part of the line, or all of it.
pub take-cases :
    (k : ℕ) (l : List ℕ) (b : ℕ)
    → (take k (l ++ b ∷ []) ≡ take k l) ⊎ (take k (l ++ b ∷ []) ≡ l ++ b ∷ [])
take-cases zero l b = inl refl
take-cases (suc zero) [] b = inr refl
take-cases (suc (suc k)) [] b = inr refl
take-cases (suc k) (a ∷ l) b = elim (take-cases k l b) [
  | inl e ↦ inl (ap (λ x. a ∷ x) e)
  | inr e ↦ inr (ap (λ x. a ∷ x) e)
]

pub read_recovery_data-partial :
    (ls : List (List ℕ)) (line : List ℕ) (k : ℕ)
    → IsLine line
    → read_recovery_data (render ls ++ take k line) line ≡ ok (render ls)
unfolding read_recovery_data
read_recovery_data-partial ls line k h =
    rw (cut_partial-render ls (take k line) (take-IsLine k line h), has_prefix-take k line) refl

pub read_recovery_data-whole :
    (ls : List (List ℕ)) (line : List ℕ)
    → IsLine line
    → read_recovery_data (render ls) line ≡ ok (render ls)
read_recovery_data-whole ls line h =
    ap (λ bytes. read_recovery_data bytes line) (sym (append-nil (render ls)))
    ∙ read_recovery_data-partial ls line 0 h

last?-line : (l m : List ℕ) → last? (l ++ newline ∷ m) ≡ last? (newline ∷ m)
last?-line [] m = refl
last?-line (a ∷ []) m = refl
last?-line (a ∷ b ∷ l) m = last?-line (b ∷ l) m

last?-cons_render : (ls : List (List ℕ)) → last? (newline ∷ render ls) ≡ some newline
last?-cons_render [] = refl
last?-cons_render ([] ∷ ls) = last?-cons_render ls
last?-cons_render ((a ∷ l) ∷ ls) = last?-line (a ∷ l) (render ls) ∙ last?-cons_render ls

pub render-snoc :
    (ls : List (List ℕ)) (line : List ℕ)
    → render (ls ++ line ∷ []) ≡ render ls ++ (line ++ newline ∷ [])
render-snoc [] line = refl
render-snoc (l ∷ ls) line =
    ap (λ x. l ++ newline ∷ x) (render-snoc ls line)
    ∙ sym (append_assoc l (newline ∷ render ls) (line ++ newline ∷ []))

end_line_ended : (bytes : List ℕ) → last? bytes ≡ some newline → end_line bytes ≡ bytes
unfolding end_line
end_line_ended bytes h = rw (end_line, h) (ground (arith, nat_eq_iff newline newline))

pub append_record-render :
    (ls : List (List ℕ)) (line : List ℕ) → append_record (render ls) line ≡ render (ls ++ line ∷ [])
unfolding append_record
append_record-render [] line = unfold end_line in refl
append_record-render (l ∷ ls) line =
    ap (λ x. x ++ (line ++ newline ∷ []))
      (end_line_ended (render (l ∷ ls)) (last?-line l (render ls) ∙ last?-cons_render ls))
    ∙ sym (render-snoc (l ∷ ls) line)

split_rune_some :
    (bytes : List ℕ) → (t : List ℕ) × (ts : List (List ℕ)) × (split_rune newline bytes ≡ t ∷ ts)
unfolding split_rune
split_rune_some [] = ([], [], refl)
split_rune_some (a ∷ bytes) =
    let (t, ts, e) = split_rune_some bytes in rw e (split_cases t ts (nat_eq a newline))
  where
    split_cases :
        (t : List ℕ) (ts : List (List ℕ)) (b : Bool)
        → (t' : List ℕ) × (ts' : List (List ℕ)) × ((if b then [] ∷ t ∷ ts else (a ∷ t) ∷ ts)
            ≡ t' ∷ ts')
    split_cases t ts true = ([], t ∷ ts, refl)
    split_cases t ts false = (a ∷ t, ts, refl)

-- A line and its end are split off.
split_rune-line :
    (l bytes : List ℕ)
    → IsLine l
    → split_rune newline (l ++ newline ∷ bytes) ≡ l ∷ split_rune newline bytes
unfolding split_rune
split_rune-line [] bytes h = let (t, ts, e) = split_rune_some bytes in rw e refl
split_rune-line (a ∷ l) bytes (h, t) =
    rw (split_rune-line l bytes t) (ground (arith, nat_eq_iff a newline, h))

pub split_rune-render :
    (ls : List (List ℕ)) → All IsLine ls → split_rune newline (render ls) ≡ ls ++ [] ∷ []
split_rune-render [] h = unfold split_rune in refl
split_rune-render (l ∷ ls) (h, t) =
    split_rune-line l (render ls) h ∙ ap (λ x. l ∷ x) (split_rune-render ls t)
