-- ===== src/Ledger/Recovery/Planned.antt =====
-- transaction.go: what recovery plans for a file that an interrupted append left.
use mathlib.Core.List.{append-nil, append_assoc}
use ueg.Common.{
  ℕ, zero, suc, ◌≡◌, refl, sym, ap, ◌∙◌, inl, inr, Bool, true, false, not, ◌&&◌, List, [], ◌∷◌,
  ◌++◌, Result, ok, err, ◌>>=◌, refuse_if, map_err, >>=-eq-ok, Text, take, All, All-append,
  Bool-cases, split_rune, text_eq_iff, text_Eq, ◌==◌, ◌!=◌, if◌then◌else◌, beq_refl, arith,
}
use ueg.Ledger.Recovery.{
  Error, corrupt_line, id_collision, newline, is_blank, parse_lines, parse_data, plan, replan,
}
use ueg.Ledger.Recovery.Lines.{
  render, IsLine, take-cases, read_recovery_data-partial, read_recovery_data-whole,
  append_record-render, split_rune-render, render-snoc,
}

module _ {A : Type 0} (parse : List ℕ → Result ueg.Ledger.Parse.Error A) (id_of : A → Text)
    (line : List ℕ) (id : Text) where
  -- The records of lines that do not hold the pending one, and of lines behind them.
  parse_lines-append :
      (ls ms : List (List ℕ)) (xs ys : List A) (found : Bool)
      → parse_lines parse id_of line id ls ≡ ok (xs, false)
      → parse_lines parse id_of line id ms ≡ ok (ys, found)
      → parse_lines parse id_of line id (ls ++ ms) ≡ ok (xs ++ ys, found)
  unfolding parse_lines
  parse_lines-append [] ms xs ys found h g =
      let e : [] ≡ xs = ground (arith, h) in g ∙ ap (λ l. ok (l ++ ys, found)) e
  parse_lines-append (l ∷ ls) ms xs ys found h g = elim (Bool-cases (is_blank l)) [
    | inl e ↦ rw e (parse_lines-append ls ms xs ys found (rw e at h) g)
    | inr e ↦
        let h1 = rw (parse_lines, e) at h in
        let (a, ha, h2) = >>=-eq-ok (map_err corrupt_line (parse l)) _ h1 in
        let (u, hu, h3) = >>=-eq-ok (refuse_if (id_of a == id && l != line) id_collision) _ h2 in
        let ((zs, b), hz, h4) = >>=-eq-ok (parse_lines parse id_of line id ls) _ h3 in
        elim (Bool-cases (id_of a == id)) [
          | inl q ↦ absurd (ground (arith, h4, q))
          | inr q ↦
              let (ez, eb) = parts a zs b q h4 in
              rw (e, ha, q, parse_lines-append ls ms zs ys found (hz ∙ ap (λ x. ok (zs, x)) eb) g)
                (ap (λ l. ok (l ++ ys, found)) ez)
        ]
  ]
    where
      parts :
          (a : A) (zs : List A) (b : Bool)
          → (id_of a == id) ≡ false
          → ◌≡◌ {A = Result Error (List A × Bool)}
              (ok (a ∷ zs, (if id_of a == id then true else b)))
              (ok (xs, false))
          → (a ∷ zs ≡ xs) × (b ≡ false)
      parts a zs b q h = ground (arith, h, q)

  module _ (ls : List (List ℕ)) (xs : List A) (a : A) (lines : All IsLine ls)
      (is_line : IsLine line) (not_blank : is_blank line ≡ false)
      (old : parse_lines parse id_of line id ls ≡ ok (xs, false)) (new : parse line ≡ ok a)
      (named : id_of a ≡ id) where
    ending : parse_lines parse id_of line id ([] ∷ []) ≡ ok ([], false)
    unfolding parse_lines is_blank ueg.Common.trim_space ueg.Common.trim ueg.Common.trim_right
        ueg.Common.trim_left ueg.Common.text_eq ueg.Common.decode_after
    ending = refl

    new_line : parse_lines parse id_of line id (line ∷ [] ∷ []) ≡ ok (a ∷ [], true)
    unfolding parse_lines
    new_line = rw (parse_lines, not_blank, new, named, beq_refl id, beq_refl line, ending) refl

    parse_data-old : parse_data parse id_of line id (render ls) ≡ ok (xs, false)
    unfolding parse_data
    parse_data-old =
        ap (parse_lines parse id_of line id) (split_rune-render ls lines)
        ∙ parse_lines-append ls ([] ∷ []) xs [] false old ending
        ∙ ap (λ l. ok (l, false)) (append-nil xs)

    parse_data-new :
        parse_data parse id_of line id (render (ls ++ line ∷ [])) ≡ ok (xs ++ a ∷ [], true)
    unfolding parse_data
    parse_data-new =
        ap (parse_lines parse id_of line id) (
          split_rune-render (ls ++ line ∷ []) (All-append IsLine ls (line ∷ []) lines (is_line, tt))
          ∙ append_assoc ls (line ∷ []) ([] ∷ []))
        ∙ parse_lines-append ls (line ∷ [] ∷ []) xs (a ∷ []) true old new_line

    -- However much of the line was written, recovery plans the whole of it, once.
    pub plan-take :
        (continues : List A → Bool) (k : ℕ)
        → continues xs ≡ true
        → plan parse id_of line id continues (render ls ++ take k (line ++ newline ∷ []))
          ≡ ok (render (ls ++ line ∷ []), xs ++ a ∷ [])
    unfolding plan replan
    plan-take continues k c = elim (take-cases k line newline) [
      | inl e ↦
          rw
            (
              e,
              read_recovery_data-partial ls line k is_line,
              parse_data-old,
              c,
              append_record-render ls line,
              parse_data-new,
            )
            refl
      | inr e ↦
          rw
            (
              e,
              sym (render-snoc ls line),
              read_recovery_data-whole (ls ++ line ∷ []) line is_line,
              parse_data-new,
              parse_data-new,
            )
            refl
    ]
