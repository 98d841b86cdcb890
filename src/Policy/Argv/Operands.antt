-- ===== src/Policy/Argv/Operands.antt =====
-- policy.go, splitArgs: what follows `--` is never a flag.
use ueg.Common.{
  ◌≡◌, refl, true, false, List, [], ◌∷◌, ◌++◌, Text, text, text_eq_iff, All, ◌≢◌, arith,
}
use ueg.Policy.Argv.{split_args}

after_dashes : (ys : List Text) → split_args true ys ≡ record { flags = []; operands = ys }
unfolding split_args
after_dashes [] = refl
after_dashes (y ∷ ys) = ground (arith, after_dashes ys)

-- Arguments up to a first `--` alone give flags; all behind it are operands, in their order, even
-- where they begin with a dash.
pub split_args-dashes :
    (xs ys : List Text)
    → All (λ x. x ≢ text "--") xs
    → split_args false (xs ++ text "--" ∷ ys) ≡ record {
      flags = (split_args false xs).flags;
      operands = (split_args false xs).operands ++ ys;
    }
unfolding split_args
split_args-dashes [] ys h = ground (arith, text_eq_iff (text "--") (text "--"), after_dashes ys)
split_args-dashes (x ∷ xs) ys h =
    ground (arith, text_eq_iff x (text "--"), h.0, split_args-dashes xs ys h.1)
