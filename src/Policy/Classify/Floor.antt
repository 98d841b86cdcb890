-- ===== src/Policy/Classify/Floor.antt =====
-- policy.go, Classify: elevation never leaves a class undoable, wrappers hide no prohibited
-- command, and the first rule that matches decides.
use ueg.Common.{
  ◌≡◌, ◌≢◌, refl, ◌∙◌, Bool, true, false, List, [], ◌∷◌, ◌++◌, none, some, Text, text, All, join,
  ◌||◌, arith,
}
use ueg.Policy.{Class, Rule, RuleSet, Host}
use ueg.Policy.Argv.{
  Args, mem, wrappers, elevating, executable_base, owned_by, strip_wrappers, unwrap, split_args,
}
use ueg.Policy.Argv.Wrappers.{strip_wrapper}
use ueg.Policy.Classify.{
  rule_matches, find_rule, first_operand, classify_effective, classify, is_undoable,
}

module _ (h : Host) (table : RuleSet) where
  effective-elevated :
      (e : Bool) (argv : List Text)
      → (classify_effective h table e argv).elevated ≡ true
      → is_undoable h (classify_effective h table e argv).class ≡ false
  unfolding classify_effective
  effective-elevated e [] q = ground arith
  effective-elevated e (a ∷ rest) q = ground arith

  -- A command classified as elevated is neither reversible nor compensable.
  pub classify-elevated :
      (argv : List Text)
      → (classify h table argv).elevated ≡ true
      → ((classify h table argv).class ≢ Class.reversible)
        × ((classify h table argv).class ≢ Class.compensable)
  unfolding classify
  classify-elevated [] q = cc
  classify-elevated (a ∷ rest) q =
      let u = effective-elevated (unwrap h (a ∷ rest)).1 (unwrap h (a ∷ rest)).0 q in
      ((λ e. ground arith), λ e. ground arith)

  -- Elevation does not change whether a command is prohibited.
  effective-prohibited :
      (e e' : Bool) (argv : List Text)
      → (classify_effective h table e argv).class ≡ Class.prohibited
      → (classify_effective h table e' argv).class ≡ Class.prohibited
  unfolding classify_effective
  effective-prohibited e e' [] q = ground arith
  effective-prohibited e e' (a ∷ rest) q = ground arith

  unwrap-effective :
      (argv eff : List Text) (name : Text)
      → (strip_wrappers h none false argv).0 ≡ name ∷ eff
      → (unwrap h argv).0 ≡ name ∷ eff
  unfolding unwrap
  unwrap-effective argv eff name q = ground arith

  -- A command that is prohibited is prohibited behind a wrapper too, with or without elevation, where
  -- its first word is one that the wrapper does not take for itself (a flag, or VAR=value for env)
  -- and its own wrappers, stripped, leave a word.
  pub classify-wrapper_prohibited :
      (w a name : Text) (rest eff : List Text)
      → (mem (executable_base h w) wrappers || mem (executable_base h w) elevating) ≡ true
      → owned_by (executable_base h w) a ≡ false
      → (strip_wrappers h none false (a ∷ rest)).0 ≡ name ∷ eff
      → (classify h table (a ∷ rest)).class ≡ Class.prohibited
      → (classify h table (w ∷ a ∷ rest)).class ≡ Class.prohibited
  unfolding classify
  classify-wrapper_prohibited w a name rest eff wrap own s q =
      let u = unwrap-effective (a ∷ rest) eff name s in
      let v =
        unwrap-effective (w ∷ a ∷ rest) eff name (strip_wrapper h false w a rest wrap own ∙ s) in
      rw v (
        effective-prohibited (unwrap h (a ∷ rest)).1 (unwrap h (w ∷ a ∷ rest)).1 (name ∷ eff)
          (rw u at q))

  find_rule-first :
      (xs ys : List Rule) (r : Rule) (base sub : Text) (args : Args) (joined : Text)
      → All (λ x. rule_matches h x base sub args joined ≡ false) xs
      → rule_matches h r base sub args joined ≡ true
      → find_rule h (xs ++ r ∷ ys) base sub args joined ≡ some r
  unfolding find_rule
  find_rule-first [] ys r base sub args joined n m = rw m
  find_rule-first (x ∷ xs) ys r base sub args joined n m =
      rw n.0 (find_rule-first xs ys r base sub args joined n.1 m)

  -- What the rules are asked about a command line.
  abbrev pub matches_line : Text → List Text → Rule → Bool
  matches_line name rest x =
      rule_matches h x (executable_base h name) (first_operand h (split_args false rest).operands)
        (split_args false rest) (join (text " ") (name ∷ rest))

  -- The first rule of the table that matches a command which is not elevated gives its class.
  pub classify_first_rule :
      (argv : List Text) (name : Text) (rest : List Text) (xs ys : List Rule) (r : Rule)
      → unwrap h argv ≡ (name ∷ rest, false)
      → argv ≢ []
      → table.rules ≡ xs ++ r ∷ ys
      → All (λ x. matches_line name rest x ≡ false) xs
      → matches_line name rest r ≡ true
      → ((classify h table argv).class ≡ r.class) × ((classify h table argv).rule_id ≡ r.id)
  unfolding classify classify_effective
  classify_first_rule [] name rest xs ys r u ne t n m = absurd (ne refl)
  classify_first_rule (a ∷ more) name rest xs ys r u ne t n m =
      let found =
        find_rule-first xs ys r (executable_base h name)
          (first_operand h (split_args false rest).operands) (split_args false rest)
          (join (text " ") (name ∷ rest)) n m in
      rw (u, t, found) (refl, refl)
