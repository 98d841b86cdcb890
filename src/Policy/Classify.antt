-- ===== src/Policy/Classify.antt =====
-- policy.go, Classify and the matching of rules.
pub mod Floor
use ueg.Common.{
  ℕ, ◌≡◌, Bool, true, false, not, ◌&&◌, ◌||◌, List, [], ◌∷◌, ◌++◌, map, Option, none, some, Text,
  text, join, any, every, length, is_some, ◌==◌, text_Eq, if◌then◌else◌,
}
use ueg.Policy.{Class, Rule, RuleSet, Classification, Host}
use ueg.Policy.Argv.{Args, mem, executable_base, unwrap, split_args}

abbrev pub is_empty : {A : Type 0} → List A → Bool
is_empty [] = true
is_empty (x ∷ xs) = false

module _ (h : Host) where
  unfoldable pub equal_fold : Text → Text → Bool
  equal_fold s t = map h.fold_rune s == map h.fold_rune t

  unfoldable pub contains : List Text → Text → Bool
  contains l want = any (λ item. equal_fold item want) l

  unfoldable pub any_flag : List Text → List Text → Bool
  any_flag flags want = any (λ f. mem f flags) want

  unfoldable pub rule_matches : Rule → Text → Text → Args → Text → Bool
  unfolding contains any_flag
  rule_matches r base sub args joined =
      not (not (is_empty r.cmd) && not (contains r.cmd base))
      && not (is_empty r.cmd && is_empty r.args_regex && is_empty r.flags_any)
      && not (not (is_empty r.subcmd) && not (contains r.subcmd sub))
      && not (not (is_empty r.flags_any) && not (any_flag args.flags r.flags_any))
      && every (λ f. mem f args.flags) r.flags_all
      && not (not (is_empty r.args_regex) && not (h.match_regex r.args_regex joined))
      && (not r.operand_is_root || any h.root_like args.operands)

  -- The first rule that matches.
  unfoldable pub find_rule : List Rule → Text → Text → Args → Text → Option Rule
  find_rule [] base sub args joined = none
  find_rule (r ∷ rs) base sub args joined =
      if rule_matches r base sub args joined then some r else find_rule rs base sub args joined

  unfoldable pub first_operand : List Text → Text
  first_operand [] = []
  first_operand (o ∷ os) = map h.lower_rune o

  abbrev pub is_undoable : Class → Bool
  is_undoable Class.reversible = true
  is_undoable Class.compensable = true
  is_undoable _ = false

  -- The rule's answer, or the table's answer where no rule matches.
  unfoldable pub from_rule : RuleSet → Bool → List Text → Option Rule → Classification
  unfolding text
  from_rule table elevated effective none = record {
    class = table.unmatched_class;
    rule_id = text "unmatched";
    surface = text "process.spawn";
    reason = text "no rule in the table describes this command";
    elevated = elevated;
    effective = effective;
  }
  from_rule table elevated effective (some r) = record {
    class = r.class;
    rule_id = r.id;
    surface = r.surface;
    reason = r.note;
    elevated = elevated;
    effective = effective;
  }

  -- Elevation raises the floor.
  unfoldable pub raise_floor : Classification → Classification
  unfolding text
  raise_floor c =
      if c.elevated && is_undoable c.class
      then record c {
        class = Class.irrevocable;
        reason =
            c.reason
            ++ text
                "; elevated with sudo/doas, so the prior state may not be restorable by this account";
        rule_id = c.rule_id ++ text "+elevated";
      }
      else c

  -- `unwrap` never returns an empty vector for one that is not, so the first clause is not reached.
  unfoldable pub classify_effective : RuleSet → Bool → List Text → Classification
  unfolding from_rule raise_floor text
  classify_effective table elevated [] = raise_floor (from_rule table elevated [] none)
  classify_effective table elevated (name ∷ rest) =
      let args = split_args false rest in
      raise_floor (
        from_rule table elevated (name ∷ rest) (
          find_rule table.rules (executable_base h name) (first_operand args.operands) args
            (join (text " ") (name ∷ rest))))

  unfoldable pub classify : RuleSet → List Text → Classification
  unfolding text classify_effective
  classify table [] = record {
    class = Class.unclassified;
    rule_id = text "none";
    surface = text "process.spawn";
    reason = text "empty command";
    elevated = false;
    effective = [];
  }
  classify table (name ∷ rest) =
      let (effective, elevated) = unwrap h (name ∷ rest) in
      classify_effective table elevated effective
