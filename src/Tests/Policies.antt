-- ===== src/Tests/Policies.antt =====
-- internal/policy and internal/keys at concrete commands and keys.
use ueg.Common.{
  false, true, ◌↔◌, ◌⊎◌, ◌≡◌, ◌≢◌, refl, ◌⊎◌, ◌↔◌, true, false, List, [], ◌∷◌, ◌++◌, Text, text,
  text_eq, has_prefix, contains_rune,
}
use ueg.Keys.{Pair, sign_b64, verify_b64}
use ueg.Keys.Signing.{verify_b64-sign_b64}
use ueg.Policy.{Class, Posture, Outcome, Classification, Approvals, Decision, RuleSet}
use ueg.Policy.Argv.{split_args, unwrap, strip_wrappers, executable_base, owned_by, mem}
use ueg.Policy.Argv.Operands.{split_args-dashes}
use ueg.Policy.Classify.{
  classify, classify_effective, rule_matches, find_rule, from_rule, raise_floor, first_operand,
  is_undoable,
}
use ueg.Policy.Classify.Floor.{classify-elevated, classify-wrapper_prohibited, classify_first_rule}
use ueg.Policy.Decide.{decide}
use ueg.Policy.Decide.Admission.{MayRun, IsCounted, decide_iff, decide-approval}
use ueg.Tests.Toy.{toy, toy_laws, host, table, list_rule, format_rule, repeat}

abbrev pair : Pair
pair = record { private = repeat 64 1; public = repeat 32 2 }

verify_b64-sign_b64_example : verify_b64 toy pair (1 ∷ 2 ∷ []) (repeat 64 b'a') ≡ true
unfolding sign_b64
verify_b64-sign_b64_example =
    verify_b64-sign_b64 toy toy_laws pair (1 ∷ 2 ∷ []) (λ m. refl) refl refl

abbrev erase : Classification
erase = record {
  class = Class.irrevocable;
  rule_id = text "I1";
  surface = text "file";
  reason = text "erases";
  elevated = false;
  effective = text "rm" ∷ [];
}

abbrev operator : Approvals
operator = record { irrevocable = true; unclassified = false }

decide_iff_example :
    ((decide erase Posture.enforce operator).outcome ≡ Outcome.admitted)
    ↔ MayRun Posture.enforce operator Class.irrevocable
decide_iff_example = decide_iff erase Posture.enforce operator

decide-approval_example :
    (((decide erase Posture.enforce operator).approval ≡ text "operator")
      ↔ IsCounted Class.irrevocable true erase Posture.enforce)
    × (((decide erase Posture.enforce operator).approval ≡ text "operator-unclassified")
        ↔ IsCounted Class.unclassified false erase Posture.enforce)
    × (((decide erase Posture.enforce operator).approval ≡ text "none")
        ⊎ IsCounted Class.irrevocable true erase Posture.enforce
        ⊎ IsCounted Class.unclassified false erase Posture.enforce)
decide-approval_example = decide-approval erase Posture.enforce operator

split_args-dashes_example : split_args false (text "-rf" ∷ text "--" ∷ text "-x" ∷ []) ≡ record {
  flags = (split_args false (text "-rf" ∷ [])).flags;
  operands = (split_args false (text "-rf" ∷ [])).operands ++ text "-x" ∷ [];
}
unfolding text
split_args-dashes_example = split_args-dashes (text "-rf" ∷ []) (text "-x" ∷ []) ((λ e. cc), tt)

abbrev under_sudo : List Text
under_sudo = text "sudo" ∷ text "ls" ∷ []

classify-elevated_example :
    ((classify host table under_sudo).class ≢ Class.reversible)
    × ((classify host table under_sudo).class ≢ Class.compensable)
unfolding text classify classify_effective unwrap strip_wrappers executable_base
    ueg.Policy.Argv.wrappers text_eq contains_rune owned_by has_prefix ueg.Policy.Argv.elevating
    find_rule rule_matches ueg.Policy.Classify.equal_fold
classify-elevated_example = classify-elevated host table under_sudo refl

classify-wrapper_prohibited_example :
    (classify host table (text "sudo" ∷ text "mkfs" ∷ [])).class ≡ Class.prohibited
unfolding text classify classify_effective unwrap strip_wrappers executable_base find_rule from_rule
    ueg.Policy.Argv.wrappers text_eq contains_rune owned_by has_prefix ueg.Policy.Argv.elevating
    rule_matches ueg.Policy.Classify.equal_fold
classify-wrapper_prohibited_example =
    classify-wrapper_prohibited host table (text "sudo") (text "mkfs") (text "mkfs") [] [] refl refl
      refl refl

classify_first_rule_example :
    ((classify host table (text "mkfs" ∷ [])).class ≡ Class.prohibited)
    × ((classify host table (text "mkfs" ∷ [])).rule_id ≡ text "P1")
unfolding text classify classify_effective unwrap strip_wrappers executable_base find_rule from_rule
    rule_matches ueg.Policy.Argv.wrappers text_eq contains_rune ueg.Policy.Argv.elevating
    ueg.Policy.Classify.equal_fold
classify_first_rule_example =
    classify_first_rule host table (text "mkfs" ∷ []) (text "mkfs") [] (list_rule ∷ []) []
      format_rule refl (λ e. cc) refl (refl, tt) refl
