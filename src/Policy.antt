-- ===== src/Policy.antt =====
-- internal/policy/policy.go: the classes, rules and decisions of the gate. The rule table is the
-- parsed rules.json. Go's Unicode tables, the regexp package and the look at an operand that needs
-- the environment and the home directory (rootLike) are the parameter `Host`.
pub mod Argv
pub mod Classify
pub mod Decide
use ueg.Common.{ℕ, ◌≡◌, ◌↔◌, Bool, true, false, List, Text, text, text_eq, text_eq_iff, Eq, arith}

pub data Class : Type 0 where
  reversible compensable irrevocable prohibited unclassified : Class
  other : Text → Class

pub data Posture : Type 0 where
  enforce observe : Posture
  other : Text → Posture

pub data Outcome : Type 0 where
  admitted refused : Outcome

unfoldable pub class_text : Class → Text
unfolding text
class_text Class.reversible = text "REVERSIBLE"
class_text Class.compensable = text "COMPENSABLE"
class_text Class.irrevocable = text "IRREVOCABLE"
class_text Class.prohibited = text "PROHIBITED"
class_text Class.unclassified = text "UNCLASSIFIED"
class_text (Class.other s) = s

unfoldable pub posture_text : Posture → Text
unfolding text
posture_text Posture.enforce = text "enforce"
posture_text Posture.observe = text "observe"
posture_text (Posture.other s) = s

unfoldable pub outcome_text : Outcome → Text
unfolding text
outcome_text Outcome.admitted = text "ADMITTED"
outcome_text Outcome.refused = text "REFUSED"

-- `args_regex` is empty where a rule has no pattern.
pub record Rule : Type 0 where
  pub id : Text
  pub class : Class
  pub surface : Text
  pub cmd : List Text
  pub subcmd : List Text
  pub flags_any : List Text
  pub flags_all : List Text
  pub args_regex : Text
  pub operand_is_root : Bool
  pub note : Text

pub record RuleSet : Type 0 where
  pub version : Text
  pub unmatched_class : Class
  pub rules : List Rule

pub record Classification : Type 0 where
  pub class : Class
  pub rule_id : Text
  pub surface : Text
  pub reason : Text
  pub elevated : Bool
  pub effective : List Text

pub record Approvals : Type 0 where
  pub irrevocable : Bool
  pub unclassified : Bool

pub record Decision : Type 0 where
  pub outcome : Outcome
  pub reason : Text
  pub posture : Posture
  pub approval : Text
  pub class : Class
  pub rule_id : Text

-- unicode.ToLower, the least character of an orbit of unicode.SimpleFold, whether a pattern
-- matches a text, and rootLike.
pub record Host : Type 0 where
  pub lower_rune : ℕ → ℕ
  pub fold_rune : ℕ → ℕ
  pub match_regex : Text → Text → Bool
  pub root_like : Text → Bool
