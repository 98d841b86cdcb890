-- ===== src/Policy/Decide.antt =====
-- policy.go, Decide and Snapshot: the posture applied to a classification.
pub mod Admission
use ueg.Common.{◌≡◌, Bool, List, [], ◌∷◌, ◌++◌, Option, Text, text, if◌then◌else◌}
use ueg.Crypto.{Crypto}
use ueg.Canon.{Value, bool, str, object, hash_jcs}
use ueg.Policy.{
  Class, Posture, Outcome, RuleSet, Classification, Approvals, Decision, class_text, posture_text,
}

abbrev pub is_prohibited : Class → Bool
is_prohibited Class.prohibited = Bool.true
is_prohibited _ = Bool.false

abbrev pub is_observe : Posture → Bool
is_observe Posture.observe = Bool.true
is_observe _ = Bool.false

-- The switch on the class, under a posture that gates.
unfoldable pub gate : Class → Text → Approvals → Decision → Decision
unfolding text class_text
gate Class.irrevocable reason a d =
    if a.irrevocable
    then record d {
      approval = text "operator";
      reason = text "irrevocable effect approved by operator";
    }
    else record d {
      outcome = Outcome.refused;
      reason = text "irrevocable effect requires --approve: " ++ reason;
    }
gate Class.unclassified reason a d =
    if a.unclassified
    then record d {
      approval = text "operator-unclassified";
      reason = text "unclassified command allowed by operator";
    }
    else record d {
      outcome = Outcome.refused;
      reason = text "unclassified command requires --allow-unclassified: " ++ reason;
    }
gate Class.compensable reason a d = record d {
  reason = class_text Class.compensable ++ text " effect admitted";
}
gate Class.reversible reason a d = record d {
  reason = class_text Class.reversible ++ text " effect admitted";
}
gate _ reason a d = record d { outcome = Outcome.refused; reason = text "unknown effect class" }

-- The decision that the tests of Decide start from.
abbrev pub undecided : Classification → Posture → Decision
undecided c posture = record {
  outcome = Outcome.admitted;
  reason = [];
  posture = posture;
  approval = text "none";
  class = c.class;
  rule_id = c.rule_id;
}

unfoldable pub decide : Classification → Posture → Approvals → Decision
unfolding text gate
decide c posture approvals =
    let d : Decision = undecided c posture in
    if is_prohibited c.class
    then record d { outcome = Outcome.refused; reason = text "prohibited effect: " ++ c.reason }
    else if is_observe posture
    then record d {
      reason = text "observe posture: classification recorded; non-prohibited effect not gated";
    }
    else gate c.class c.reason approvals d

-- What `policy_hash` is taken over; `rules_hash` is the hash of the rule file.
unfoldable pub snapshot : RuleSet → Text → Posture → Approvals → Value
unfolding text posture_text
snapshot rules rules_hash posture a = object (
    (text "approval_irrevocable", bool a.irrevocable)
    ∷ (text "approval_unclassified", bool a.unclassified)
    ∷ (text "posture", str (posture_text posture))
    ∷ (text "rules_hash", str rules_hash)
    ∷ (text "rules_version", str rules.version)
    ∷ [])

module _ (c : Crypto) where
  -- `none` is the panic of the source.
  unfoldable pub policy_hash : RuleSet → Text → Posture → Approvals → Option Text
  unfolding snapshot
  policy_hash rules rules_hash posture a = hash_jcs c (snapshot rules rules_hash posture a)
