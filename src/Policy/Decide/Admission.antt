-- ===== src/Policy/Decide/Admission.antt =====
-- policy.go, Decide: exactly which commands are admitted, and under whose approval.
use ueg.Common.{
  ◌≡◌, Bool, inl, inr, Bool-cases, sym, ◌∙◌, ◌≢◌, refl, if◌then◌else◌, false, ◌↔◌, ◌⊎◌, true, Text,
  text, arith,
}
use ueg.Policy.{Class, Posture, Outcome, Classification, Approvals}
use ueg.Policy.Decide.{is_observe, decide}

-- The table of the README: what may run under a posture and a set of approvals.
pub data MayRun (posture : Posture) (a : Approvals) : Class → Type 0 where
  read : MayRun posture a Class.reversible
  compensate : MayRun posture a Class.compensable
  approved : a.irrevocable ≡ true → MayRun posture a Class.irrevocable
  allowed : a.unclassified ≡ true → MayRun posture a Class.unclassified
  observed : {c : Class} → posture ≡ Posture.observe → c ≢ Class.prohibited → MayRun posture a c

admitted_of_MayRun :
    (k : Class) (reason rule_id surface : Text) (c : Classification) (posture : Posture)
    (a : Approvals)
    → c.class ≡ k
    → MayRun posture a k
    → (decide c posture a).outcome ≡ Outcome.admitted
unfolding decide
admitted_of_MayRun k r i s c posture a e read = ground arith
admitted_of_MayRun k r i s c posture a e compensate = ground arith
admitted_of_MayRun k r i s c posture a e (approved p) = ground arith
admitted_of_MayRun k r i s c posture a e (allowed p) = ground arith
admitted_of_MayRun k r i s c posture a e (observed p q) = ground arith

MayRun-of_admitted :
    (k : Class) (c : Classification) (posture : Posture) (a : Approvals)
    → c.class ≡ k
    → (decide c posture a).outcome ≡ Outcome.admitted
    → MayRun posture a k
unfolding decide
MayRun-of_admitted Class.reversible c posture a e h = read
MayRun-of_admitted Class.compensable c posture a e h = compensate
MayRun-of_admitted Class.prohibited c posture a e h = absurd (ground arith)
MayRun-of_admitted Class.irrevocable c Posture.observe a e h = observed refl (λ q. cc)
MayRun-of_admitted Class.irrevocable c _ a e h = approved (ground arith)
MayRun-of_admitted Class.unclassified c Posture.observe a e h = observed refl (λ q. cc)
MayRun-of_admitted Class.unclassified c _ a e h = allowed (ground arith)
MayRun-of_admitted (Class.other s) c Posture.observe a e h = observed refl (λ q. cc)
MayRun-of_admitted (Class.other s) c _ a e h = absurd (ground arith)

-- A command is admitted exactly where the table of postures and approvals says that it may run.
pub decide_iff :
    (c : Classification) (posture : Posture) (a : Approvals)
    → ((decide c posture a).outcome ≡ Outcome.admitted) ↔ MayRun posture a c.class
decide_iff c posture a = (
  MayRun-of_admitted c.class c posture a refl,
  admitted_of_MayRun c.class c.reason c.rule_id c.surface c posture a refl,
)

-- A prohibited command is refused under every posture and every approval.
pub decide-prohibited :
    (c : Classification) (posture : Posture) (a : Approvals)
    → c.class ≡ Class.prohibited
    → (decide c posture a).outcome ≡ Outcome.refused
unfolding decide
decide-prohibited c posture a e = ground arith

-- An approval that counted: the class asks for it, the posture gates, and the operator gave it.
abbrev pub IsCounted : Class → Bool → Classification → Posture → Type 0
IsCounted class given c posture = (c.class ≡ class) × (posture ≢ Posture.observe) × (given ≡ true)

-- The approval that a posture which gates asks for by the class.
asked : Class → Approvals → Text
asked Class.irrevocable a = if a.irrevocable then text "operator" else text "none"
asked Class.unclassified a = if a.unclassified then text "operator-unclassified" else text "none"
asked _ a = text "none"

approval-observed :
    (c : Classification) (a : Approvals) → (decide c Posture.observe a).approval ≡ text "none"
unfolding decide
approval-observed c a = ground arith

approval-asked :
    (c : Classification) (posture : Posture) (a : Approvals)
    → is_observe posture ≡ false
    → (decide c posture a).approval ≡ asked c.class a
unfolding decide asked
approval-asked c posture a h = ground arith

observed_lem :
    (c : Classification) (posture : Posture) (a : Approvals)
    → is_observe posture ≡ true
    → (posture ≡ Posture.observe) × ((decide c posture a).approval ≡ text "none")
observed_lem c Posture.observe a h = (refl, approval-observed c a)
observed_lem c Posture.enforce a h = cc
observed_lem c (Posture.other s) a h = cc

gates_lem : (posture : Posture) → is_observe posture ≡ false → posture ≢ Posture.observe
gates_lem posture h e = ground (arith, h, e)

asked-operator :
    (k : Class) (a : Approvals)
    → (asked k a ≡ text "operator") ↔ ((k ≡ Class.irrevocable) × (a.irrevocable ≡ true))
unfolding asked text
asked-operator k a = (λ h. ground arith, λ h. ground arith)

asked-unclassified :
    (k : Class) (a : Approvals)
    → (asked k a ≡ text "operator-unclassified")
      ↔ ((k ≡ Class.unclassified) × (a.unclassified ≡ true))
unfolding asked text
asked-unclassified k a = (λ h. ground arith, λ h. ground arith)

asked-none :
    (k : Class) (a : Approvals)
    → (asked k a ≡ text "none")
      ⊎ ((k ≡ Class.irrevocable) × (a.irrevocable ≡ true))
      ⊎ ((k ≡ Class.unclassified) × (a.unclassified ≡ true))
unfolding asked
asked-none k a = ground arith

none-operator : text "none" ≢ text "operator"
unfolding text
none-operator h = cc

none-unclassified : text "none" ≢ text "operator-unclassified"
unfolding text
none-unclassified h = cc

-- A decision records the approval "operator" exactly for an irrevocable command under a posture that
-- gates, with that approval given; "operator-unclassified" exactly for an unclassified command
-- under such a posture, with that approval given; and otherwise "none".
pub decide-approval :
    (c : Classification) (posture : Posture) (a : Approvals)
    → (((decide c posture a).approval ≡ text "operator")
        ↔ IsCounted Class.irrevocable a.irrevocable c posture)
      × (((decide c posture a).approval ≡ text "operator-unclassified")
          ↔ IsCounted Class.unclassified a.unclassified c posture)
      × (((decide c posture a).approval ≡ text "none")
          ⊎ IsCounted Class.irrevocable a.irrevocable c posture
          ⊎ IsCounted Class.unclassified a.unclassified c posture)
decide-approval c posture a = elim (Bool-cases (is_observe posture)) [
  | inl o ↦
      let (p, e) = observed_lem c posture a o in
      (
        (λ h. absurd (none-operator (sym e ∙ h)), λ h. absurd (h.1 p)),
        (λ h. absurd (none-unclassified (sym e ∙ h)), λ h. absurd (h.1 p)),
        inl e,
      )
  | inr o ↦
      let e = approval-asked c posture a o in
      let g = gates_lem posture o in
      let (to1, from1) = asked-operator c.class a in
      let (to2, from2) = asked-unclassified c.class a in
      (
        (λ h. let (k, y) = to1 (sym e ∙ h) in (k, g, y), λ h. e ∙ from1 (h.0, h.2)),
        (λ h. let (k, y) = to2 (sym e ∙ h) in (k, g, y), λ h. e ∙ from2 (h.0, h.2)),
        elim (asked-none c.class a) [
          | inl n ↦ inl (e ∙ n)
          | inr (inl h) ↦ inr (inl (h.0, g, h.1))
          | inr (inr h) ↦ inr (inr (h.0, g, h.1))
        ],
      )
]
