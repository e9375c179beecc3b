-- ===== src/Autonomy/Policy/First.antt =====
-- The first matching rule of an automation policy decides (ois/autonomy/policy.py).
use niceone_obsidian.Prelude.{
  ◌≤◌, String, ◌≡◌, ◌↔◌, ◌⊎◌, refl, inl, inr, Bool, true, false, not, ◌&&◌, Option, none, some,
  List, [], ◌∷◌, all, All, ltb, arith, str_eq_iff, Bool-cases,
}
use niceone_obsidian.Prelude.Values.{
  Value, Fields, text, null, bool, int, float, array, tuple, dict, get_field,
}
use niceone_obsidian.Prelude.Exec.{Result, ok}
use niceone_obsidian.Kernel.Errors.{Exception}
use niceone_obsidian.Kernel.Types.{RiskLevel}
use niceone_obsidian.Kernel.Policy.{risk_order, member}
use niceone_obsidian.Autonomy.Policy.{
  PolicyRule, parse_risk, risk_text, needs_approval, is_text, other_type, has_effects, tags_of,
  judge_rule, evaluate_rule, matched, no_match, evaluate,
}

-- The rule is for every type of event, or for the one of the context.
abbrev pub ForType : Option String → Option Value → Type 0
ForType none v = Unit
ForType (some s) v = v ≡ some (text s)

-- What a rule asks of a context with a risk level.
pub record Matches (risk : RiskLevel) (context : Fields) (r : PolicyRule) : Type 0 where
  pub typed : ForType r.event_type (get_field context "event_type")
  pub bounded : (risk_order risk ≤ risk_order r.maximum_risk) ⊎ (needs_approval context ≡ true)
  pub effects : has_effects (get_field context "side_effects") ≡ true → r.allow_side_effects ≡ true
  pub tags : All (λ t. member t (tags_of (get_field context "tags")) ≡ true) r.required_tags

-- A rule is the first one that matches.
pub data IsFirst (risk : RiskLevel) (context : Fields) (r : PolicyRule)
    : List PolicyRule → Type 0 where
  first : (rules : List PolicyRule) → Matches risk context r → IsFirst risk context r (r ∷ rules)
  later :
      (q : PolicyRule) (rules : List PolicyRule)
      → ¬ Matches risk context q
      → IsFirst risk context r rules
      → IsFirst risk context r (q ∷ rules)

is_text_iff : (s : String) (v : Option Value) → (is_text s v ≡ true) ↔ (v ≡ some (text s))
is_text_iff s (some (text t)) =
    (λ h. ground (arith, h, str_eq_iff t s), λ h. ground (arith, h, str_eq_iff t s))
is_text_iff s none = (λ h. cc, λ h. cc)
is_text_iff s (some null) = (λ h. cc, λ h. cc)
is_text_iff s (some (bool b)) = (λ h. cc, λ h. cc)
is_text_iff s (some (int n)) = (λ h. cc, λ h. cc)
is_text_iff s (some (float m e)) = (λ h. cc, λ h. cc)
is_text_iff s (some (array x)) = (λ h. cc, λ h. cc)
is_text_iff s (some (tuple x)) = (λ h. cc, λ h. cc)
is_text_iff s (some (dict x)) = (λ h. cc, λ h. cc)

type_iff : (o : Option String) (v : Option Value) → (other_type o v ≡ false) ↔ ForType o v
type_iff none v = (λ h. tt, λ h. refl)
type_iff (some s) v =
    let (to, from) = is_text_iff s v in (λ h. to (ground (arith, h)), λ h. ground (arith, from h))

all_iff :
    (has required : List String)
    → (all (λ t. member t has) required ≡ true) ↔ All (λ t. member t has ≡ true) required
all_iff has [] = (λ h. tt, λ h. refl)
all_iff has (t ∷ ts) =
    let (to, from) = all_iff has ts in
    (λ h. (ground (arith, h), to (ground (arith, h))), λ (a, b). ground (arith, a, from b))

module _ (str : Value → String) (context : Fields) (risk : RiskLevel)
    (known : parse_risk (risk_text str (get_field context "risk_level")) ≡ ok risk) where
  -- The two answers of a rule.
  abbrev Answers : PolicyRule → Result Exception (Bool × String) → Type 0
  Answers r o =
      (Matches risk context r × (o ≡ ok (true, "rule matched")))
      ⊎ ((¬ Matches risk context r) × ((s : String) × (o ≡ ok (false, s))))

  judged :
      (r : PolicyRule)
      → ForType r.event_type (get_field context "event_type")
      → Answers r (ok (judge_rule r context risk))
  judged r t =
      let a : Bool =
        ltb (risk_order r.maximum_risk) (risk_order risk) && not (needs_approval context) in
      let b : Bool = has_effects (get_field context "side_effects") && not r.allow_side_effects in
      let c : Bool = all (λ t. member t (tags_of (get_field context "tags"))) r.required_tags in
      let (to, from) = all_iff (tags_of (get_field context "tags")) r.required_tags in
      elim (Bool-cases a) [
        | inl x ↦
            inr (λ m. ground (arith, x, m.bounded), ("risk exceeds automation policy", rw x refl))
        | inr x ↦ elim (Bool-cases b) [
          | inl y ↦ inr (
            λ m. ground (arith, y, m.effects),
            ("side effects are not permitted by automation policy", rw (x, y) refl),
          )
          | inr y ↦ elim (Bool-cases c) [
            | inr z ↦ inr (
              λ m. ground (arith, z, from m.tags),
              ("required policy tags are missing", rw (x, y, z) refl),
            )
            | inl z ↦ inl (
              record {
                typed = t;
                bounded = ground (arith, x);
                effects = λ e. ground (arith, y, e);
                tags = to z;
              },
              rw (x, y, z) refl,
            )
          ]
        ]
      ]

  rule_answers : (r : PolicyRule) → Answers r (evaluate_rule str r context)
  unfolding evaluate_rule
  rule_answers r =
      let (to, from) = type_iff r.event_type (get_field context "event_type") in
      elim (Bool-cases (other_type r.event_type (get_field context "event_type"))) [
        | inl o ↦
            rw o (inr (λ m. ground (arith, o, from m.typed), ("event type does not match", refl)))
        | inr s ↦ rw (s, known) (judged r (to s))
      ]

  -- Where the risk level of the context is known, the evaluation of a policy returns: by the first
  -- rule that matches it is allowed, or requires an approval if the context asks for one; where no
  -- rule matches it is denied.
  pub evaluate-IsFirst :
      (rules : List PolicyRule)
      → ((r : PolicyRule) × IsFirst risk context r rules
          × (evaluate str rules context ≡ ok (matched r "rule matched" (needs_approval context))))
        ⊎ (All (λ r. ¬ Matches risk context r) rules × (evaluate str rules context ≡ ok no_match))
  unfolding evaluate
  evaluate-IsFirst [] = inr (tt, refl)
  evaluate-IsFirst (r ∷ rules) = elim (rule_answers r) [
    | inl (m, e) ↦ inl (r, first rules m, rw e refl)
    | inr (n, (s, e)) ↦ rw e (elim (evaluate-IsFirst rules) [
      | inl (q, f, g) ↦ inl (q, later r rules n f, g)
      | inr (a, g) ↦ inr ((n, a), g)
    ])
  ]
