-- ===== src/Autonomy/Policy.antt =====
-- ois/autonomy/policy.py: PolicyRule and AutomationPolicy, on a context that is a dictionary. Python's
-- `str` of a value that is not a text is a parameter; a set of tags is a list or a tuple.
pub mod First
use niceone_obsidian.Prelude.{
  ℕ, String, Bool, true, false, not, ◌&&◌, ◌||◌, Option, none, some, List, [], ◌∷◌, all, ltb,
  str_eq, if◌then◌else◌,
}
use niceone_obsidian.Prelude.Int.{pos, int_eq}
use niceone_obsidian.Prelude.Values.{
  Value, Items, Fields, null, bool, int, float, text, array, tuple, dict, nil, cons, end, get_field,
}
use niceone_obsidian.Prelude.Exec.{Result, ok, err}
use niceone_obsidian.Kernel.Errors.{Exception, exception, value_error}
use niceone_obsidian.Kernel.Types.{RiskLevel, low, medium, high, critical}
use niceone_obsidian.Kernel.Policy.{risk_order, member}
use Prim.Native.String.{◌++◌ as text_append}

pub data PolicyOutcome : Type 0 where
  allow deny approval_required : PolicyOutcome

pub record PolicyRule : Type 0 where
  pub rule_id : String
  pub event_type : Option String
  pub maximum_risk : RiskLevel
  pub allow_side_effects : Bool
  pub required_tags : List String

pub record PolicyEvaluation : Type 0 where
  pub outcome : PolicyOutcome
  pub rule_id : Option String
  pub reason : String
  pub requires_approval : Bool

-- `RiskLevel(value)`
unfoldable pub parse_risk : String → Result Exception RiskLevel
parse_risk s =
    if str_eq s "low"
    then ok low
    else if str_eq s "medium"
    then ok medium
    else if str_eq s "high"
    then ok high
    else if str_eq s "critical"
    then ok critical
    else err (exception value_error (text_append "'" (text_append s "' is not a valid RiskLevel")))

-- `bool(v)`, and `bool(d.get(k, False))`
unfoldable pub truthy : Value → Bool
truthy null = false
truthy (bool b) = b
truthy (int n) = not (int_eq n (pos 0))
truthy (float m e) = not (int_eq m (pos 0))
truthy (text s) = not (str_eq s "")
truthy (array nil) = false
truthy (array (cons x xs)) = true
truthy (tuple nil) = false
truthy (tuple (cons x xs)) = true
truthy (dict end) = false
truthy (dict (Fields.field k v d)) = true

abbrev pub is_truthy : Option Value → Bool
is_truthy none = false
is_truthy (some v) = truthy v

unfoldable pub needs_approval : Fields → Bool
unfolding truthy get_field
needs_approval context = is_truthy (get_field context "requires_approval")

-- `str(v)`, and the value of the risk level, which is low by default.
abbrev pub py_str : (Value → String) → Value → String
py_str str (text s) = s
py_str str v = str v

abbrev pub risk_text : (Value → String) → Option Value → String
risk_text str none = "low"
risk_text str (some v) = py_str str v

abbrev pub is_text : String → Option Value → Bool
is_text s (some (text t)) = str_eq t s
is_text s _ = false

-- `self.event_type is not None and context.get("event_type") != self.event_type`
abbrev pub other_type : Option String → Option Value → Bool
other_type none v = false
other_type (some s) v = not (is_text s v)

-- `v not in (None, "none")`
abbrev pub has_effects : Option Value → Bool
has_effects none = false
has_effects (some null) = false
has_effects (some (text s)) = not (str_eq s "none")
has_effects (some _) = true

-- The texts among the tags.
unfoldable pub texts_of : Items → List String
texts_of nil = []
texts_of (cons (text s) xs) = s ∷ texts_of xs
texts_of (cons _ xs) = texts_of xs

abbrev pub tags_of : Option Value → List String
tags_of (some (array xs)) = texts_of xs
tags_of (some (tuple xs)) = texts_of xs
tags_of _ = []

-- What follows once the risk level is known.
abbrev pub judge_rule : PolicyRule → Fields → RiskLevel → Bool × String
judge_rule r context risk =
    if ltb (risk_order r.maximum_risk) (risk_order risk) && not (needs_approval context)
    then (false, "risk exceeds automation policy")
    else if has_effects (get_field context "side_effects") && not r.allow_side_effects
    then (false, "side effects are not permitted by automation policy")
    else if not (all (λ t. member t (tags_of (get_field context "tags"))) r.required_tags)
    then (false, "required policy tags are missing")
    else (true, "rule matched")

abbrev pub with_risk :
    PolicyRule → Fields → Result Exception RiskLevel → Result Exception (Bool × String)
with_risk r context (ok risk) = ok (judge_rule r context risk)
with_risk r context (err e) = err e

abbrev pub no_match : PolicyEvaluation
no_match = record {
  outcome = deny;
  rule_id = none;
  reason = "no automation policy rule matched";
  requires_approval = false;
}

abbrev pub matched : PolicyRule → String → Bool → PolicyEvaluation
matched r reason approval = record {
  outcome = if approval then approval_required else allow;
  rule_id = some r.rule_id;
  reason = reason;
  requires_approval = approval;
}

abbrev pub next_rule :
    PolicyRule
    → Bool
    → Result Exception (Bool × String)
    → Result Exception PolicyEvaluation
    → Result Exception PolicyEvaluation
next_rule r approval (err e) rest = err e
next_rule r approval (ok (true, reason)) rest = ok (matched r reason approval)
next_rule r approval (ok (false, reason)) rest = rest

module _ (str : Value → String) where
  -- PolicyRule.evaluate
  unfoldable pub evaluate_rule : PolicyRule → Fields → Result Exception (Bool × String)
  unfolding get_field parse_risk needs_approval texts_of
  evaluate_rule r context =
      if other_type r.event_type (get_field context "event_type")
      then ok (false, "event type does not match")
      else with_risk r context (parse_risk (risk_text str (get_field context "risk_level")))

  -- AutomationPolicy.evaluate
  unfoldable pub evaluate : List PolicyRule → Fields → Result Exception PolicyEvaluation
  unfolding evaluate_rule needs_approval
  evaluate [] context = ok no_match
  evaluate (r ∷ rules) context =
      let rest = evaluate rules context in
      next_rule r (needs_approval context) (evaluate_rule r context) rest
