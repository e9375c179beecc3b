-- ===== src/Kernel/Policy.antt =====
-- ois/kernel/policy.py: the default policy engine.
pub mod Authorization
use Prim.Native.String.{◌++◌ as text_append, compare}
use text.Mathlib.Text.{is_lt}
use niceone_obsidian.Prelude.{
  ℕ, String, Bool, true, false, not, ◌&&◌, ◌||◌, List, [], ◌∷◌, ◌++◌, ltb, str_eq, any, keep,
  is_empty, if◌then◌else◌,
}
use niceone_obsidian.Prelude.Texts.{join}
use niceone_obsidian.Prelude.Exec.{Result, ok, err}
use niceone_obsidian.Kernel.Errors.{Exception, exception, authorization_denied}
use niceone_obsidian.Kernel.Types.{
  RiskLevel, SideEffectLevel, low, medium, high, critical, irreversible, risk_value,
}
use niceone_obsidian.Kernel.Contracts.{CapabilityContract, InvocationRequest}

pub record PolicyDecision : Type 0 where
  pub allowed : Bool
  pub reasons : List String
  pub requires_approval : Bool

pub record DefaultPolicyEngine : Type 0 where
  pub allowed_permissions : List String
  pub maximum_risk : RiskLevel
  pub allow_irreversible : Bool

-- `risk_order`
abbrev pub risk_order : RiskLevel → ℕ
risk_order low = 0
risk_order medium = 1
risk_order high = 2
risk_order critical = 3

abbrev pub is_irreversible : SideEffectLevel → Bool
is_irreversible irreversible = true
is_irreversible _ = false

abbrev pub member : String → List String → Bool
member s xs = any (str_eq s) xs

-- `set(required) - allowed`: the elements, each once.
unfoldable pub difference : List String → List String → List String
difference [] allowed = []
difference (s ∷ rest) allowed =
    let more = difference rest allowed in
    if member s allowed || member s more then more else s ∷ more

-- One entry of `reasons` under its test.
abbrev pub reason_if : Bool → String → List String
reason_if true s = s ∷ []
reason_if false s = []

abbrev pub before : String → String → Bool
before a b = is_lt (compare a b)

unfoldable pub insert_sorted : String → List String → List String
insert_sorted s [] = s ∷ []
insert_sorted s (t ∷ rest) = if before s t then s ∷ t ∷ rest else t ∷ insert_sorted s rest

-- `sorted(...)` of texts, by code points.
unfoldable pub sorted : List String → List String
unfolding insert_sorted
sorted [] = []
sorted (s ∷ rest) = insert_sorted s (sorted rest)

unfoldable pub missing_permissions : DefaultPolicyEngine → CapabilityContract → List String
unfolding difference
missing_permissions p k = difference k.permissions p.allowed_permissions

unfoldable pub denial_reasons :
    DefaultPolicyEngine → InvocationRequest → CapabilityContract → List String
unfolding missing_permissions sorted join
denial_reasons p r k =
    reason_if (str_eq r.execution.identity.tenant_id "") "Execution must have a tenant identity."
    ++ (reason_if (ltb (risk_order p.maximum_risk) (risk_order k.risk_level))
          (text_append "Capability risk exceeds policy limit: " (risk_value k.risk_level))
        ++ (reason_if (not (is_empty (missing_permissions p k)))
              (text_append "Missing permissions: " (join ", " (sorted (missing_permissions p k))))
            ++ reason_if (is_irreversible k.side_effects && not p.allow_irreversible)
                "Irreversible side effects are not permitted."))

abbrev pub is_high_risk : RiskLevel → Bool
is_high_risk high = true
is_high_risk critical = true
is_high_risk _ = false

unfoldable pub evaluate :
    DefaultPolicyEngine → InvocationRequest → CapabilityContract → PolicyDecision
unfolding denial_reasons
evaluate p r k = record {
  allowed = is_empty (denial_reasons p r k);
  reasons = denial_reasons p r k;
  requires_approval = is_high_risk k.risk_level || is_irreversible k.side_effects;
}

-- `authorize` returns True or raises AuthorizationDenied.
unfoldable pub authorize :
    DefaultPolicyEngine → InvocationRequest → CapabilityContract → Result Exception Bool
unfolding evaluate
authorize p r k =
    let d = evaluate p r k in
    if d.allowed then ok true else err (exception authorization_denied (join "; " d.reasons))
