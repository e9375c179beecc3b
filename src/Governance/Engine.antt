-- ===== src/Governance/Engine.antt =====
-- ois/governance/engine.py: GovernanceEngine.authorize. The digest of the inputs (json and hashlib), which
-- may raise on inputs that JSON does not hold, is a parameter.
pub mod Permits
pub mod Limits
use niceone_obsidian.Prelude.{
  ℕ, suc, is_empty, ◌+◌, String, Bool, true, false, not, ◌&&◌, ◌||◌, Option, none, some, List, [],
  ◌∷◌, str_eq, pair_eq, triple_eq, any, or_else, if◌then◌else◌,
}
use niceone_obsidian.Prelude.Int.{pos, int_ltb}
use niceone_obsidian.Prelude.Dict.{Dict, get}
use niceone_obsidian.Prelude.Values.{Fields, text, field, end}
use niceone_obsidian.Prelude.Exec.{Result, ok, err}
use niceone_obsidian.Kernel.Errors.{Exception}
use niceone_obsidian.Governance.Stores.{
  Floats, AgentIdentity, CapabilityGrant, PolicyVersion, DecisionProvenance, AuditEvent,
  ActionLimit, ActionBudget, GovernanceStore, is_active, can_spend, record_decision, record_audit,
  count_action, action_count,
}

pub record GovernanceDecision : Type 0 where
  pub allowed : Bool
  pub reason : String
  pub decision_id : String

-- The engine with the clock and the supply of UUIDs.
pub record GovernanceEngine (f : Floats) : Type 0 where
  pub store : GovernanceStore f
  pub now : ℕ
  pub uuids : ℕ → String
  pub drawn : ℕ

-- The arguments of one call of `authorize`.
pub record ActionRequest (f : Floats) : Type 0 where
  pub tenant_id : String
  pub workspace_id : String
  pub execution_id : String
  pub agent_id : String
  pub action : String
  pub capability_id : String
  pub inputs : Fields
  pub estimated_cost : f.Float
  pub policy_id : Option String
  pub policy_version : Option String

-- The local variables `allowed` and `reason`.
abbrev pub Verdict : Type 0
Verdict = Bool × String

abbrev pub deny : String → Verdict
deny why = (false, why)

abbrev pub judge_agent : Option AgentIdentity → Verdict → Verdict
judge_agent none v = deny "agent identity is not active"
judge_agent (some a) v = if a.enabled then v else deny "agent identity is not active"

abbrev pub judge_policy : Option String → Option PolicyVersion → Verdict
judge_policy none _ = (true, "authorized")
judge_policy (some _) none = deny "policy version is missing or inactive"
judge_policy (some _) (some p) =
    if p.active then (true, "authorized") else deny "policy version is missing or inactive"

abbrev pub is_granted : String → List String → Bool
is_granted action actions = is_empty actions || any (str_eq action) actions

abbrev pub judge_grant : ℕ → String → Option CapabilityGrant → Verdict → Verdict
judge_grant now action none v = deny "capability grant is missing or expired"
judge_grant now action (some g) v =
    if is_active now g.expires_at
    then (if is_granted action g.allowed_actions then v else deny "action is not granted")
    else deny "capability grant is missing or expired"

abbrev pub judge_limit : ℕ → Option ActionLimit → Verdict → Verdict
judge_limit count none v = v
judge_limit count (some l) v =
    if int_ltb (pos count) l.max_count then v else deny "autonomous action limit exceeded"

module _ {f : Floats} where
  abbrev pub budgets_of : String → Dict (String × String) (ActionBudget f) → List (ActionBudget f)
  budgets_of tenant [] = []
  budgets_of tenant (((t, i), b) ∷ rest) =
      let more = budgets_of tenant rest in if str_eq t tenant then b ∷ more else more

  abbrev pub no_budget : List (ActionBudget f) → Bool
  no_budget [] = true
  no_budget _ = false

  unfoldable pub can_fund : f.Float → List (ActionBudget f) → Bool
  unfolding can_spend
  can_fund cost budgets = not (no_budget budgets || not (any (can_spend cost) budgets))

  abbrev pub judge_cost : f.Float → List (ActionBudget f) → Verdict → Verdict
  judge_cost cost budgets (false, why) = (false, why)
  judge_cost cost budgets (true, why) =
      if f.is_zero cost
      then (true, why)
      else if can_fund cost budgets
      then (true, why)
      else deny "action budget exceeded"

  abbrev pub find_policy :
      GovernanceStore f → ActionRequest f → Option String → Option PolicyVersion
  find_policy s q none = none
  find_policy s q (some p) = get s.policies (q.tenant_id, p, or_else q.policy_version "")

  -- The branches of `authorize` up to the digest.
  unfoldable pub judge : ℕ → GovernanceStore f → ActionRequest f → Verdict
  unfolding get is_active can_fund action_count
  judge now s q = judge_agent (get s.agents (q.tenant_id, q.agent_id)) (
      judge_grant now q.action (get s.grants (q.tenant_id, q.agent_id, q.capability_id)) (
        judge_cost q.estimated_cost (budgets_of q.tenant_id s.budgets) (
          judge_limit (action_count s q.tenant_id q.action) (get s.limits (q.tenant_id, q.action))
            (judge_policy q.policy_id (find_policy s q q.policy_id)))))

  abbrev pub provenance :
      GovernanceEngine f → ActionRequest f → Verdict → String → DecisionProvenance
  provenance e q (allowed, reason) digest = record {
    decision_id = e.uuids e.drawn;
    tenant_id = q.tenant_id;
    workspace_id = q.workspace_id;
    execution_id = q.execution_id;
    actor_id = q.agent_id;
    action = q.action;
    outcome = if allowed then "allow" else "deny";
    policy_id = q.policy_id;
    policy_version = q.policy_version;
    capability_id = some q.capability_id;
    inputs_digest = digest;
    rationale = reason;
    created_at = e.now;
  }

  abbrev pub audit_event : GovernanceEngine f → ActionRequest f → Verdict → AuditEvent
  audit_event e q (allowed, reason) = record {
    event_id = e.uuids (suc e.drawn);
    tenant_id = q.tenant_id;
    actor_id = q.agent_id;
    action = q.action;
    resource = q.capability_id;
    outcome = if allowed then "allowed" else "denied";
    execution_id = some q.execution_id;
    metadata = field "decision_id" (text (e.uuids e.drawn)) (field "reason" (text reason) end);
    created_at = e.now;
  }

  abbrev pub count_if : Bool → ActionRequest f → GovernanceStore f → GovernanceStore f
  count_if true q s = (count_action q.tenant_id q.action s).1
  count_if false q s = s

  -- From the digest on.
  abbrev pub decide :
      GovernanceEngine f
      → ActionRequest f
      → Verdict
      → Result Exception String
      → Result Exception GovernanceDecision × GovernanceEngine f
  decide e q v (err x) = (err x, record e { drawn = suc e.drawn })
  decide e q v (ok digest) = (
    ok (record { allowed = v.0; reason = v.1; decision_id = e.uuids e.drawn }),
    record e {
      store =
          count_if v.0 q
            (record_audit (audit_event e q v) (record_decision (provenance e q v digest) e.store));
      drawn = suc (suc e.drawn);
    },
  )

  -- GovernanceEngine.authorize
  unfoldable pub authorize :
      (Fields → Result Exception String)
      → ActionRequest f
      → GovernanceEngine f
      → Result Exception GovernanceDecision × GovernanceEngine f
  unfolding judge count_action record_audit record_decision
  authorize digest q e = decide e q (judge e.now e.store q) (digest q.inputs)
