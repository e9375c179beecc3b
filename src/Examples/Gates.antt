-- ===== src/Examples/Gates.antt =====
-- The properties of recovery, policy, validation, registries, supervision, governance and approvals
-- on small inputs.
use niceone_obsidian.Prelude.{
  ℕ, ◌+◌, ◌≤◌, ◌≡◌, ◌↔◌, refl, Bool, true, false, Option, none, some, List, [], ◌∷◌, arith,
  string_eq, pair_eq,
}
use niceone_obsidian.Prelude.Int.{pos}
use niceone_obsidian.Prelude.Dict.{get, set, contains, delete}
use niceone_obsidian.Prelude.Values.{
  Value, Fields, end, field, text, dict, array, nil, cons, null, get_field, has_field,
}
use niceone_obsidian.Prelude.Exec.{Result, ok}
use niceone_obsidian.Kernel.Errors.{Exception}
use niceone_obsidian.Kernel.Types.{FailureClass, medium, reversible}
use niceone_obsidian.Kernel.State.{ExecutionContext, new_context}
use niceone_obsidian.Kernel.Contracts.{CapabilityContract, ContractKind, InvocationRequest}
use niceone_obsidian.Kernel.Recovery.{
  RecoveryPolicy, RecoveryBackoff, new_backoff, float_pow2, delay,
}
use niceone_obsidian.Kernel.Recovery.Bounds.{count_retries, retries_bounded, delay_defined}
use niceone_obsidian.Kernel.Policy.{DefaultPolicyEngine, authorize}
use niceone_obsidian.Kernel.Policy.Authorization.{Permitted, authorize_iff_Permitted}
use niceone_obsidian.Kernel.Validation.{
  validate_schema, property_errors, declared_errors, each_property, one_property, has_type,
  missing_fields,
}
use niceone_obsidian.Kernel.Validation.Conforms.{Conforms}
use niceone_obsidian.Kernel.Validation.Conforms.Exact.{accepted_iff_Conforms}
use niceone_obsidian.Kernel.Supervision.{SupervisionRequest}
use niceone_obsidian.Registries.Capability.{
  CapabilityEntry, Entries, native, register, register_native, add_entry, unregister, list_entries,
}
use niceone_obsidian.Registries.Agents.{AgentRoutingDecision, route, sift, consider, candidates_of}
use niceone_obsidian.Governance.Promotion.{PromotionEvidence, verified_from}
use niceone_obsidian.Autonomy.Approvals.{
  ApprovalRequest, ApprovalDecision, ApprovalStore, pending, approved, rejected, find_approval,
  as_decided, is_pending,
}
use niceone_obsidian.Autonomy.Approvals

abbrev context : ExecutionContext
unfolding new_context
context =
    new_context
      (record {
        execution_id = "exec-1";
        tenant_id = "tenant-1";
        workflow_id = none;
        workflow_version = none;
      })
      "find the weather" 100

abbrev recovery : RecoveryPolicy
recovery = record { max_retries = 1; max_recovery_attempts = 2 }

abbrev failures : List FailureClass
failures = FailureClass.transient ∷ FailureClass.transient ∷ FailureClass.tool ∷ []

retries_bounded_example : count_retries recovery 100 failures context + 0 ≤ 1
unfolding context
retries_bounded_example = retries_bounded recovery 100 failures context (omega arith)

abbrev backoff : RecoveryBackoff
backoff = record { base_seconds = 2; max_seconds = 10 }

accepted_backoff : new_backoff (pos 2) (pos 10) ≡ ok backoff
unfolding new_backoff
accepted_backoff = refl

second_delay : delay backoff (pos 2) ≡ ok 4
unfolding delay float_pow2
second_delay = refl

fifth_delay : delay backoff (pos 5) ≡ ok 10
unfolding delay float_pow2
fifth_delay = refl

delay_defined_example : ((d : ℕ) × (delay backoff (pos 1025) ≡ ok d)) ↔ ((1 ≤ 1025) × (1025 ≤ 1024))
delay_defined_example = delay_defined backoff 1025

abbrev contract_of_kind : ContractKind → CapabilityContract
contract_of_kind kind = record {
  capability_id = "search";
  version = "1.0.0";
  description = "web search";
  input_schema = end;
  output_schema = end;
  risk_level = medium;
  permissions = "net" ∷ [];
  allowed_domains = [];
  timeout_seconds = null;
  max_retries = 0;
  side_effects = reversible;
  idempotent = true;
  kind = kind;
}

abbrev agent_contract : CapabilityContract
agent_contract = contract_of_kind (ContractKind.agent [] end 1)

abbrev request : InvocationRequest
request = record {
  invocation_id = "inv-1";
  capability_id = "search";
  input = end;
  execution = context;
  timeout_seconds = none;
  attempt = 0;
}

abbrev engine : DefaultPolicyEngine
engine = record {
  allowed_permissions = "net" ∷ [];
  maximum_risk = medium;
  allow_irreversible = false;
}

authorize_iff_Permitted_example :
    (authorize engine request agent_contract ≡ ok true) ↔ Permitted engine request agent_contract
authorize_iff_Permitted_example = authorize_iff_Permitted engine request agent_contract

-- An object with a declared text inside another object.
abbrev inner_schema : Fields
inner_schema = field "type" (text "string") end

abbrev schema : Fields
schema =
    field "required" (array (cons (text "city") nil))
      (field "properties" (dict (field "city" (dict inner_schema) end)) end)

abbrev value : Value
value = dict (field "city" (text "Oslo") end)

accepted_value : validate_schema value schema "input" ≡ []
unfolding validate_schema property_errors declared_errors each_property one_property get_field
    has_field has_type missing_fields
accepted_value = refl

accepted_iff_Conforms_example : (validate_schema value schema "input" ≡ []) ↔ Conforms schema value
accepted_iff_Conforms_example = accepted_iff_Conforms schema value "input"

-- A registry whose capability objects are their contracts.
abbrev contract_at : CapabilityContract → Option CapabilityContract
contract_at k = some k

abbrev agent_entry : CapabilityEntry CapabilityContract
agent_entry = record {
  capability = agent_contract;
  contract = some agent_contract;
  id = "search";
  version = "1.0.0";
}

abbrev agents : Entries CapabilityContract
agents = (("search", "1.0.0"), agent_entry) ∷ []

registered : register contract_at [] (native agent_contract) ≡ ok agents
unfolding register register_native add_entry contains get set
registered = refl

unregistered : unregister agents "search" "1.0.0" ≡ ok []
unfolding unregister contains get delete
unregistered = refl

abbrev open_policy : InvocationRequest → CapabilityContract → Result Exception Bool
open_policy r k = ok true

abbrev routed : AgentRoutingDecision CapabilityContract
routed = record {
  capability_id = "search";
  version = "1.0.0";
  selected = agent_entry;
  candidates = agent_entry ∷ [];
  reason = "Selected the sole eligible agent after policy and availability filtering.";
}

routes : route open_policy none request "search" "1.0.0" agents ≡ ok routed
unfolding route candidates_of sift consider list_entries
routes = refl

abbrev supervised : SupervisionRequest
supervised = record {
  objective = "find the weather";
  plan_validated = true;
  authorized = true;
  status = "pending";
  failure = none;
  retry_allowed = false;
  recovery_allowed = false;
  approval_required = true;
  approval_granted = true;
}

abbrev checks : List Bool
checks = true ∷ true ∷ true ∷ true ∷ true ∷ true ∷ true ∷ true ∷ []

abbrev promoted : PromotionEvidence
promoted = record {
  implementation = true;
  tests = true;
  integration = true;
  runtime = true;
  security = true;
  observability = true;
  recovery = true;
  rollback = true;
  provenance = "run-7" ∷ [];
}

collected_checks : verified_from checks ("run-7" ∷ []) ≡ ok promoted
unfolding verified_from
collected_checks = refl

abbrev asked : ApprovalDecision → ApprovalRequest
asked d = record {
  approval_id = "ask-1";
  tenant_id = "tenant-1";
  workspace_id = "main";
  workflow_id = "flow-1";
  event_id = "event-1";
  reason = "publish";
  created_at = 100;
  expires_at = 200;
  event = none;
  decision = d;
  decided_by = none;
  decided_at = none;
}

accepted_decision : Approvals.decide 150 "ask-1" approved "ann" (("ask-1", asked pending) ∷ []) ≡ (
  ok (as_decided 150 approved "ann" (asked pending)),
  ("ask-1", as_decided 150 approved "ann" (asked pending)) ∷ [],
)
unfolding Approvals.decide get set
accepted_decision = refl
