-- ===== src/Registries/Agents.antt =====
-- ois/registries/core.py, AgentRegistry and ToolRegistry: registration by kind of contract, and the
-- routing of a request to the one agent that policy and availability leave.
pub mod Routing
use niceone_obsidian.Prelude.{
  ℕ, String, Bool, true, false, not, ◌&&◌, Option, none, some, List, [], ◌∷◌, ◌++◌, str_eq, keep,
  is_empty, length, if◌then◌else◌,
}
use niceone_obsidian.Prelude.Texts.{join, decimal}
use niceone_obsidian.Prelude.Exec.{Result, ok, err}
use niceone_obsidian.Kernel.Errors.{
  Exception, ExceptionKind, exception, authorization_denied, registry_error, agent_routing,
  ambiguous_agent,
}
use niceone_obsidian.Kernel.Contracts.{
  CapabilityContract, ContractKind, agent, tool, InvocationRequest,
}
use niceone_obsidian.Registries.Capability.{
  Entries, CapabilityEntry, Registration, named, native, label, register, list_entries,
}
use Prim.Native.String.{◌++◌ as text_append}

abbrev pub is_agent_kind : ContractKind → Bool
is_agent_kind (agent tools needs n) = true
is_agent_kind _ = false

abbrev pub is_tool_kind : ContractKind → Bool
is_tool_kind (tool network secrets approval) = true
is_tool_kind _ = false

-- `isinstance(contract, AgentContract)`
abbrev pub is_agent : Option CapabilityContract → Bool
is_agent none = false
is_agent (some k) = is_agent_kind k.kind

abbrev pub is_tool : Option CapabilityContract → Bool
is_tool none = false
is_tool (some k) = is_tool_kind k.kind

module _ {C : Type 0} (contract_of : C → Option CapabilityContract) where
  -- `AgentRegistry.register`: only the native form looks at the kind of contract.
  unfoldable pub register_agent : Entries C → Registration C → Result Exception (Entries C)
  unfolding register
  register_agent entries (named i v c) = register contract_of entries (named i v c)
  register_agent entries (native c) =
      if is_agent (contract_of c)
      then register contract_of entries (native c)
      else err (exception registry_error "AgentRegistry requires an AgentContract.")

  -- `ToolRegistry.register`
  unfoldable pub register_tool : Entries C → Registration C → Result Exception (Entries C)
  unfolding register
  register_tool entries (named i v c) = register contract_of entries (named i v c)
  register_tool entries (native c) =
      if is_tool (contract_of c)
      then register contract_of entries (native c)
      else err (exception registry_error "ToolRegistry requires a ToolContract.")

-- The contract of an entry, if it is an agent's for this capability and version.
abbrev pub matches : String → String → Option CapabilityContract → Bool
matches i v none = false
matches i v (some k) = is_agent_kind k.kind && (str_eq k.capability_id i && str_eq k.version v)

pub record AgentRoutingDecision (C : Type 0) : Type 0 where
  pub capability_id : String
  pub version : String
  pub selected : CapabilityEntry C
  pub candidates : List (CapabilityEntry C)
  pub reason : String

pub data Verdict : Type 0 where
  eligible : Verdict
  rejected : String → Verdict

-- What the policy's answer makes of an entry: AuthorizationDenied is a rejection, any other
-- exception ends the routing.
abbrev pub judge : Exception → ExceptionKind → Result Exception Verdict
judge e authorization_denied = ok (rejected e.message)
judge e _ = err e

module _ {C : Type 0} (policy : InvocationRequest → CapabilityContract → Result Exception Bool)
    (availability : Option (CapabilityEntry C → Bool)) (request : InvocationRequest)
    (i v : String) where
  abbrev pub is_available : CapabilityEntry C → Option (CapabilityEntry C → Bool) → Bool
  is_available e none = true
  is_available e (some f) = f e

  abbrev pub after_policy : CapabilityEntry C → Result Exception Bool → Result Exception Verdict
  after_policy e (err x) = judge x x.kind
  after_policy e (ok allowed) =
      if is_available e availability
      then ok eligible
      else ok (rejected (text_append "Agent unavailable: " (label (i, v))))

  abbrev pub consider_contract :
      CapabilityEntry C → Option CapabilityContract → Result Exception Verdict
  consider_contract e none = ok eligible
  consider_contract e (some k) = after_policy e (policy request k)

  -- One round of the loop over the candidates.
  unfoldable pub consider : CapabilityEntry C → Result Exception Verdict
  consider e = consider_contract e e.contract

  abbrev pub add_verdict :
      CapabilityEntry C
      → Result Exception Verdict
      → Result Exception (List (CapabilityEntry C) × List String)
      → Result Exception (List (CapabilityEntry C) × List String)
  add_verdict e (err x) rest = err x
  add_verdict e (ok _) (err x) = err x
  add_verdict e (ok eligible) (ok (es, rs)) = ok (e ∷ es, rs)
  add_verdict e (ok (rejected r)) (ok (es, rs)) = ok (es, r ∷ rs)

  -- The eligible entries and the reasons of the rejected ones, in order.
  unfoldable pub sift :
      List (CapabilityEntry C) → Result Exception (List (CapabilityEntry C) × List String)
  unfolding consider
  sift [] = ok ([], [])
  sift (e ∷ es) = add_verdict e (consider e) (sift es)

  -- `"; ".join(rejected) or "No eligible agent ..."`
  abbrev pub or_default : String → String
  or_default s = if str_eq s "" then "No eligible agent matched routing policy." else s

  abbrev pub select :
      Result Exception (List (CapabilityEntry C) × List String)
      → Result Exception (AgentRoutingDecision C)
  select (err x) = err x
  select (ok ([], rs)) = err (exception agent_routing (or_default (join "; " rs)))
  select (ok (e ∷ [], rs)) = ok (record {
    capability_id = i;
    version = v;
    selected = e;
    candidates = e ∷ [];
    reason = "Selected the sole eligible agent after policy and availability filtering.";
  })
  select (ok (e ∷ f ∷ es, rs)) = err (
      exception ambiguous_agent (
        text_append "Ambiguous agent routing for " (
          text_append (label (i, v))
            (text_append ": " (text_append (decimal (length (e ∷ f ∷ es))) " eligible agents")))))

  abbrev pub route_candidates : List (CapabilityEntry C) → Result Exception (AgentRoutingDecision C)
  route_candidates [] =
      err (exception agent_routing (text_append "No agent registered for " (label (i, v))))
  route_candidates (e ∷ es) = select (sift (e ∷ es))

  unfoldable pub candidates_of : Entries C → List (CapabilityEntry C)
  unfolding list_entries
  candidates_of entries = keep (λ e. matches i v e.contract) (list_entries entries)

  unfoldable pub route : Entries C → Result Exception (AgentRoutingDecision C)
  unfolding candidates_of sift
  route entries = route_candidates (candidates_of entries)
