-- ===== src/Kernel/Contracts.antt =====
-- ois/kernel/contracts.py: contracts, requests and results.
use niceone_obsidian.Prelude.{ℕ, String, Bool, Option, List}
use niceone_obsidian.Prelude.Values.{Value, Fields}
use niceone_obsidian.Kernel.Types.{RiskLevel, SideEffectLevel, InvocationStatus}
use niceone_obsidian.Kernel.State.{ExecutionContext}

-- The subclass of a contract, with the fields that it adds.
pub data ContractKind : Type 0 where
  capability : ContractKind
  agent : List String → Fields → ℕ → ContractKind
  tool : Fields → List String → Bool → ContractKind

pub record CapabilityContract : Type 0 where
  pub capability_id : String
  pub version : String
  pub description : String
  pub input_schema : Fields
  pub output_schema : Fields
  pub risk_level : RiskLevel
  pub permissions : List String
  pub allowed_domains : List String
  pub timeout_seconds : Value
  pub max_retries : ℕ
  pub side_effects : SideEffectLevel
  pub idempotent : Bool
  pub kind : ContractKind

pub record InvocationRequest : Type 0 where
  pub invocation_id : String
  pub capability_id : String
  pub input : Fields
  pub execution : ExecutionContext
  pub timeout_seconds : Option Value
  pub attempt : ℕ

pub record InvocationResult : Type 0 where
  pub invocation_id : String
  pub capability_id : String
  pub status : InvocationStatus
  pub output : Value
  pub error : Option Fields
  pub started_at : Option String
  pub completed_at : Option String
  pub metadata : Fields
