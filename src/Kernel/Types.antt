-- ===== src/Kernel/Types.antt =====
-- ois/kernel/types.py: the enumerations of the kernel, and the strings that they stand for.
use niceone_obsidian.Prelude.{
  String, Bool, true, false, ◌≡◌, refl, Option, some, str_eq, if◌then◌else◌,
}

pub data ExecutionStatus : Type 0 where
  received normalized understood classified risk_assessed context_retrieved routed planned
        plan_validated authorized executing observing validating updating_state checkpointing
        completed failed recovering replanning escalated stopped :
      ExecutionStatus

pub data RiskLevel : Type 0 where
  low medium high critical : RiskLevel

pub data FailureClass : Type 0 where
  transient parameter tool plan state permission safety unknown : FailureClass

pub data InvocationStatus : Type 0 where
  pending running succeeded failed cancelled timed_out : InvocationStatus

pub data SideEffectLevel : Type 0 where
  none reversible irreversible : SideEffectLevel

-- The value of each member, as evidence and checkpoints hold it.
unfoldable pub status_value : ExecutionStatus → String
status_value received = "received"
status_value normalized = "normalized"
status_value understood = "understood"
status_value classified = "classified"
status_value risk_assessed = "risk_assessed"
status_value context_retrieved = "context_retrieved"
status_value routed = "routed"
status_value planned = "planned"
status_value plan_validated = "plan_validated"
status_value authorized = "authorized"
status_value executing = "executing"
status_value observing = "observing"
status_value validating = "validating"
status_value updating_state = "updating_state"
status_value checkpointing = "checkpointing"
status_value completed = "completed"
status_value failed = "failed"
status_value recovering = "recovering"
status_value replanning = "replanning"
status_value escalated = "escalated"
status_value stopped = "stopped"

unfoldable pub risk_value : RiskLevel → String
risk_value low = "low"
risk_value medium = "medium"
risk_value high = "high"
risk_value critical = "critical"

unfoldable pub failure_value : FailureClass → String
failure_value transient = "transient"
failure_value parameter = "parameter"
failure_value tool = "tool"
failure_value plan = "plan"
failure_value state = "state"
failure_value permission = "permission"
failure_value safety = "safety"
failure_value unknown = "unknown"

unfoldable pub invocation_value : InvocationStatus → String
invocation_value pending = "pending"
invocation_value running = "running"
invocation_value succeeded = "succeeded"
invocation_value failed = "failed"
invocation_value cancelled = "cancelled"
invocation_value timed_out = "timed_out"

-- `FailureClass(value)`; `none` is its ValueError.
unfoldable pub parse_failure : String → Option FailureClass
parse_failure s =
    if str_eq s "transient"
    then some transient
    else if str_eq s "parameter"
    then some parameter
    else if str_eq s "tool"
    then some tool
    else if str_eq s "plan"
    then some plan
    else if str_eq s "state"
    then some state
    else if str_eq s "permission"
    then some permission
    else if str_eq s "safety"
    then some safety
    else if str_eq s "unknown"
    then some unknown
    else Option.none

pub parse_failure-failure_value : (c : FailureClass) → parse_failure (failure_value c) ≡ some c
unfolding parse_failure failure_value
parse_failure-failure_value transient = refl
parse_failure-failure_value _ = refl

abbrev pub is_succeeded : InvocationStatus → Bool
is_succeeded succeeded = true
is_succeeded _ = false

abbrev pub is_failed : InvocationStatus → Bool
is_failed failed = true
is_failed _ = false

-- `status in {SUCCEEDED, CANCELLED}`
abbrev pub is_final : InvocationStatus → Bool
is_final succeeded = true
is_final cancelled = true
is_final _ = false
