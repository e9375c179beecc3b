-- ===== src/Kernel/State.antt =====
-- ois/kernel/state.py: the execution context, which every operation of the kernel mutates.
use niceone_obsidian.Prelude.{ℕ, String, Bool, true, false, Option, none, List, [], if◌then◌else◌}
use niceone_obsidian.Prelude.Values.{Fields, end}
use niceone_obsidian.Prelude.Exec.{Result, ok, err}
use niceone_obsidian.Kernel.Errors.{Exception, exception, value_error}
use niceone_obsidian.Kernel.Types.{
  ExecutionStatus, FailureClass, RiskLevel, received, low, status_value,
}
use Prim.Native.String.{◌++◌}

pub record ExecutionIdentity : Type 0 where
  pub execution_id : String
  pub tenant_id : String
  pub workflow_id : Option String
  pub workflow_version : Option String

pub record ExecutionContext : Type 0 where
  pub identity : ExecutionIdentity
  pub objective : String
  pub constraints : Fields
  pub metadata : Fields
  pub status : ExecutionStatus
  pub risk_level : RiskLevel
  pub intent : Option Fields
  pub plan : Option Fields
  pub current_node : Option String
  pub working_memory : Fields
  pub retrieved_context : List Fields
  pub artifacts : List Fields
  pub approvals : List Fields
  pub escalations : List Fields
  pub observations : List Fields
  pub validation_results : List Fields
  pub retry_count : ℕ
  pub recovery_attempts : ℕ
  pub last_failure : Option FailureClass
  pub error : Option Fields
  pub created_at : ℕ
  pub updated_at : ℕ

-- A context with the defaults of the dataclass, made at time `now`.
unfoldable pub new_context : ExecutionIdentity → String → ℕ → ExecutionContext
new_context identity objective now = record {
  identity = identity;
  objective = objective;
  constraints = end;
  metadata = end;
  status = received;
  risk_level = low;
  intent = none;
  plan = none;
  current_node = none;
  working_memory = end;
  retrieved_context = [];
  artifacts = [];
  approvals = [];
  escalations = [];
  observations = [];
  validation_results = [];
  retry_count = 0;
  recovery_attempts = 0;
  last_failure = none;
  error = none;
  created_at = now;
  updated_at = now;
}

-- `status in {COMPLETED, STOPPED, ESCALATED}`
abbrev pub is_terminal : ExecutionStatus → Bool
is_terminal ExecutionStatus.completed = true
is_terminal ExecutionStatus.stopped = true
is_terminal ExecutionStatus.escalated = true
is_terminal _ = false

unfoldable pub touch : ℕ → ExecutionContext → ExecutionContext
touch now c = record c { updated_at = now }

-- The ValueError of a transition out of a terminal status.
abbrev pub terminal_error : ExecutionStatus → ExecutionStatus → Exception
terminal_error from to = exception value_error (
    "Terminal execution status "
    ++ status_value from
    ++ " cannot transition to "
    ++ status_value to
    ++ ".")

-- The context that `set_status` leaves, or its exception.
unfoldable pub set_status :
    ℕ → ExecutionStatus → ExecutionContext → Result Exception ExecutionContext
unfolding touch
set_status now status c =
    if is_terminal c.status
    then err (terminal_error c.status status)
    else ok (touch now (record c { status = status }))
