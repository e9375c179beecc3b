-- ===== src/Kernel/Errors.antt =====
-- The exceptions that the kernel raises and catches, each with its message (`str(exc)`).
use niceone_obsidian.Prelude.{String}

-- The class of an exception. `other` stands for the classes that the kernel does not name, such as
-- those that a capability raises.
pub data ExceptionKind : Type 0 where
  execution_error execution_already_completed value_error attribute_error capability_not_found
        input_validation output_validation authorization_denied permission_error
        execution_cancellation fencing_error checkpoint_not_found registry_error
        duplicate_capability agent_routing ambiguous_agent duplicate_task unknown_dependency
        cyclic_plan plan_execution key_error overflow_error :
      ExceptionKind
  other : String → ExceptionKind

pub record Exception : Type 0 where
  pub kind : ExceptionKind
  pub message : String

abbrev pub exception : ExceptionKind → String → Exception
exception k m = record { kind = k; message = m }

-- `type(exc).__name__`
unfoldable pub type_name : ExceptionKind → String
type_name execution_error = "ExecutionError"
type_name execution_already_completed = "ExecutionAlreadyCompleted"
type_name value_error = "ValueError"
type_name attribute_error = "AttributeError"
type_name capability_not_found = "CapabilityNotFoundError"
type_name input_validation = "InputValidationError"
type_name output_validation = "OutputValidationError"
type_name authorization_denied = "AuthorizationDenied"
type_name permission_error = "PermissionError"
type_name execution_cancellation = "ExecutionCancellation"
type_name fencing_error = "FencingError"
type_name checkpoint_not_found = "CheckpointNotFound"
type_name registry_error = "RegistryError"
type_name duplicate_capability = "DuplicateCapabilityError"
type_name agent_routing = "AgentRoutingError"
type_name ambiguous_agent = "AmbiguousAgentError"
type_name duplicate_task = "DuplicateTaskError"
type_name unknown_dependency = "UnknownDependencyError"
type_name cyclic_plan = "CyclicPlanError"
type_name plan_execution = "PlanExecutionError"
type_name key_error = "KeyError"
type_name overflow_error = "OverflowError"
type_name (other n) = n
