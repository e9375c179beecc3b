-- ===== src/Kernel/Invocation.antt =====
-- ois/kernel/runtime.py, first part: what one invocation is given, its fence, its handlers of
-- cancellation and failure, and the absorption of a reported failure. The capability's `invoke` is
-- a parameter, any action on the world. The policy engine, the validator and the fencing store are
-- the ones that the runtime was constructed with.
use niceone_obsidian.Prelude.{
  ℕ, suc, String, Bool, Option, none, some, str_eq, string_eq, or_else, if◌then◌else◌,
}
use niceone_obsidian.Prelude.Exec.{Result, pure, raise, gets, ◌>>=◌, ◌>>◌}
use niceone_obsidian.Prelude.Values.{Value, Fields, null, text, end, field, get_field, set_field}
use niceone_obsidian.Kernel.Errors.{Exception, exception, type_name, execution_error}
use niceone_obsidian.Kernel.Types.{
  ExecutionStatus, FailureClass, InvocationStatus, failure_value, parse_failure, is_failed,
  is_final, failed, cancelled,
}
use niceone_obsidian.Kernel.Contracts.{CapabilityContract, InvocationRequest, InvocationResult}
use niceone_obsidian.Kernel.Recovery.{RecoveryPolicy, action_value}
use niceone_obsidian.Kernel.World.{
  World, uuid4, record_event, save_checkpoint, get_result, put_result, raise_if_cancelled,
  set_status, update, apply_recovery,
}
use niceone_obsidian.Kernel.World
use niceone_obsidian.Registries.Capability.{Entries}

pub record Capability : Type 0 where
  pub contract : Option CapabilityContract
  pub invoke : InvocationRequest → World.Action InvocationResult

pub record WorkerLease : Type 0 where
  pub execution_id : String
  pub worker_id : String
  pub epoch : ℕ
  pub lease_expires_at : ℕ

-- `fencing` is the fencing store's `assert_current`: its answer to the n-th check of the execution.
pub record Runtime : Type 0 where
  pub registry : Entries Capability
  pub validate_input : InvocationRequest → CapabilityContract → Result Exception (Unit {0})
  pub validate_output : InvocationResult → CapabilityContract → Result Exception (Unit {0})
  pub authorize : InvocationRequest → CapabilityContract → Result Exception Bool
  pub recovery : RecoveryPolicy
  pub fencing : Option (WorkerLease → ℕ → Result Exception (Unit {0}))

-- The arguments of one call of `execute`.
pub record Call : Type 0 where
  pub capability_id : String
  pub version : String
  pub input : Fields
  pub invocation_id : Option String
  pub idempotency_key : Option String
  pub lease : Option WorkerLease

-- What `execute` holds in its local variables while it runs.
pub record Run : Type 0 where
  pub call : Call
  pub open call use *
  pub execution : String
  pub id : String
  pub key : String

-- `x or default` over an optional text
abbrev pub present : Option String → Option String
present none = none
present (some s) = if str_eq s "" then none else some s

abbrev pub draw_id : Option String → World.Action String
draw_id none = uuid4
draw_id (some i) = pure i

abbrev pub fence_with :
    Option (WorkerLease → ℕ → Result Exception (Unit {0}))
    → Option WorkerLease
    → World.Action (Unit {0})
fence_with none lease = pure tt
fence_with (some check) none =
    raise
      (exception execution_error "PostgreSQL fencing is enabled but no worker lease was supplied")
fence_with (some check) (some lease) =
    λ w. (check lease w.fence_reads, record w { fence_reads = suc w.fence_reads })

-- ExecutionRuntime._assert_fence
unfoldable pub assert_fence : Runtime → Option WorkerLease → World.Action (Unit {0})
unfolding raise pure
assert_fence rt lease = fence_with rt.fencing lease

-- ExecutionRuntime._save_checkpoint
unfoldable pub fenced_save : Runtime → Option WorkerLease → World.Action (Unit {0})
fenced_save rt lease = do assert_fence rt lease; save_checkpoint

-- ExecutionRuntime._cache_terminal_result
unfoldable pub cache_result :
    Runtime → String → InvocationResult → Option WorkerLease → World.Action (Unit {0})
cache_result rt key r lease =
    if is_final r.status then (do assert_fence rt lease; put_result key r) else pure tt

abbrev pub cancellation_fields : String → Fields
cancellation_fields message = field "type" (text "ExecutionCancellation") (
    field "message" (text message)
      (field "failure_class" (text "cancellation") (field "recovery_action" (text "stop") end)))

abbrev pub two_fields : String → String → Fields
two_fields c i = field "capability_id" (text c) (field "invocation_id" (text i) end)

-- A result with an error and no output.
abbrev pub error_result : String → String → InvocationStatus → Fields → InvocationResult
error_result i c s e = record {
  invocation_id = i;
  capability_id = c;
  status = s;
  output = null;
  error = some e;
  started_at = none;
  completed_at = none;
  metadata = end;
}

abbrev pub execution_id : World.Action String
execution_id = gets (λ w. w.context.identity.execution_id)

-- ExecutionRuntime._handle_cancellation
unfoldable pub handle_cancellation :
    Runtime → Call → String → Exception → World.Action InvocationResult
handle_cancellation rt call i e = do
  x ← execution_id
  set_status ExecutionStatus.stopped
  update (λ c. record c {
    error = some (cancellation_fields e.message);
    current_node = some call.capability_id;
  })
  record_event x "execution.cancelled"
      (set_field (two_fields call.capability_id i) "reason" (text e.message))
  fenced_save rt call.lease
  pure (error_result i call.capability_id cancelled (cancellation_fields e.message))

-- ExecutionRuntime._handle_failure
unfoldable pub handle_failure : Runtime → Call → String → Exception → World.Action InvocationResult
handle_failure rt call i e = do
  x ← execution_id
  d ← apply_recovery rt.recovery FailureClass.tool
  record_event x "execution.failure" (
      field "capability_id" (text call.capability_id) (
        field "error" (text e.message) (
          field "failure_class" (text (failure_value FailureClass.tool)) (
            field "recovery_action" (text (action_value d.action))
              (field "invocation_id" (text i) end)))))
  fenced_save rt call.lease
  pure (
      error_result i call.capability_id failed (
        field "type" (text (type_name e.kind)) (
          field "message" (text e.message) (
            field "failure_class" (text (failure_value FailureClass.tool))
              (field "recovery_action" (text (action_value d.action)) end)))))

-- The class that a result's `failure_class` names: any other value is UNKNOWN.
abbrev pub named_class : Value → FailureClass
named_class (text s) = or_else (parse_failure s) FailureClass.unknown
named_class _ = FailureClass.unknown

abbrev pub class_of_value : Option Value → Option FailureClass
class_of_value none = none
class_of_value (some v) = some (named_class v)

-- The class of a failed result that carries one.
abbrev pub class_in : Option Fields → Option FailureClass
class_in none = none
class_in (some e) = class_of_value (get_field e "failure_class")

abbrev pub reported_class : InvocationResult → Option FailureClass
reported_class r = if is_failed r.status then class_in r.error else none

abbrev pub error_fields : Option Fields → Fields
error_fields none = end
error_fields (some e) = e

-- The block on a reported failure: recovery is applied, and the result's error names the action.
unfoldable pub absorb_failure :
    Runtime → Run → InvocationResult → Option FailureClass → World.Action InvocationResult
absorb_failure rt run r none = pure r
absorb_failure rt run r (some f) = do
  d ← apply_recovery rt.recovery f
  record_event run.execution "execution.recovery_decision" (
      field "capability_id" (text run.capability_id) (
        field "invocation_id" (text run.id) (
          field "failure_class" (text (failure_value f))
            (field "recovery_action" (text (action_value d.action)) end))))
  fenced_save rt run.lease
  pure (record r {
    error =
        some (set_field (error_fields r.error) "recovery_action" (text (action_value d.action)));
  })
