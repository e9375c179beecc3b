-- ===== src/Kernel/Runtime.antt =====
-- ois/kernel/runtime.py, second part: `execute` and `complete`, in the phases of the source.
pub mod Growth
pub mod Ready
pub mod Outcomes
pub mod Settle
pub mod Terminal
pub mod Fresh
pub mod Replay
use niceone_obsidian.Prelude.{
  Bool, true, false, Option, none, some, [], ◌∷◌, ◌++◌, str_eq, string_eq, or_else, if◌then◌else◌,
}
use niceone_obsidian.Prelude.Exec.{Result, ok, err, pure, raise, gets, lift, ◌>>=◌, ◌>>◌, try_}
use niceone_obsidian.Prelude.Values.{Fields, bool, text, end, field, set_field}
use niceone_obsidian.Kernel.Errors.{
  Exception, ExceptionKind, exception, execution_error, execution_already_completed,
  attribute_error, authorization_denied, permission_error, execution_cancellation,
}
use niceone_obsidian.Kernel.Types.{ExecutionStatus, status_value, invocation_value, is_succeeded}
use niceone_obsidian.Kernel.State.{ExecutionContext}
use niceone_obsidian.Kernel.Contracts.{CapabilityContract, InvocationRequest, InvocationResult}
use niceone_obsidian.Kernel.World.{
  World, uuid4, record_event, save_checkpoint, get_result, put_result, raise_if_cancelled,
  set_status, update, apply_recovery,
}
use niceone_obsidian.Kernel.World
use niceone_obsidian.Registries.Capability.{CapabilityEntry, get_entry}
use Prim.Native.String.{◌++◌ as text_append}
use niceone_obsidian.Kernel.Invocation.{
  Capability, WorkerLease, Runtime, Call, Run, present, draw_id, assert_fence, fenced_save,
  cache_result, two_fields, execution_id, handle_cancellation, handle_failure, reported_class,
  absorb_failure,
}

abbrev pub observation : InvocationResult → Fields
observation r = field "invocation_id" (text r.invocation_id) (
    field "capability_id" (text r.capability_id)
      (field "status" (text (invocation_value r.status)) (field "output" r.output end)))

-- From the check of the result's identity to the end of `execute`.
unfoldable pub observe :
    Runtime → Run → CapabilityContract → InvocationResult → World.Action (Unit {0})
observe rt run k r = do
  (if str_eq r.invocation_id run.id
      then pure tt
      else raise (
          exception execution_error
            "Capability returned an invocation_id that does not match the requested invocation_id."))
  set_status ExecutionStatus.observing
  update (λ c. record c { observations = c.observations ++ observation r ∷ [] })
  record_event run.execution "capability.completed" (
      set_field (two_fields run.capability_id r.invocation_id) "status"
        (text (invocation_value r.status)))
  set_status ExecutionStatus.validating
  (if is_succeeded r.status then lift (rt.validate_output r k) else pure tt)
  update (λ c. record c {
    validation_results =
        c.validation_results
        ++ field "invocation_id" (text r.invocation_id)
            (field "valid" (bool (is_succeeded r.status)) end)
          ∷ [];
  })

unfoldable pub conclude : Runtime → Run → InvocationResult → World.Action InvocationResult
conclude rt run r = do
  set_status ExecutionStatus.updating_state
  (if is_succeeded r.status
      then update (λ c. record c {
        working_memory =
            set_field c.working_memory (text_append "result:" r.invocation_id) r.output;
      })
      else pure tt)
  cache_result rt run.key r run.lease
  record_event run.execution "execution.idempotency_recorded"
      (set_field (two_fields run.capability_id run.id) "status" (text (invocation_value r.status)))
  set_status ExecutionStatus.checkpointing
  fenced_save rt run.lease
  record_event run.execution "execution.checkpointed" (two_fields run.capability_id r.invocation_id)
  set_status ExecutionStatus.routed
  pure r

-- What follows the invocation.
unfoldable pub settle :
    Runtime → Run → CapabilityContract → InvocationResult → World.Action InvocationResult
settle rt run k r = do
  r' ← absorb_failure rt run r (reported_class r)
  observe rt run k r'
  conclude rt run r'

-- The `try` block round the invocation.
unfoldable pub invoke_once : Capability → InvocationRequest → World.Action InvocationResult
invoke_once c request = do raise_if_cancelled; r ← c.invoke request; raise_if_cancelled; pure r

-- Its handlers.
abbrev pub handle_kind : Runtime → Run → Exception → ExceptionKind → World.Action InvocationResult
handle_kind rt run e execution_cancellation = handle_cancellation rt run.call run.id e
handle_kind rt run e _ = handle_failure rt run.call run.id e

-- The whole of the `try` statement, with what follows it.
unfoldable pub attempt :
    Runtime
    → Run
    → CapabilityEntry Capability
    → CapabilityContract
    → InvocationRequest
    → World.Action InvocationResult
attempt rt run entry k request =
    try_ (invoke_once entry.capability request) (settle rt run k) (λ e. handle_kind rt run e e.kind)

-- From a miss of the idempotency store to the invocation.
unfoldable pub launch : Runtime → Run → World.Action (Unit {0})
launch rt run = do
  record_event run.execution "execution.received" (
      field "capability_id" (text run.capability_id)
        (field "version" (text run.version) (field "invocation_id" (text run.id) end)))
  record_event run.execution "execution.input_validated" (two_fields run.capability_id run.id)
  set_status ExecutionStatus.authorized
  record_event run.execution "execution.authorized" (two_fields run.capability_id run.id)
  set_status ExecutionStatus.executing
  update (λ c. record c { current_node = some run.capability_id })
  fenced_save rt run.lease
  record_event run.execution "capability.started" (two_fields run.capability_id run.id)

unfoldable pub run_fresh :
    Runtime
    → Run
    → CapabilityEntry Capability
    → CapabilityContract
    → InvocationRequest
    → World.Action InvocationResult
run_fresh rt run entry k request = do launch rt run; attempt rt run entry k request

-- The branch on the idempotency store's answer.
unfoldable pub run_cached :
    Runtime
    → Run
    → CapabilityEntry Capability
    → CapabilityContract
    → InvocationRequest
    → Option InvocationResult
    → World.Action InvocationResult
run_cached rt run entry k request (some r) = do
  record_event run.execution "execution.idempotency_hit" (
      field "capability_id" (text run.capability_id)
        (field "version" (text run.version) (field "invocation_id" (text run.id) end)))
  pure r
run_cached rt run entry k request none = run_fresh rt run entry k request

unfoldable pub record_denial : Run → Exception → World.Action InvocationResult
record_denial run e = do
  tenant ← gets (λ w. w.context.identity.tenant_id)
  record_event run.execution "execution.input_validated" (two_fields run.capability_id run.id)
  record_event run.execution "execution.authorization_denied" (
      field "capability_id" (text run.capability_id) (
        field "invocation_id" (text run.id)
          (field "tenant_id" (text tenant) (field "reason" (text e.message) end))))
  raise e

-- `except (AuthorizationDenied, PermissionError)`
abbrev pub denied : Run → Exception → ExceptionKind → World.Action InvocationResult
denied run e authorization_denied = record_denial run e
denied run e permission_error = record_denial run e
denied run e _ = raise e

-- The policy's answer. The Boolean that `authorize` returns is not read.
abbrev pub after_policy :
    Runtime
    → Run
    → CapabilityEntry Capability
    → CapabilityContract
    → InvocationRequest
    → Result Exception Bool
    → World.Action InvocationResult
after_policy rt run entry k request (ok _) = do
  cached ← get_result run.key
  run_cached rt run entry k request cached
after_policy rt run entry k request (err e) = denied run e e.kind

abbrev pub request_of : Run → CapabilityContract → ExecutionContext → InvocationRequest
request_of run k c = record {
  invocation_id = run.id;
  capability_id = run.capability_id;
  input = run.input;
  execution = c;
  timeout_seconds = some k.timeout_seconds;
  attempt = 0;
}

-- From the request on; an entry with no contract is an AttributeError.
unfoldable pub run_entry :
    Runtime
    → Run
    → CapabilityEntry Capability
    → Option CapabilityContract
    → World.Action InvocationResult
run_entry rt run entry none = raise (exception attribute_error "timeout_seconds")
run_entry rt run entry (some k) = do
  c ← gets (λ w. w.context)
  lift (rt.validate_input (request_of run k c) k)
  after_policy rt run entry k (request_of run k c) (rt.authorize (request_of run k c) k)

-- `status in {COMPLETED, STOPPED}`
abbrev pub is_over : ExecutionStatus → Bool
is_over ExecutionStatus.completed = true
is_over ExecutionStatus.stopped = true
is_over _ = false

abbrev pub guard_over : ExecutionStatus → World.Action (Unit {0})
guard_over s =
    if is_over s
    then raise (
        exception execution_already_completed
          (text_append "Execution cannot continue from " (text_append (status_value s) ".")))
    else pure tt

-- ExecutionRuntime.execute
unfoldable pub execute : Runtime → Call → World.Action InvocationResult
execute rt call = do
  s ← gets (λ w. w.context.status)
  x ← execution_id
  guard_over s
  i ← draw_id (present call.invocation_id)
  let run : Run = record {
    call = call;
    execution = x;
    id = i;
    key = or_else (present call.idempotency_key) i;
  }
  assert_fence rt call.lease
  set_status ExecutionStatus.normalized
  entry ← lift (get_entry rt.registry call.capability_id call.version)
  set_status ExecutionStatus.plan_validated
  try_ raise_if_cancelled (λ _. run_entry rt run entry entry.contract)
      (handle_cancellation rt call i)

-- ExecutionRuntime.complete
unfoldable pub complete : Runtime → Option WorkerLease → World.Action (Unit {0})
complete rt lease = do
  assert_fence rt lease
  set_status ExecutionStatus.completed
  fenced_save rt lease
  x ← execution_id
  record_event x "execution.completed" end
