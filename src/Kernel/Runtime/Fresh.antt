-- ===== src/Kernel/Runtime/Fresh.antt =====
-- Calls of `execute` (runtime.py) that reach the capability.
use niceone_obsidian.Prelude.{
  String, ◌≡◌, ◌≢◌, refl, Bool, true, false, none, some, ◌∙◌, arith, string_eq, ap,
}
use niceone_obsidian.Prelude.Dict.{get, set_default}
use niceone_obsidian.Prelude.Exec.{ok, err, ◌>>=◌}
use niceone_obsidian.Prelude.Values.{text, field, end, get_field}
use niceone_obsidian.Kernel.Errors.{Exception, ExceptionKind, type_name, execution_cancellation}
use niceone_obsidian.Kernel.Types.{ExecutionStatus, FailureClass, succeeded, failed, failure_value}
use niceone_obsidian.Kernel.State.{is_terminal, terminal_error}
use niceone_obsidian.Kernel.Contracts.{CapabilityContract, InvocationResult}
use niceone_obsidian.Kernel.Recovery.{classify, action_status, action_value}
use niceone_obsidian.Kernel.World.{
  World, raise_if_cancelled, set_status, record_event, get_result, update, save_checkpoint,
  apply_recovery, put_result,
}
use niceone_obsidian.Kernel.Invocation.{
  Capability, Runtime, Call, Run, assert_fence, fenced_save, reported_class, handle_failure,
  error_result,
}
use niceone_obsidian.Kernel.Runtime.{
  run_entry, execute, run_cached, run_fresh, launch, attempt, settle, handle_kind,
}
use niceone_obsidian.Kernel.Runtime.Ready.{Ready, run_of, execute-Ready}
use niceone_obsidian.Kernel.Runtime.Settle.{attempt_returned, attempt_raised, settle_succeeded}
use niceone_obsidian.Kernel.Runtime.Terminal.{settle_terminal}
use niceone_obsidian.Kernel.World
use niceone_obsidian.Kernel.Runtime.Outcomes.{planned_world, request}
use niceone_obsidian.Registries.Capability.{CapabilityEntry}
use Prim.Native.String.{◌++◌ as text_append}

-- The world that the capability is given.
abbrev pub launched : Runtime → Call → World → String → World
launched rt call w i = (launch rt (run_of call w i) (planned_world w)).1

launch_ok :
    (rt : Runtime) (run : Run) (w : World)
    → rt.fencing ≡ none
    → is_terminal w.context.status ≡ false
    → let (r, w') = launch rt run w in
      (r ≡ ok tt)
      × (w'.token ≡ w.token)
      × (w'.results ≡ w.results)
      × (w'.context.status ≡ ExecutionStatus.executing)
unfolding launch ◌>>=◌ record_event set_status update fenced_save assert_fence save_checkpoint
launch_ok rt run w f l = ground arith

-- The result that stands for an exception of the capability.
abbrev pub failure_result : Call → String → Exception → InvocationResult
failure_result call i x = error_result i call.capability_id failed (
    field "type" (text (type_name x.kind)) (
      field "message" (text x.message)
        (field "failure_class" (text "tool") (field "recovery_action" (text "fallback") end))))

handle_other :
    (rt : Runtime) (run : Run) (e : Exception) (k : ExceptionKind)
    → k ≢ execution_cancellation
    → handle_kind rt run e k ≡ handle_failure rt run.call run.id e
handle_other rt run e execution_cancellation n = absurd (n refl)
handle_other rt run e _ n = refl

handle_failure_ok :
    (rt : Runtime) (call : Call) (i : String) (e : Exception) (w : World)
    → rt.fencing ≡ none
    → let (a, w') = handle_failure rt call i e w in
      (a ≡ ok (failure_result call i e))
      × (w'.results ≡ w.results)
      × (w'.context.status ≡ w.context.status)
      × (w'.context.last_failure ≡ some FailureClass.tool)
unfolding handle_failure ◌>>=◌ apply_recovery record_event fenced_save assert_fence save_checkpoint
    action_value failure_value
handle_failure_ok rt call i e w u = simp u (refl, refl, refl, refl)

module _ (rt : Runtime) (call : Call) (w : World) (i : String) (entry : CapabilityEntry Capability)
    (k : CapabilityContract) (h : Ready rt call w i entry k) (b : Bool)
    (a : rt.authorize (request call w i k) k ≡ ok b)
    (f : get w.results (run_of call w i).key ≡ none) where
  -- With no result under its key, a call comes down to the attempt in the launched world.
  pub execute_fresh :
      execute rt call w
      ≡ attempt rt (run_of call w i) entry k (request call w i k) (launched rt call w i)
  unfolding run_entry ◌>>=◌ get_result run_cached run_fresh
  execute_fresh =
      execute-Ready rt call w i entry k h
      ∙ ap (λ c. run_entry rt (run_of call w i) entry c (planned_world w)) h.contracted
      ∙ (rw (h.valid, a, f, (launch_ok rt (run_of call w i) (planned_world w) h.unfenced refl).0)
          refl)

  launched_running : (launched rt call w i).token.cancelled ≡ false
  launched_running =
      ap (λ (t : World.CancellationToken). t.cancelled)
        (launch_ok rt (run_of call w i) (planned_world w) h.unfenced refl).1
      ∙ h.running

  -- The attempt starts in a world that is not cancelled, and ends in the settling of an answer.
  attempt_settles :
      (r : InvocationResult) (w' : World)
      → entry.capability.invoke (request call w i k) (launched rt call w i) ≡ (ok r, w')
      → w'.token.cancelled ≡ false
      → execute rt call w ≡ settle rt (run_of call w i) k r w'
  attempt_settles r w' e c =
      execute_fresh
      ∙ attempt_returned rt (run_of call w i) entry k (request call w i k) (launched rt call w i) w'
          launched_running r e c

  -- A ready, authorized and unfenced call of a key with no result, whose capability succeeds under
  -- the requested identity and with a valid output and neither cancels nor ends the execution, returns
  -- the answer, keeps it under the key unless the capability kept one there, remembers its output, and
  -- checkpoints the context just before the status becomes ROUTED.
  pub execute_succeeded :
      (r : InvocationResult) (w' : World)
      → entry.capability.invoke (request call w i k) (launched rt call w i) ≡ (ok r, w')
      → w'.token.cancelled ≡ false
      → is_terminal w'.context.status ≡ false
      → r.invocation_id ≡ i
      → r.status ≡ succeeded
      → rt.validate_output r k ≡ ok tt
      → let (a, w'') = execute rt call w in
        (a ≡ ok r)
        × (w''.context.status ≡ ExecutionStatus.routed)
        × (w''.results ≡ set_default w'.results (run_of call w i).key r)
        × (get_field w''.context.working_memory (text_append "result:" r.invocation_id)
            ≡ some r.output)
        × (get w''.checkpoints w'.context.identity.execution_id
            ≡ some (record w''.context { status = ExecutionStatus.checkpointing }))
  execute_succeeded r w' e c l n s v =
      rw (attempt_settles r w' e c)
        (settle_succeeded rt (run_of call w i) k r w' h.unfenced l n s v)

  -- In such a call, a capability that reports a failure which recovery answers by a terminal status
  -- (it stops or escalates) makes the call raise the refused transition from that status to OBSERVING
  -- instead of returning the answer. No result is kept.
  pub execute_terminal_failure :
      (r : InvocationResult) (w' : World) (f : FailureClass) (s : ExecutionStatus)
      → entry.capability.invoke (request call w i k) (launched rt call w i) ≡ (ok r, w')
      → w'.token.cancelled ≡ false
      → is_terminal w'.context.status ≡ false
      → r.invocation_id ≡ i
      → reported_class r ≡ some f
      → action_status (classify rt.recovery f w'.context).action ≡ some s
      → is_terminal s ≡ true
      → let (a, w'') = execute rt call w in
        (a ≡ err (terminal_error s ExecutionStatus.observing))
        × (w''.context.status ≡ s)
        × (w''.results ≡ w'.results)
  execute_terminal_failure r w' f s e c l n g d t =
      rw (attempt_settles r w' e c)
        (settle_terminal rt (run_of call w i) k r w' f s h.unfenced l n g d t)

  -- In such a call, a capability that raises anything but a cancellation makes the call return the
  -- failed result of that exception, which names the action `fallback`. No result is kept, the status
  -- stays as the capability left it, and the last failure is TOOL.
  pub execute_raised :
      (x : Exception) (w' : World)
      → entry.capability.invoke (request call w i k) (launched rt call w i) ≡ (err x, w')
      → x.kind ≢ execution_cancellation
      → let (a, w'') = execute rt call w in
        (a ≡ ok (failure_result call i x))
        × (w''.results ≡ w'.results)
        × (w''.context.status ≡ w'.context.status)
        × (w''.context.last_failure ≡ some FailureClass.tool)
  execute_raised x w' e n = rw execute_fresh (
      rw
        (attempt_raised rt (run_of call w i) entry k (request call w i k) (launched rt call w i) w'
          launched_running x e)
        (rw (handle_other rt (run_of call w i) x x.kind n)
          (handle_failure_ok rt call i x w' h.unfenced)))
