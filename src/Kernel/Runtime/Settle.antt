-- ===== src/Kernel/Runtime/Settle.antt =====
-- What runtime.py makes of the capability's answer.
use niceone_obsidian.Prelude.{
  ◌≡◌, refl, false, none, some, ◌∙◌, arith, str_eq_refl, string_eq, ap, sym,
}
use niceone_obsidian.Prelude.Dict.{get, set_default, set, get-set_self}
use niceone_obsidian.Prelude.Exec.{ok, err, ◌>>=◌, try_}
use niceone_obsidian.Prelude.Values.{get_field, set_field, get_field-set_field_self}
use niceone_obsidian.Kernel.Errors.{Exception}
use niceone_obsidian.Kernel.Types.{ExecutionStatus, succeeded}
use niceone_obsidian.Kernel.State.{ExecutionIdentity, ExecutionContext, is_terminal}
use niceone_obsidian.Kernel.Contracts.{CapabilityContract, InvocationRequest, InvocationResult}
use niceone_obsidian.Kernel.World.{
  World, raise_if_cancelled, set_status, record_event, update, save_checkpoint, put_result,
}
use niceone_obsidian.Kernel.Invocation.{
  Capability, Runtime, Run, assert_fence, fenced_save, absorb_failure, cache_result,
}
use niceone_obsidian.Kernel.Runtime.{attempt, invoke_once, settle, observe, conclude, handle_kind}
use niceone_obsidian.Registries.Capability.{CapabilityEntry}
use Prim.Native.String.{◌++◌ as text_append}

pub running_goes_on : (w : World) → w.token.cancelled ≡ false → raise_if_cancelled w ≡ (ok tt, w)
unfolding raise_if_cancelled
running_goes_on w h = ground arith

module _ (rt : Runtime) (run : Run) (entry : CapabilityEntry Capability) (k : CapabilityContract)
    (q : InvocationRequest) (w w' : World) (running : w.token.cancelled ≡ false) where
  pub attempt_returned :
      (r : InvocationResult)
      → entry.capability.invoke q w ≡ (ok r, w')
      → w'.token.cancelled ≡ false
      → attempt rt run entry k q w ≡ settle rt run k r w'
  unfolding attempt try_ invoke_once ◌>>=◌
  attempt_returned r a c = rw (running_goes_on w running, a, running_goes_on w' c) refl

  pub attempt_raised :
      (e : Exception)
      → entry.capability.invoke q w ≡ (err e, w')
      → attempt rt run entry k q w ≡ handle_kind rt run e e.kind w'
  unfolding attempt try_ invoke_once ◌>>=◌
  attempt_raised e a = rw (running_goes_on w running, a) refl

module _ (rt : Runtime) (run : Run) (k : CapabilityContract) (r : InvocationResult) (w : World)
    (unfenced : rt.fencing ≡ none) (live : is_terminal w.context.status ≡ false)
    (named : r.invocation_id ≡ run.id) where
  observe_ok :
      (r.status ≡ succeeded → rt.validate_output r k ≡ ok tt)
      → let (a, w') = observe rt run k r w in
        (a ≡ ok tt)
        × (w'.context.status ≡ ExecutionStatus.validating)
        × (w'.results ≡ w.results)
        × (w'.context.identity ≡ w.context.identity)
  unfolding observe ◌>>=◌ record_event set_status update
  observe_ok v = ground (arith, v, str_eq_refl run.id)

  -- The context of a successful answer at its end.
  abbrev pub concluded : ExecutionContext
  concluded = record w.context {
    status = ExecutionStatus.routed;
    updated_at = w.now;
    working_memory =
        set_field w.context.working_memory (text_append "result:" r.invocation_id) r.output;
  }

  conclude_ok :
      r.status ≡ succeeded
      → let (a, w') = conclude rt run r w in
        (a ≡ ok r)
        × (w'.context ≡ concluded)
        × (w'.results ≡ set_default w.results run.key r)
        × (w'.checkpoints
            ≡ set w.checkpoints w.context.identity.execution_id
                (record concluded { status = ExecutionStatus.checkpointing }))
  unfolding conclude ◌>>=◌ record_event set_status update cache_result fenced_save assert_fence
      save_checkpoint put_result
  conclude_ok s = simp (live, s, unfenced) (refl, refl, refl, refl)

module _ (rt : Runtime) (run : Run) (k : CapabilityContract) (r : InvocationResult) (w : World)
    (unfenced : rt.fencing ≡ none) (live : is_terminal w.context.status ≡ false) where
  settle_plain :
      r.status ≡ succeeded
      → (observe rt run k r w).0 ≡ ok tt
      → settle rt run k r w ≡ conclude rt run r (observe rt run k r w).1
  unfolding settle ◌>>=◌ absorb_failure
  settle_plain s o = simp (s, o)

  -- A successful answer with a valid output is returned, kept under its key unless one is kept
  -- there, remembered, and checkpointed.
  pub settle_succeeded :
      r.invocation_id ≡ run.id
      → r.status ≡ succeeded
      → rt.validate_output r k ≡ ok tt
      → let (a, w') = settle rt run k r w in
        (a ≡ ok r)
        × (w'.context.status ≡ ExecutionStatus.routed)
        × (w'.results ≡ set_default w.results run.key r)
        × (get_field w'.context.working_memory (text_append "result:" r.invocation_id)
            ≡ some r.output)
        × (get w'.checkpoints w.context.identity.execution_id
            ≡ some (record w'.context { status = ExecutionStatus.checkpointing }))
  settle_succeeded n s v =
      let w1 : World = (observe rt run k r w).1 in
      let (o, st, res, ident) = observe_ok rt run k r w unfenced live n (λ _. v) in
      let (a, c, q, p) = conclude_ok rt run k r w1 unfenced (rw st refl) n s in
      rw (settle_plain s o) (
        a,
        ap (λ (c : ExecutionContext). c.status) c,
        q ∙ ap (λ d. set_default d run.key r) res,
        ap
              (λ (c : ExecutionContext).
                get_field c.working_memory (text_append "result:" r.invocation_id))
              c
            ∙ get_field-set_field_self w1.context.working_memory
                (text_append "result:" r.invocation_id) r.output,
        ap (get (conclude rt run r w1).1.checkpoints)
              (sym (ap (λ (x : ExecutionIdentity). x.execution_id) ident))
            ∙ ap (λ d. get d w1.context.identity.execution_id) p
            ∙ get-set_self w1.checkpoints w1.context.identity.execution_id _
            ∙ ap
                (λ (c : ExecutionContext).
                  some (record c { status = ExecutionStatus.checkpointing }))
                (sym c),
      )
