-- ===== src/Kernel/Runtime/Terminal.antt =====
-- A failure that the capability reports and that recovery answers by a terminal action
-- (runtime.py and recovery.py).
use niceone_obsidian.Prelude.{
  ◌≡◌, refl, true, false, none, some, ◌∙◌, arith, str_eq_refl, string_eq, ap,
}
use niceone_obsidian.Prelude.Exec.{ok, err, ◌>>=◌}
use niceone_obsidian.Prelude.Values.{text, set_field}
use niceone_obsidian.Kernel.Types.{ExecutionStatus, FailureClass}
use niceone_obsidian.Kernel.State.{is_terminal, terminal_error}
use niceone_obsidian.Kernel.Contracts.{CapabilityContract, InvocationResult}
use niceone_obsidian.Kernel.Recovery.{RecoveryPolicy, classify, action_status, action_value}
use niceone_obsidian.Kernel.World.{World, set_status, record_event, save_checkpoint, apply_recovery}
use niceone_obsidian.Kernel.Invocation.{
  Runtime, Run, assert_fence, fenced_save, absorb_failure, reported_class, error_fields,
}
use niceone_obsidian.Kernel.Runtime.{settle, observe}

-- A terminal action on a live context succeeds and sets the status that it stands for.
recovery_moves :
    (p : RecoveryPolicy) (f : FailureClass) (s : ExecutionStatus) (w : World)
    → is_terminal w.context.status ≡ false
    → action_status (classify p f w.context).action ≡ some s
    → let (r, w') = apply_recovery p f w in
      (r ≡ ok (classify p f w.context)) × (w'.context.status ≡ s) × (w'.results ≡ w.results)
unfolding apply_recovery classify
recovery_moves p f s w l a = ground arith

absorb_moves :
    (rt : Runtime) (run : Run) (r : InvocationResult) (f : FailureClass) (s : ExecutionStatus)
    (w : World)
    → rt.fencing ≡ none
    → is_terminal w.context.status ≡ false
    → action_status (classify rt.recovery f w.context).action ≡ some s
    → let (a, w') = absorb_failure rt run r (some f) w in
      (r' : InvocationResult) × (a ≡ ok r')
      × (r'.invocation_id ≡ r.invocation_id)
      × (w'.context.status ≡ s)
      × (w'.results ≡ w.results)
unfolding absorb_failure ◌>>=◌ record_event fenced_save assert_fence save_checkpoint
absorb_moves rt run r f s w u l a =
    let (o, st, res) = recovery_moves rt.recovery f s w l a in
    (told, simp (o, u) refl, refl, simp (o, u) st, simp (o, u) res)
  where
    told : InvocationResult
    told = record r {
      error = some (
          set_field (error_fields r.error) "recovery_action"
            (text (action_value (classify rt.recovery f w.context).action)));
    }

observe_terminal :
    (rt : Runtime) (run : Run) (k : CapabilityContract) (r : InvocationResult) (w : World)
    (s : ExecutionStatus)
    → r.invocation_id ≡ run.id
    → w.context.status ≡ s
    → is_terminal s ≡ true
    → let (a, w') = observe rt run k r w in
      (a ≡ err (terminal_error s ExecutionStatus.observing)) × (w' ≡ w)
unfolding observe ◌>>=◌ set_status
observe_terminal rt run k r w s n e t = ground (arith, str_eq_refl run.id)

-- The answer is lost: what is raised is the refusal of the transition out of the terminal status.
pub settle_terminal :
    (rt : Runtime) (run : Run) (k : CapabilityContract) (r : InvocationResult) (w : World)
    (f : FailureClass) (s : ExecutionStatus)
    → rt.fencing ≡ none
    → is_terminal w.context.status ≡ false
    → r.invocation_id ≡ run.id
    → reported_class r ≡ some f
    → action_status (classify rt.recovery f w.context).action ≡ some s
    → is_terminal s ≡ true
    → let (a, w') = settle rt run k r w in
      (a ≡ err (terminal_error s ExecutionStatus.observing))
      × (w'.context.status ≡ s)
      × (w'.results ≡ w.results)
unfolding settle ◌>>=◌
settle_terminal rt run k r w f s u l n c d t =
    let (r', o, n', st, res) = absorb_moves rt run r f s w u l d in
    let (e, same) =
      observe_terminal rt run k r' (absorb_failure rt run r (some f) w).1 s (n' ∙ n) st t in
    simp (c, o, e)
      (
        refl,
        ap (λ (v : World). v.context.status) same ∙ st,
        ap (λ (v : World). v.results) same ∙ res,
      )
