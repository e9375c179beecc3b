-- ===== src/Kernel/Orchestrator.antt =====
-- ois/kernel/orchestrator.py: a plan is executed batch by batch, each task by the kernel runtime. The
-- plan is shared with its caller and the context with the runtime: a `Session` holds both, and every
-- run returns it beside its result. The two `while` loops take fuel: `none` means that it ran out.
pub mod Batches
pub mod Within
pub mod Kept
pub mod Retries
use niceone_obsidian.Prelude.{
  ℕ, zero, suc, String, Bool, true, false, not, ◌&&◌, Option, none, some, List, [], ◌∷◌, str_eq,
  string_eq, length, if◌then◌else◌,
}
use niceone_obsidian.Prelude.Dict.{get, set}
use niceone_obsidian.Prelude.Values.{Value, Fields, text, end, field, get_field}
use niceone_obsidian.Prelude.Exec.{Result, ok, err}
use niceone_obsidian.Kernel.Errors.{Exception, exception, plan_execution, type_name}
use niceone_obsidian.Kernel.Types.{is_succeeded}
use niceone_obsidian.Kernel.State.{ExecutionContext}
use niceone_obsidian.Kernel.Contracts.{InvocationResult}
use niceone_obsidian.Kernel.World.{World, save_checkpoint, load_checkpoint}
use niceone_obsidian.Kernel.Invocation.{Runtime, Call}
use niceone_obsidian.Kernel.Runtime.{execute, complete}
use niceone_obsidian.Kernel.Planning.{
  TaskStatus, TaskNode, Tasks, ExecutionPlan, pending, running, succeeded, failed, with_status,
  validate, ready_tasks, is_complete, has_failed, is_running,
}
use niceone_obsidian.Kernel.Planning.Records.{plan_dict, restore_plan}
use Prim.Native.String.{◌++◌ as text_append}

pub record Session : Type 0 where
  pub plan : ExecutionPlan
  pub world : World

abbrev pub Outcome : Type 0 → Type 0
Outcome A = Option (Result Exception A × Session)

abbrev pub with_tasks : Tasks → Session → Session
with_tasks tasks s = record s { plan = record s.plan { tasks = tasks } }

-- `context.plan = plan.to_dict()` and the save after it.
unfoldable pub write_plan : Session → Session
unfolding save_checkpoint plan_dict
write_plan s = record s {
  world =
      (save_checkpoint
        (record s.world { context = record s.world.context { plan = some (plan_dict s.plan) } })).1;
}

-- An assignment to the attributes of the task with a key; every key that is used is one of the plan's.
abbrev pub put_task : String → (TaskNode → TaskNode) → Option TaskNode → Tasks → Tasks
put_task i f none tasks = tasks
put_task i f (some t) tasks = set tasks i (f t)

unfoldable pub update_task : String → (TaskNode → TaskNode) → Session → Session
unfolding get set
update_task i f s = with_tasks (put_task i f (get s.plan.tasks i) s.plan.tasks) s

-- From the mark RUNNING to the save before the call.
unfoldable pub start_task : String → TaskNode → Session → Session
unfolding update_task write_plan
start_task i t s =
    let marked = update_task i (with_status running) s in
    write_plan (record marked {
      world = record marked.world {
        context = record marked.world.context { current_node = some t.task_id };
      };
    })

unfoldable pub task_call : TaskNode → World → Call
task_call t w = record {
  capability_id = t.capability_id;
  version = t.capability_version;
  input = t.input_data;
  invocation_id = some (text_append w.context.identity.execution_id (text_append ":" t.task_id));
  idempotency_key = none;
  lease = none;
}

abbrev pub is_text : String → Option Value → Bool
is_text s (some (text x)) = str_eq x s
is_text s _ = false

abbrev pub action_in : Option Fields → Option Value
action_in none = none
action_in (some e) = get_field e "recovery_action"

-- The condition of the `while` loop round the call.
unfoldable pub asks_retry : InvocationResult → Bool
unfolding get_field
asks_retry r = not (is_succeeded r.status) && is_text "retry" (action_in r.error)

abbrev pub Answer : Type 0
Answer = Result Exception InvocationResult × World

abbrev pub call_again : (World → Option Answer) → Answer → Option Answer
call_again again (err e, w) = some (err e, w)
call_again again (ok r, w) = if asks_retry r then again w else some (ok r, w)

-- The call and the `while` loop after it.
unfoldable pub call_task : ℕ → Runtime → Call → World → Option Answer
unfolding execute asks_retry
call_task zero rt call w = none
call_task (suc n) rt call w = call_again (call_task n rt call) (execute rt call w)

abbrev pub fail_task : Option Fields → TaskNode → TaskNode
fail_task e t = record t { status = failed; error = e }

abbrev pub succeed_task : Value → TaskNode → TaskNode
succeed_task v t = record t { output = v; status = succeeded }

abbrev pub exception_fields : Exception → Fields
exception_fields e = field "type" (text (type_name e.kind)) (field "message" (text e.message) end)

-- What the call's answer makes of the task, and whether it is a failure.
abbrev pub outcome_of : Result Exception InvocationResult → (TaskNode → TaskNode) × Bool
outcome_of (err e) = (fail_task (some (exception_fields e)), true)
outcome_of (ok r) =
    if is_succeeded r.status then (succeed_task r.output, false) else (fail_task r.error, true)

unfoldable pub finish_task : String → Session → Answer → Bool × Session
unfolding update_task write_plan
finish_task i s (r, w) =
    let (f, bad) = outcome_of r in (bad, write_plan (update_task i f (record s { world = w })))

abbrev pub finish : String → Session → Option Answer → Option (Bool × Session)
finish i s none = none
finish i s (some a) = some (finish_task i s a)

-- One round of the loop over a batch.
abbrev pub run_found : ℕ → Runtime → String → Option TaskNode → Session → Option (Bool × Session)
run_found n rt i none s = some (false, s)
run_found n rt i (some t) s =
    let started = start_task i t s in
    finish i started (call_task n rt (task_call t started.world) started.world)

unfoldable pub run_task : ℕ → Runtime → String → Session → Option (Bool × Session)
unfolding start_task task_call call_task finish_task get
run_task n rt i s = run_found n rt i (get s.plan.tasks i) s

abbrev pub or_failed : Bool → Option (Bool × Session) → Option (Bool × Session)
or_failed bad none = none
or_failed true (some (_, s)) = some (true, s)
or_failed false (some (more, s)) = some (more, s)

abbrev pub and_rest :
    Option (Bool × Session) → (Session → Option (Bool × Session)) → Option (Bool × Session)
and_rest none f = none
and_rest (some (bad, s)) f = or_failed bad (f s)

-- The loop over a batch: whether a task of it failed.
unfoldable pub run_batch : ℕ → Runtime → List String → Session → Option (Bool × Session)
unfolding run_task
run_batch n rt [] s = some (false, s)
run_batch n rt (i ∷ is) s = and_rest (run_task n rt i s) (run_batch n rt is)

abbrev pub blocked_error : Tasks → Exception
blocked_error tasks = exception plan_execution (
    if has_failed tasks
    then "Plan contains failed tasks and cannot continue."
    else "No executable tasks remain. The plan may be blocked.")

abbrev pub after_batch :
    (Session → Outcome (Unit {0})) → Option (Bool × Session) → Outcome (Unit {0})
after_batch f none = none
after_batch f (some (true, s)) = some (ok tt, s)
after_batch f (some (false, s)) = f s

-- What a round of the outer loop does with its ready tasks. A lookup of `ready_tasks` fails only on a
-- plan that `validate` refuses.
abbrev pub with_ready :
    ℕ
    → Runtime
    → (Session → Outcome (Unit {0}))
    → Session
    → Result Exception (Tasks × List String)
    → Outcome (Unit {0})
with_ready n rt f s (err e) = some (err e, s)
with_ready n rt f s (ok (tasks, [])) = some (err (blocked_error tasks), with_tasks tasks s)
with_ready n rt f s (ok (tasks, i ∷ is)) =
    after_batch f (run_batch n rt (i ∷ is) (with_tasks tasks s))

abbrev pub completed : Session → Result Exception (Unit {0}) × World → Outcome (Unit {0})
completed s (r, w) = some (r, record s { world = w })

-- The outer loop and what follows it, with fuel `m` for its rounds and `n` for the calls of a task.
unfoldable pub run_rounds : ℕ → ℕ → Runtime → Session → Outcome (Unit {0})
unfolding is_complete ready_tasks run_batch complete has_failed
run_rounds zero n rt s = none
run_rounds (suc m) n rt s =
    let next = with_ready n rt (run_rounds m n rt) s (ready_tasks s.plan.tasks) in
    if is_complete s.plan.tasks then completed s (complete rt none s.world) else next

abbrev pub when_valid :
    Option (Result Exception (List String)) → Session → Outcome (Unit {0}) → Outcome (Unit {0})
when_valid none s r = none
when_valid (some (err e)) s r = some (err e, s)
when_valid (some (ok _)) s r = r

-- PlanOrchestrator.execute
unfoldable pub execute_plan : ℕ → Runtime → Session → Outcome (Unit {0})
unfolding validate write_plan run_rounds
execute_plan n rt s =
    when_valid (validate s.plan.tasks) s
      (run_rounds (suc (length s.plan.tasks)) n rt (write_plan s))

-- PlanOrchestrator._normalize_interrupted_tasks
abbrev pub interrupted : TaskNode → TaskNode
interrupted t = if is_running t.status then with_status pending t else t

unfoldable pub normalize_interrupted_tasks : Tasks → Tasks
normalize_interrupted_tasks [] = []
normalize_interrupted_tasks ((i, t) ∷ rest) = (i, interrupted t) ∷ normalize_interrupted_tasks rest

-- What `resume` returns or raises, the world after it and, if it gets so far, the plan.
abbrev pub Resumed : Type 0
Resumed = Option (Result Exception (Unit {0}) × World × Option ExecutionPlan)

abbrev pub resumed : Outcome (Unit {0}) → Resumed
resumed none = none
resumed (some (r, s)) = some (r, s.world, some s.plan)

abbrev pub resume_plan : ℕ → Runtime → World → Option (Result Exception ExecutionPlan) → Resumed
resume_plan n rt w none = none
resume_plan n rt w (some (err e)) = some (err e, w, none)
resume_plan n rt w (some (ok p)) = resumed (
    execute_plan n rt
      (record { plan = record p { tasks = normalize_interrupted_tasks p.tasks }; world = w }))

abbrev pub resume_fields : ℕ → Runtime → World → Option Fields → Resumed
resume_fields n rt w none = some (
  err (exception plan_execution "Checkpoint does not contain a resumable execution plan."),
  w,
  none,
)
resume_fields n rt w (some d) = resume_plan n rt w (restore_plan d)

abbrev pub resume_context : ℕ → Runtime → Result Exception ExecutionContext × World → Resumed
resume_context n rt (err e, w) = some (err e, w, none)
resume_context n rt (ok c, w) = resume_fields n rt (record w { context = c }) c.plan

-- PlanOrchestrator.resume
unfoldable pub resume : ℕ → Runtime → String → World → Resumed
unfolding execute_plan normalize_interrupted_tasks restore_plan load_checkpoint
resume n rt i w = resume_context n rt (load_checkpoint i w)
