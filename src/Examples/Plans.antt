-- ===== src/Examples/Plans.antt =====
-- The properties of plans on one of two tasks: `fetch`, and `report`, which waits for it.
use mathlib.Core.Path.{subst}
use niceone_obsidian.Prelude.{
  ℕ, suc, String, ◌≡◌, ◌↔◌, refl, false, none, some, List, [], ◌∷◌, arith, string_eq,
}
use niceone_obsidian.Prelude.Dict.{get, contains, IsDict}
use niceone_obsidian.Prelude.Exec.{Result, ok, err, Keeps}
use niceone_obsidian.Prelude.Values.{end, field, text, null}
use niceone_obsidian.Kernel.Errors.{Exception}
use niceone_obsidian.Kernel.Types.{medium}
use niceone_obsidian.Kernel.Contracts.{InvocationRequest, InvocationResult}
use niceone_obsidian.Kernel.World.{World, load_checkpoint, save_checkpoint}
use niceone_obsidian.Kernel.Invocation.{Capability, Runtime}
use niceone_obsidian.Kernel.Planning.{
  TaskStatus, TaskNode, Tasks, ExecutionPlan, pending, ready, succeeded, validate, each, visit,
  check_known, check_dependencies, validate_dependencies, validate_cycles, ready_tasks, ready_from,
  mark_ready, all_succeeded, is_complete, has_failed,
}
use niceone_obsidian.Kernel.Planning.Cycles.{IsRanked, accepted_iff_IsRanked}
use niceone_obsidian.Kernel.Planning.Progress.{ready_tasks_progress}
use niceone_obsidian.Kernel.Planning.Records.{plan_dict, restore_plan, validated}
use niceone_obsidian.Kernel.Planning.Records.Roundtrip.{IsKeyed, restore-plan_dict}
use niceone_obsidian.Kernel.Orchestrator.{
  Session, execute_plan, resume, asks_retry, write_plan, run_rounds, normalize_interrupted_tasks,
  blocked_error,
}
use niceone_obsidian.Kernel.Orchestrator.Batches.{execute_plan_terminates}
use niceone_obsidian.Kernel.Orchestrator.Kept.{execute_plan_kept, resume_kept}
use niceone_obsidian.Kernel.Orchestrator.Retries.Steady.{Clean}
use niceone_obsidian.Kernel.Orchestrator.Retries.Answers.{Counts, Counts-refl, Reports}
use niceone_obsidian.Kernel.Orchestrator.Retries.Counted.{Reporting}
use niceone_obsidian.Registries.Capability.{CapabilityEntry}
use niceone_obsidian.Examples.Executions.{answer, runtime, begun, same_entry}

abbrev task : String → List String → TaskStatus → TaskNode
task i dependencies status = record {
  task_id = i;
  capability_id = "search";
  capability_version = "1.0.0";
  input_data = field "query" (text i) end;
  dependencies = dependencies;
  status = status;
  output = null;
  error = none;
  metadata = end;
}

-- The tasks of the plan, in given states.
abbrev tasks : TaskStatus → TaskStatus → Tasks
tasks s r = ("fetch", task "fetch" [] s) ∷ ("report", task "report" ("fetch" ∷ []) r) ∷ []

abbrev plan : TaskStatus → TaskStatus → ExecutionPlan
plan s r = record {
  plan_id = "plan-1";
  version = "1.0.0";
  objective = "report the weather";
  tasks = tasks s r;
  metadata = end;
}

distinct : (s r : TaskStatus) → IsDict (tasks s r)
unfolding contains get
distinct s r = (refl, (refl, tt))

keyed : (s r : TaskStatus) → IsKeyed (tasks s r)
keyed s r = record { keys = distinct s r; named = (refl, (refl, tt)) }

accepted : (s r : TaskStatus) → validate (tasks s r) ≡ some (ok ("report" ∷ "fetch" ∷ []))
unfolding validate validate_dependencies check_dependencies check_known contains get validate_cycles
    visit each
accepted s r = refl

accepted_iff_IsRanked_example :
    ((visited : List String) × (validate (tasks pending pending) ≡ some (ok visited)))
    ↔ ((rank : String → ℕ) × IsRanked rank (tasks pending pending))
accepted_iff_IsRanked_example =
    accepted_iff_IsRanked (tasks pending pending) (distinct pending pending)

restore-plan_dict_example :
    restore_plan (plan_dict (plan succeeded pending))
    ≡ validated (plan succeeded pending) (validate (tasks succeeded pending))
restore-plan_dict_example = restore-plan_dict (plan succeeded pending) (keyed succeeded pending)

waiting : is_complete (tasks succeeded pending) ≡ false
unfolding is_complete
waiting = refl

ready_tasks_progress_example :
    (b : Tasks) × (i : String) × (is : List String) × (ready_tasks (tasks succeeded pending)
      ≡ ok (b, i ∷ is))
ready_tasks_progress_example =
    ready_tasks_progress (tasks succeeded pending) ("report" ∷ "fetch" ∷ [])
      (distinct succeeded pending) (accepted succeeded pending) (refl, (refl, tt)) waiting

-- A runtime whose one capability answers the call of `report`.
abbrev reply : InvocationResult
reply = record answer { invocation_id = "exec-1:report" }

abbrev rt : Runtime
rt = runtime medium (ok reply)

quiet : asks_retry reply ≡ false
unfolding asks_retry
quiet = refl

reporting : Reporting rt
reporting = record {
  counts = λ i v e h.
      subst
        (λ (x : CapabilityEntry Capability).
          (q : InvocationRequest) → Keeps Counts (x.capability.invoke q))
        (same_entry (ok reply) i v e h) (λ q. record { at = λ s. Counts-refl s });
  reports = λ i v e h.
      subst
        (λ (x : CapabilityEntry Capability).
          (q : InvocationRequest) (s : World) (r : InvocationResult)
          → (x.capability.invoke q s).0 ≡ ok r
          → Reports r)
        (same_entry (ok reply) i v e h) (λ q s r g a. absurd (ground (arith, quiet, g, a)));
}

abbrev started : World
started = record begun { results = [] }

clean : Clean started
unfolding get
clean k r h = absurd (ground (arith, h))

abbrev session : Session
session = record { plan = plan succeeded pending; world = started }

execute_plan_terminates_example :
    (r : Result Exception (Unit {0}) × Session) × (execute_plan
        (suc rt.recovery.max_retries)
        rt
        session
      ≡ some r)
execute_plan_terminates_example =
    execute_plan_terminates rt session reporting (distinct succeeded pending) clean

-- How that execution ends.
abbrev ending : Result Exception (Unit {0}) × Session
ending = (execute_plan_terminates rt session reporting (distinct succeeded pending) clean).0

execute_plan_kept_example : get ending.1.plan.tasks "fetch" ≡ some (task "fetch" [] succeeded)
unfolding get
execute_plan_kept_example =
    execute_plan_kept (suc rt.recovery.max_retries) rt session ending.1 ending.0 "fetch"
      (task "fetch" [] succeeded) (distinct succeeded pending) refl refl
      (execute_plan_terminates rt session reporting (distinct succeeded pending) clean).1

-- A checkpoint of a batch that was interrupted after `report` was marked READY.
abbrev saved : World
saved = record begun {
  checkpoints =
      ("exec-1", record begun.context { plan = some (plan_dict (plan succeeded ready)) }) ∷ [];
}

abbrev halted : Session
halted = record { plan = plan succeeded ready; world = saved }

-- The resumption of it finds the plan blocked.
blocked :
    resume 1 rt "exec-1" saved
    ≡ some (
      err (blocked_error (tasks succeeded ready)),
      (write_plan halted).world,
      some (plan succeeded ready),
    )
unfolding resume load_checkpoint restore_plan plan_dict write_plan save_checkpoint execute_plan
    run_rounds validate validate_dependencies check_dependencies check_known contains get
    validate_cycles visit each ready_tasks ready_from mark_ready all_succeeded is_complete
    has_failed normalize_interrupted_tasks
blocked = refl

resume_kept_example :
    get (tasks succeeded ready) "report" ≡ some (task "report" ("fetch" ∷ []) ready)
unfolding get
resume_kept_example =
    resume_kept 1 rt "exec-1" saved (write_plan halted).world
      (record begun.context { plan = some (plan_dict (plan succeeded ready)) })
      (plan succeeded ready) (plan succeeded ready) (err (blocked_error (tasks succeeded ready)))
      "report" (task "report" ("fetch" ∷ []) ready) refl refl (keyed succeeded ready) refl refl refl
      blocked
