-- ===== src/Kernel/Planning.antt =====
-- ois/kernel/planning.py and ois/kernel/planner.py: plans of tasks with dependencies. The depth-first
-- search of `_validate_cycles` takes fuel for its recursion; `none` means that the fuel ran out.
pub mod Records
pub mod Fuel
pub mod Order
pub mod Cycles
pub mod Progress
use niceone_obsidian.Prelude.{
  ℕ, zero, suc, String, Bool, true, false, not, ◌&&◌, ◌||◌, Option, none, some, List, [], ◌∷◌, ◌++◌,
  str_eq, string_eq, any, all, length, if◌then◌else◌,
}
use niceone_obsidian.Prelude.Dict.{Dict, get, set, contains}
use niceone_obsidian.Prelude.Values.{Value, Fields, end, null}
use niceone_obsidian.Prelude.Exec.{Result, ok, err}
use niceone_obsidian.Kernel.Errors.{
  Exception, exception, duplicate_task, unknown_dependency, cyclic_plan, key_error,
}
use Prim.Native.String.{◌++◌ as text_append}

pub data TaskStatus : Type 0 where
  pending ready running succeeded failed blocked skipped : TaskStatus

pub record TaskNode : Type 0 where
  pub task_id : String
  pub capability_id : String
  pub capability_version : String
  pub input_data : Fields
  pub dependencies : List String
  pub status : TaskStatus
  pub output : Value
  pub error : Option Fields
  pub metadata : Fields

abbrev pub Tasks : Type 0
Tasks = Dict String TaskNode

pub record ExecutionPlan : Type 0 where
  pub plan_id : String
  pub version : String
  pub objective : String
  pub tasks : Tasks
  pub metadata : Fields

-- ExecutionPlan.add_task
unfoldable pub add_task : TaskNode → ExecutionPlan → Result Exception ExecutionPlan
unfolding contains set
add_task t plan =
    if contains plan.tasks t.task_id
    then err (exception duplicate_task (text_append "Task already exists: " t.task_id))
    else ok (record plan { tasks = set plan.tasks t.task_id t })

-- The loop over the dependencies of one task, and the one over the tasks.
unfoldable pub check_known : Tasks → TaskNode → List String → Result Exception (Unit {0})
unfolding contains
check_known tasks t [] = ok tt
check_known tasks t (d ∷ ds) =
    let rest = check_known tasks t ds in
    if contains tasks d
    then rest
    else err (
        exception unknown_dependency
          (text_append "Task " (text_append t.task_id (text_append " depends on unknown task " d))))

abbrev pub then_check :
    Result Exception (Unit {0}) → Result Exception (Unit {0}) → Result Exception (Unit {0})
then_check (ok _) r = r
then_check (err e) r = err e

unfoldable pub check_dependencies : Tasks → Tasks → Result Exception (Unit {0})
unfolding check_known
check_dependencies tasks [] = ok tt
check_dependencies tasks ((i, t) ∷ rest) =
    then_check (check_known tasks t t.dependencies) (check_dependencies tasks rest)

-- ExecutionPlan._validate_dependencies
unfoldable pub validate_dependencies : Tasks → Result Exception (Unit {0})
unfolding check_dependencies
validate_dependencies tasks = check_dependencies tasks tasks

abbrev pub is_member : String → List String → Bool
is_member s xs = any (str_eq s) xs

-- What a search comes to: the set `visited` after it, as a list with the latest first.
abbrev pub Search : Type 0
Search = Option (Result Exception (List String))

abbrev pub and_then : Search → (List String → Search) → Search
and_then none f = none
and_then (some (err e)) f = some (err e)
and_then (some (ok visited)) f = f visited

-- A loop over identifiers that calls `visit` on each.
unfoldable pub each : (List String → String → Search) → List String → List String → Search
each f [] visited = some (ok visited)
each f (d ∷ ds) visited = and_then (f visited d) (each f ds)

abbrev pub add_visited : String → List String → Search
add_visited i visited = some (ok (i ∷ visited))

-- The rest of `visit` at a task that is neither on the path nor visited.
abbrev pub expand :
    (List String → String → Search) → String → Option TaskNode → List String → Search
expand f i none visited = some (err (exception key_error i))
expand f i (some t) visited = and_then (each f t.dependencies visited) (add_visited i)

-- `visit`; `visiting` is the path to the task.
unfoldable pub visit : ℕ → Tasks → List String → List String → String → Search
unfolding each get
visit zero tasks visiting visited i = none
visit (suc n) tasks visiting visited i =
    if is_member i visiting
    then some (err (exception cyclic_plan (text_append "Dependency cycle detected at " i)))
    else if is_member i visited
    then some (ok visited)
    else expand (visit n tasks (i ∷ visiting)) i (get tasks i) visited

abbrev pub task_ids : Tasks → List String
task_ids [] = []
task_ids ((i, t) ∷ rest) = i ∷ task_ids rest

-- ExecutionPlan._validate_cycles, with the tasks in the order in which their visits ended
unfoldable pub validate_cycles : Tasks → Search
unfolding visit
validate_cycles tasks = each (visit (suc (length tasks)) tasks []) (task_ids tasks) []

abbrev pub after_dependencies : Result Exception (Unit {0}) → Search → Search
after_dependencies (ok _) s = s
after_dependencies (err e) s = some (err e)

-- ExecutionPlan.validate
unfoldable pub validate : Tasks → Search
unfolding validate_dependencies validate_cycles
validate tasks = after_dependencies (validate_dependencies tasks) (validate_cycles tasks)

abbrev pub is_pending : TaskStatus → Bool
is_pending pending = true
is_pending _ = false

abbrev pub is_running : TaskStatus → Bool
is_running running = true
is_running _ = false

abbrev pub is_succeeded : TaskStatus → Bool
is_succeeded succeeded = true
is_succeeded _ = false

abbrev pub is_failed : TaskStatus → Bool
is_failed failed = true
is_failed _ = false

abbrev pub is_finished : TaskStatus → Bool
is_finished succeeded = true
is_finished skipped = true
is_finished _ = false

-- `self.tasks[dependency].status == TaskStatus.SUCCEEDED`, for each dependency up to the first that
-- has not succeeded.
abbrev pub has_succeeded : String → Option TaskNode → Result Exception Bool
has_succeeded d none = err (exception key_error d)
has_succeeded d (some t) = ok (is_succeeded t.status)

abbrev pub and_also : Result Exception Bool → Result Exception Bool → Result Exception Bool
and_also (err e) r = err e
and_also (ok false) r = ok false
and_also (ok true) r = r

unfoldable pub all_succeeded : Tasks → List String → Result Exception Bool
unfolding get
all_succeeded tasks [] = ok true
all_succeeded tasks (d ∷ ds) = and_also (has_succeeded d (get tasks d)) (all_succeeded tasks ds)

abbrev pub with_status : TaskStatus → TaskNode → TaskNode
with_status s t = record t { status = s }

-- One round of the loop of `ready_tasks`: the tasks after it and, if it is ready, the task.
abbrev pub mark_if :
    Result Exception Bool → String → TaskNode → Tasks → Result Exception (Tasks × List String)
mark_if (err e) i t tasks = err e
mark_if (ok false) i t tasks = ok (tasks, [])
mark_if (ok true) i t tasks = ok (set tasks i (with_status ready t), i ∷ [])

unfoldable pub mark_ready : String → TaskNode → Tasks → Result Exception (Tasks × List String)
unfolding all_succeeded set
mark_ready i t tasks =
    if is_pending t.status
    then mark_if (all_succeeded tasks t.dependencies) i t tasks
    else ok (tasks, [])

abbrev pub add_ready :
    List String → Result Exception (Tasks × List String) → Result Exception (Tasks × List String)
add_ready more (err e) = err e
add_ready more (ok (tasks, is)) = ok (tasks, more ++ is)

abbrev pub and_mark :
    Result Exception (Tasks × List String)
    → (Tasks → Result Exception (Tasks × List String))
    → Result Exception (Tasks × List String)
and_mark (err e) f = err e
and_mark (ok (tasks, is)) f = add_ready is (f tasks)

unfoldable pub ready_from : Tasks → Tasks → Result Exception (Tasks × List String)
unfolding mark_ready
ready_from [] tasks = ok (tasks, [])
ready_from ((i, t) ∷ rest) tasks = and_mark (mark_ready i t tasks) (ready_from rest)

-- ExecutionPlan.ready_tasks: the tasks after it, and the identifiers of the ready ones in order. A
-- round changes no other task's status, so each round meets its task as it was before the loop.
unfoldable pub ready_tasks : Tasks → Result Exception (Tasks × List String)
unfolding ready_from
ready_tasks tasks = ready_from tasks tasks

unfoldable pub is_complete : Tasks → Bool
is_complete tasks = all (λ (p : String × TaskNode). is_finished p.1.status) tasks

unfoldable pub has_failed : Tasks → Bool
has_failed tasks = any (λ (p : String × TaskNode). is_failed p.1.status) tasks

-- PlanBuilder: `task` and `build`
unfoldable pub build_task :
    String
    → String
    → String
    → Fields
    → List String
    → Fields
    → ExecutionPlan
    → Result Exception ExecutionPlan
unfolding add_task
build_task i capability version input dependencies metadata plan =
    add_task
      (record {
        task_id = i;
        capability_id = capability;
        capability_version = version;
        input_data = input;
        dependencies = dependencies;
        status = pending;
        output = null;
        error = none;
        metadata = metadata;
      })
      plan

abbrev pub built : ExecutionPlan → Search → Option (Result Exception ExecutionPlan)
built plan none = none
built plan (some (ok _)) = some (ok plan)
built plan (some (err e)) = some (err e)

unfoldable pub build : ExecutionPlan → Option (Result Exception ExecutionPlan)
unfolding validate
build plan = built plan (validate plan.tasks)
