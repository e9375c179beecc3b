-- ===== src/Kernel/Planning/Records.antt =====
-- The dictionaries of plans (planning.py): `to_dict` and `from_dict`.
pub mod Roundtrip
use niceone_obsidian.Prelude.{
  String, Bool, true, false, Option, none, some, List, [], ◌∷◌, str_eq, string_eq, if◌then◌else◌,
}
use niceone_obsidian.Prelude.Dict.{contains}
use niceone_obsidian.Prelude.Values.{
  Value, Items, Fields, null, text, array, dict, end, field, get_field,
}
use niceone_obsidian.Prelude.Exec.{Result, ok, err}
use niceone_obsidian.Prelude.Parse.{
  Parsed, ◌>>=◌, text_or, fields_or, optional_fields, texts_or, texts_in, text_items, optional_dict,
}
use niceone_obsidian.Kernel.Errors.{Exception, exception, key_error, value_error, other}
use niceone_obsidian.Kernel.Planning.{
  TaskStatus, TaskNode, Tasks, ExecutionPlan, add_task, validate, pending, ready, running,
  succeeded, failed, blocked, skipped,
}
use Prim.Native.String.{◌++◌}

-- The value of each member of TaskStatus, and `TaskStatus(value)`.
unfoldable pub task_status_value : TaskStatus → String
task_status_value pending = "pending"
task_status_value ready = "ready"
task_status_value running = "running"
task_status_value succeeded = "succeeded"
task_status_value failed = "failed"
task_status_value blocked = "blocked"
task_status_value skipped = "skipped"

unfoldable pub parse_task_status : String → Result Exception TaskStatus
parse_task_status s =
    if str_eq s "pending"
    then ok pending
    else if str_eq s "ready"
    then ok ready
    else if str_eq s "running"
    then ok running
    else if str_eq s "succeeded"
    then ok succeeded
    else if str_eq s "failed"
    then ok failed
    else if str_eq s "blocked"
    then ok blocked
    else if str_eq s "skipped"
    then ok skipped
    else err (exception value_error ("'" ++ (s ++ "' is not a valid TaskStatus")))

-- TaskNode.to_dict
unfoldable pub task_dict : TaskNode → Fields
unfolding task_status_value text_items
task_dict t = field "task_id" (text t.task_id) (
    field "capability_id" (text t.capability_id) (
      field "capability_version" (text t.capability_version) (
        field "input_data" (dict t.input_data) (
          field "dependencies" (array (text_items t.dependencies)) (
            field "status" (text (task_status_value t.status)) (
              field "output" t.output (
                field "error" (optional_dict t.error)
                  (field "metadata" (dict t.metadata) end))))))))

abbrev pub required : String → Option (Result Exception String)
required k = some (err (exception key_error k))

abbrev pub value_or_null : Option Value → Value
value_or_null none = null
value_or_null (some v) = v

-- TaskNode.from_dict
unfoldable pub task_from : Fields → Parsed Exception TaskNode
unfolding get_field texts_in parse_task_status
task_from d = do
  i ← text_or (required "task_id") (get_field d "task_id")
  capability ← text_or (required "capability_id") (get_field d "capability_id")
  version ← text_or (required "capability_version") (get_field d "capability_version")
  input ← fields_or end (get_field d "input_data")
  dependencies ← texts_or (get_field d "dependencies")
  name ← text_or (some (ok "pending")) (get_field d "status")
  status ← some (parse_task_status name)
  error ← optional_fields (get_field d "error")
  metadata ← fields_or end (get_field d "metadata")
  some (
      ok (record {
        task_id = i;
        capability_id = capability;
        capability_version = version;
        input_data = input;
        dependencies = dependencies;
        status = status;
        output = value_or_null (get_field d "output");
        error = error;
        metadata = metadata;
      }))

unfoldable pub tasks_dict : Tasks → Fields
unfolding task_dict
tasks_dict [] = end
tasks_dict ((i, t) ∷ rest) = field i (dict (task_dict t)) (tasks_dict rest)

-- ExecutionPlan.to_dict
unfoldable pub plan_dict : ExecutionPlan → Fields
unfolding tasks_dict
plan_dict p = field "plan_id" (text p.plan_id) (
    field "version" (text p.version) (
      field "objective" (text p.objective)
        (field "tasks" (dict (tasks_dict p.tasks)) (field "metadata" (dict p.metadata) end))))

abbrev pub dict_of : Value → Parsed Exception Fields
dict_of (dict d) = some (ok d)
dict_of v = none

abbrev pub check_key : String → TaskNode → Result Exception TaskNode
check_key i t =
    if str_eq t.task_id i
    then ok t
    else err (exception (other "PlanError") "Checkpoint task key does not match task_id")

-- The loop over the tasks of `from_dict`.
unfoldable pub add_tasks : Fields → ExecutionPlan → Parsed Exception ExecutionPlan
unfolding task_from add_task
add_tasks end plan = some (ok plan)
add_tasks (field i v rest) plan = do
  d ← dict_of v
  t ← task_from d
  checked ← some (check_key i t)
  more ← some (add_task checked plan)
  add_tasks rest more

-- ExecutionPlan.from_dict, up to `plan.validate()`. A missing `plan_id` is drawn at random: no shape
-- that `to_dict` writes.
unfoldable pub plan_from : Fields → Parsed Exception ExecutionPlan
unfolding add_tasks get_field
plan_from d = do
  i ← text_or none (get_field d "plan_id")
  version ← text_or (some (ok "1.0.0")) (get_field d "version")
  objective ← text_or (some (ok "")) (get_field d "objective")
  metadata ← fields_or end (get_field d "metadata")
  tasks ← fields_or end (get_field d "tasks")
  add_tasks tasks (record {
    plan_id = i;
    version = version;
    objective = objective;
    tasks = [];
    metadata = metadata;
  })

abbrev pub validated :
    ExecutionPlan → Option (Result Exception (List String)) → Parsed Exception ExecutionPlan
validated p none = none
validated p (some (err e)) = some (err e)
validated p (some (ok _)) = some (ok p)

-- ExecutionPlan.from_dict
unfoldable pub restore_plan : Fields → Parsed Exception ExecutionPlan
unfolding plan_from validate
restore_plan d = plan_from d >>= λ p. validated p (validate p.tasks)
