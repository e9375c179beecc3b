-- ===== src/Kernel/Planning/Records/Roundtrip.antt =====
-- Writing a plan and reading it back (planning.py).
use mathlib.Core.Path.{subst}
use niceone_obsidian.Prelude.{
  String, ◌≡◌, refl, sym, ◌∙◌, ap, false, Option, none, some, List, [], ◌∷◌, ◌++◌, str_eq_iff,
  str_eq_refl, string_eq, All, arith, append_assoc, append-nil,
}
use niceone_obsidian.Prelude.Dict.{get, contains, IsDict, set_new, contains-append, get-All}
use niceone_obsidian.Prelude.Values.{Fields, get_field}
use niceone_obsidian.Prelude.Exec.{ok}
use niceone_obsidian.Prelude.Parse.{texts_in, text_items, optional_fields, optional_dict}
use niceone_obsidian.Kernel.Planning.{
  TaskStatus, TaskNode, Tasks, ExecutionPlan, add_task, validate, pending,
}
use niceone_obsidian.Kernel.Planning.Records.{
  task_status_value, parse_task_status, task_dict, task_from, tasks_dict, plan_dict, add_tasks,
  plan_from, restore_plan, validated,
}

parse-task_status_value : (s : TaskStatus) → parse_task_status (task_status_value s) ≡ ok s
unfolding parse_task_status task_status_value
parse-task_status_value pending = refl
parse-task_status_value _ = refl

pub texts_in-text_items :
    {E : Type 0} (ss : List String) → texts_in {E = E} (text_items ss) ≡ some (ok ss)
unfolding texts_in text_items
texts_in-text_items [] = refl
texts_in-text_items {E} (s ∷ ss) = rw (texts_in-text_items {E = E} ss) refl

optional_fields-optional_dict :
    {E : Type 0} (o : Option Fields)
    → optional_fields {E = E} (some (optional_dict o)) ≡ some (ok o)
optional_fields-optional_dict none = refl
optional_fields-optional_dict (some d) = refl

task_from-task_dict : (t : TaskNode) → task_from (task_dict t) ≡ some (ok t)
unfolding task_from task_dict get_field
task_from-task_dict t =
    simp (texts_in-text_items, parse-task_status_value, optional_fields-optional_dict)

-- Each key is new, and the identifier of its task.
abbrev Addable : Tasks → Tasks → Type 0
Addable before [] = Unit
Addable before ((i, t) ∷ rest) =
    (t.task_id ≡ i) × (contains before i ≡ false) × Addable (before ++ (i, t) ∷ []) rest

add_next :
    (t : TaskNode) (rest : Tasks) (plan : ExecutionPlan)
    → contains plan.tasks t.task_id ≡ false
    → add_tasks (tasks_dict ((t.task_id, t) ∷ rest)) plan
      ≡ add_tasks (tasks_dict rest) (record plan { tasks = plan.tasks ++ (t.task_id, t) ∷ [] })
unfolding add_tasks tasks_dict add_task get_field
add_next t rest plan n =
    simp
      (texts_in-text_items, parse-task_status_value, optional_fields-optional_dict, str_eq_refl, n)
      (ap (λ ts. add_tasks (tasks_dict rest) (record plan { tasks = ts }))
        (set_new plan.tasks t.task_id t n))

add_none :
    (plan : ExecutionPlan)
    → add_tasks (tasks_dict []) plan ≡ some (ok (record plan { tasks = plan.tasks ++ [] }))
unfolding add_tasks tasks_dict
add_none plan = rw (append-nil plan.tasks) refl

add_tasks-tasks_dict :
    (rest : Tasks) (plan : ExecutionPlan)
    → Addable plan.tasks rest
    → add_tasks (tasks_dict rest) plan ≡ some (ok (record plan { tasks = plan.tasks ++ rest }))
add_tasks-tasks_dict [] plan a = add_none plan
add_tasks-tasks_dict ((i, t) ∷ rest) plan (e, n, a) =
    ap (λ j. add_tasks (tasks_dict ((j, t) ∷ rest)) plan) (sym e)
    ∙ add_next t rest plan (rw e n)
    ∙ add_tasks-tasks_dict rest (record plan { tasks = plan.tasks ++ (t.task_id, t) ∷ [] })
        (subst (λ j. Addable (plan.tasks ++ (j, t) ∷ []) rest) (sym e) a)
    ∙ ap (λ ts. some (ok (record plan { tasks = ts })))
        (append_assoc plan.tasks ((t.task_id, t) ∷ []) rest
          ∙ ap (λ j. plan.tasks ++ (j, t) ∷ rest) e)

-- The keys of the tasks are distinct, and the identifiers of the tasks.
pub record IsKeyed (tasks : Tasks) : Type 0 where
  pub keys : IsDict tasks
  pub named : All (λ (p : String × TaskNode). p.1.task_id ≡ p.0) tasks

-- What is in neither of two dictionaries is not in the one after the other.
absent :
    (before rest sub : Tasks) (i : String) (t : TaskNode)
    → contains rest i ≡ false
    → All (λ (p : String × TaskNode). get rest p.0 ≡ some p.1) sub
    → All (λ (p : String × TaskNode). contains before p.0 ≡ false) sub
    → All (λ (p : String × TaskNode). contains (before ++ (i, t) ∷ []) p.0 ≡ false) sub
unfolding contains get
absent before rest [] i t c g a = tt
absent before rest ((j, u) ∷ sub) i t c (h, g) (f, a) = (
  ground (arith, contains-append before ((i, t) ∷ []) j, f, h, c, str_eq_iff i j),
  absent before rest sub i t c g a,
)

addable :
    (before rest : Tasks)
    → IsDict rest
    → All (λ (p : String × TaskNode). p.1.task_id ≡ p.0) rest
    → All (λ (p : String × TaskNode). contains before p.0 ≡ false) rest
    → Addable before rest
addable before [] d n a = tt
addable before ((i, t) ∷ rest) (c, d) (e, n) (f, a) = (
  e,
  f,
  addable (before ++ (i, t) ∷ []) rest d n (absent before rest rest i t c (get-All rest d) a),
)

nothing_there :
    (rest : Tasks) → All (λ (p : String × TaskNode). contains {V = TaskNode} [] p.0 ≡ false) rest
unfolding contains get
nothing_there [] = tt
nothing_there (p ∷ rest) = (refl, nothing_there rest)

-- A plan that is written with its tasks keyed by their identifiers is read back as it was, if its
-- validation accepts it; else reading raises what the validation raises.
pub restore-plan_dict :
    (p : ExecutionPlan)
    → IsKeyed p.tasks
    → restore_plan (plan_dict p) ≡ validated p (validate p.tasks)
unfolding restore_plan plan_from plan_dict get_field
restore-plan_dict p k = simp (
    add_tasks-tasks_dict p.tasks
      (record {
        plan_id = p.plan_id;
        version = p.version;
        objective = p.objective;
        tasks = [];
        metadata = p.metadata;
      })
      (addable [] p.tasks k.keys k.named (nothing_there p.tasks)))
