-- ===== src/Kernel/Orchestrator/Kept.antt =====
-- Which tasks an execution and a resumption leave as they were (orchestrator.py).
use mathlib.Core.Path.{subst}
use niceone_obsidian.Prelude.{
  ℕ, zero, suc, String, Bool, true, false, ◌≡◌, refl, ◌∙◌, Option, none, some, List, [], ◌∷◌, arith,
  string_eq, Bool-cases, inl, inr, length,
}
use niceone_obsidian.Prelude.Dict.{get, contains, IsDict}
use niceone_obsidian.Prelude.Exec.{Result, ok, err}
use niceone_obsidian.Kernel.Errors.{Exception}
use niceone_obsidian.Kernel.State.{ExecutionContext}
use niceone_obsidian.Kernel.World.{World, load_checkpoint}
use niceone_obsidian.Kernel.Invocation.{Runtime}
use niceone_obsidian.Kernel.Planning.{
  TaskNode, Tasks, ExecutionPlan, is_pending, is_running, is_member, ready_tasks, is_complete,
  validate,
}
use niceone_obsidian.Kernel.Planning.Records.{plan_dict, validated}
use niceone_obsidian.Kernel.Planning.Records.Roundtrip.{IsKeyed, restore-plan_dict}
use niceone_obsidian.Kernel.Orchestrator.{
  Session, Outcome, with_tasks, write_plan, after_batch, with_ready, when_valid, run_rounds,
  execute_plan, normalize_interrupted_tasks, resume, resume_plan, resumed,
}
use niceone_obsidian.Kernel.Orchestrator.Within.{
  IfEnds, WithinRun, Marks, MarksRun, run_batch-Within, ready_tasks-Marks,
}

module _ {A : Type 0} where
  IfEnds-some : (P : A → Type 0) (o : Option A) (a : A) → IfEnds P o → o ≡ some a → P a
  IfEnds-some P o a h e = subst (IfEnds P) e h

module _ (i : String) (t : TaskNode) (h : is_pending t.status ≡ false) where
  -- The tasks have an entry for the key, with that task.
  abbrev Holds : Tasks → Type 0
  Holds a = IsDict a × (get a i ≡ some t)

  abbrev HoldsAfter : Outcome (Unit {0}) → Type 0
  HoldsAfter = IfEnds (λ q. get q.1.plan.tasks i ≡ some t)

  Marks-hold :
      (a b : Tasks) (is : List String) → Marks a b is → Holds a → (is_member i is ≡ false) × Holds b
  Marks-hold a b is m (d, g) =
      let out : is_member i is ≡ false = ground (arith, m.waiting i t g) in
      (out, (m.within.keys d, m.within.same i out ∙ g))

  module _ (n : ℕ) (rt : Runtime) (f : Session → Outcome (Unit {0}))
      (next : (s : Session) → Holds s.plan.tasks → HoldsAfter (f s)) where
    batch-Holds :
        (is : List String) (a : Tasks) (o : Option (Bool × Session))
        → is_member i is ≡ false
        → WithinRun is a o
        → Holds a
        → HoldsAfter (after_batch f o)
    batch-Holds is a none out u g = tt
    batch-Holds is a (some (true, s)) out u (d, g) = u.same i out ∙ g
    batch-Holds is a (some (false, s)) out u (d, g) = next s (u.keys d, u.same i out ∙ g)

    ready-Holds :
        (s : Session)
        → Holds s.plan.tasks
        → HoldsAfter (with_ready n rt f s (ready_tasks s.plan.tasks))
    ready-Holds s (d, g) = go (ready_tasks s.plan.tasks) (ready_tasks-Marks s.plan.tasks d)
      where
        go :
            (r : Result Exception (Tasks × List String))
            → MarksRun s.plan.tasks r
            → HoldsAfter (with_ready n rt f s r)
        go (err e) m = g
        go (ok (b, [])) m = (Marks-hold s.plan.tasks b [] m (d, g)).1.1
        go (ok (b, j ∷ js)) m =
            let (out, u) = Marks-hold s.plan.tasks b (j ∷ js) m (d, g) in
            batch-Holds (j ∷ js) b _ out
              (run_batch-Within n rt (j ∷ js) (j ∷ js) (with_tasks b s) (λ k x. x)) u

  rounds_hold :
      (m n : ℕ) (rt : Runtime) (s : Session) → Holds s.plan.tasks → HoldsAfter (run_rounds m n rt s)
  unfolding run_rounds
  rounds_hold zero n rt s u = tt
  rounds_hold (suc m) n rt s u = elim (Bool-cases (is_complete s.plan.tasks)) [
    | inl y ↦ rw y (u.1)
    | inr o ↦ rw o (ready-Holds n rt (run_rounds m n rt) (rounds_hold m n rt) s u)
  ]

  valid_holds :
      (o : Option (Result Exception (List String))) (s : Session) (r : Outcome (Unit {0}))
      → get s.plan.tasks i ≡ some t
      → HoldsAfter r
      → HoldsAfter (when_valid o s r)
  valid_holds none s r g u = tt
  valid_holds (some (err e)) s r g u = g
  valid_holds (some (ok _)) s r g u = u

  execute-Holds :
      (n : ℕ) (rt : Runtime) (s : Session) → Holds s.plan.tasks → HoldsAfter (execute_plan n rt s)
  unfolding execute_plan write_plan
  execute-Holds n rt s (d, g) =
      valid_holds (validate s.plan.tasks) s _ g
        (rounds_hold (suc (length s.plan.tasks)) n rt (write_plan s) (d, g))

-- An execution that ends, whether it returns or raises, of a plan with distinct task keys leaves a task
-- that was not PENDING at its start exactly as it was: status, output and error.
pub execute_plan_kept :
    (n : ℕ) (rt : Runtime) (s s' : Session) (r : Result Exception (Unit {0})) (i : String)
    (t : TaskNode)
    → IsDict s.plan.tasks
    → get s.plan.tasks i ≡ some t
    → is_pending t.status ≡ false
    → execute_plan n rt s ≡ some (r, s')
    → get s'.plan.tasks i ≡ some t
execute_plan_kept n rt s s' r i t d g h e =
    IfEnds-some (λ q. get q.1.plan.tasks i ≡ some t) (execute_plan n rt s) (r, s')
      (execute-Holds i t h n rt s (d, g)) e

get_normalized :
    (a : Tasks) (i : String) (t : TaskNode)
    → get a i ≡ some t
    → is_running t.status ≡ false
    → get (normalize_interrupted_tasks a) i ≡ some t
unfolding get normalize_interrupted_tasks
get_normalized [] i t g n = ground arith
get_normalized ((j, u) ∷ a) i t g n = ground (arith, get_normalized a i t)

contains_normalized :
    (a : Tasks) (i : String) → contains (normalize_interrupted_tasks a) i ≡ contains a i
unfolding contains get normalize_interrupted_tasks
contains_normalized [] i = refl
contains_normalized ((j, u) ∷ a) i = ground (arith, contains_normalized a i)

pub normalized-IsDict : (a : Tasks) → IsDict a → IsDict (normalize_interrupted_tasks a)
unfolding normalize_interrupted_tasks
normalized-IsDict [] d = tt
normalized-IsDict ((j, u) ∷ a) (n, d) = (contains_normalized a j ∙ n, normalized-IsDict a d)

module _ (n : ℕ) (rt : Runtime) (p p' : ExecutionPlan) (w' : World)
    (r : Result Exception (Unit {0})) (i : String) (t : TaskNode) (k : IsKeyed p.tasks)
    (g : get p.tasks i ≡ some t) (h : is_pending t.status ≡ false)
    (m : is_running t.status ≡ false) where
  resumed_kept :
      (o : Outcome (Unit {0}))
      → HoldsAfter i t h o
      → resumed o ≡ some (r, w', some p')
      → get p'.tasks i ≡ some t
  resumed_kept none u e = absurd (ground (arith, e))
  resumed_kept (some (q, s)) u e =
      let x : s.plan ≡ p' = ground (arith, e) in subst (λ z. get z.tasks i ≡ some t) x u

  resume_plan_kept :
      (w : World) (o : Option (Result Exception (List String)))
      → resume_plan n rt w (validated p o) ≡ some (r, w', some p')
      → get p'.tasks i ≡ some t
  resume_plan_kept w none e = absurd (ground (arith, e))
  resume_plan_kept w (some (err x)) e = absurd (ground (arith, e))
  resume_plan_kept w (some (ok x)) e =
      resumed_kept _
        (execute-Holds i t h n rt
          (record { plan = record p { tasks = normalize_interrupted_tasks p.tasks }; world = w })
          (normalized-IsDict p.tasks k.keys, get_normalized p.tasks i t g m))
        e

-- A resumption that ends, from a checkpoint that holds a plan written with its tasks keyed by their
-- identifiers, leaves each task as the checkpoint has it that is neither PENDING nor RUNNING there.
pub resume_kept :
    (n : ℕ) (rt : Runtime) (x : String) (w w' : World) (c : ExecutionContext) (p p' : ExecutionPlan)
    (r : Result Exception (Unit {0})) (i : String) (t : TaskNode)
    → get w.checkpoints x ≡ some c
    → c.plan ≡ some (plan_dict p)
    → IsKeyed p.tasks
    → get p.tasks i ≡ some t
    → is_pending t.status ≡ false
    → is_running t.status ≡ false
    → resume n rt x w ≡ some (r, w', some p')
    → get p'.tasks i ≡ some t
unfolding resume load_checkpoint
resume_kept n rt x w w' c p p' r i t l q k g h m e =
    resume_plan_kept n rt p p' w' r i t k g h m (record w { context = c }) (validate p.tasks)
      (at_checkpoint ∙ e)
  where
    at_checkpoint :
        resume_plan n rt (record w { context = c }) (validated p (validate p.tasks))
        ≡ resume n rt x w
    at_checkpoint = rw (l, q, restore-plan_dict p k) refl
