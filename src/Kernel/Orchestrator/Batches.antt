-- ===== src/Kernel/Orchestrator/Batches.antt =====
-- The loops of the orchestrator end: the retry loop by the limit on retries, the batch loop by the
-- number of PENDING tasks (orchestrator.py).
use mathlib.Core.Path.{subst}
use niceone_obsidian.Prelude.{
  ℕ, zero, suc, ◌+◌, ◌≤◌, ◌<◌, String, Bool, true, false, ◌≡◌, refl, Option, none, some, List, [],
  ◌∷◌, arith, string_eq, Bool-cases, inl, inr, length,
}
use niceone_obsidian.Prelude.Dict.{get, IsDict}
use niceone_obsidian.Prelude.Exec.{Result, ok, err}
use niceone_obsidian.Kernel.Errors.{Exception}
use niceone_obsidian.Kernel.Contracts.{InvocationResult}
use niceone_obsidian.Kernel.World.{World, save_checkpoint}
use niceone_obsidian.Kernel.Invocation.{Runtime, Call}
use niceone_obsidian.Kernel.Runtime.{execute}
use niceone_obsidian.Kernel.Planning.{TaskNode, Tasks, is_complete, ready_tasks}
use niceone_obsidian.Kernel.Planning.Fuel.{validate_terminates}
use niceone_obsidian.Kernel.Orchestrator.{
  Session, Outcome, asks_retry, call_again, call_task, start_task, update_task, write_plan,
  task_call, finish_task, run_found, run_task, or_failed, run_batch, after_batch, with_ready,
  with_tasks, run_rounds, when_valid, execute_plan,
}
use niceone_obsidian.Kernel.Orchestrator.Within.{
  WithinRun, MarksRun, run_batch-Within, ready_tasks-Marks, count_pending,
}
use niceone_obsidian.Kernel.Orchestrator.Retries.Steady.{Clean}
use niceone_obsidian.Kernel.Orchestrator.Retries.Answers.{Yield}
use niceone_obsidian.Kernel.Orchestrator.Retries.Counted.{Reporting, execute-Yields}

module _ {A : Type 0} where
  -- The fuel is enough, and what holds of the end.
  abbrev EndsIn : (A → Type 0) → Option A → Type 0
  EndsIn P o = (a : A) × (o ≡ some a) × P a

module _ (rt : Runtime) (h : Reporting rt) where
  -- Fuel for the retries that the policy allows, and for the answer that ends the loop.
  abbrev Enough : ℕ → World → Type 0
  Enough n w = (1 ≤ n) × (rt.recovery.max_retries < n + w.context.retry_count)

  call_ends :
      (n : ℕ) (call : Call) (w : World)
      → Clean w
      → Enough n w
      → EndsIn (λ a. Clean a.1) (call_task n rt call w)
  unfolding call_task
  call_ends zero call w c e = absurd (omega (arith, e.0))
  call_ends (suc n) call w c e =
      go (execute rt call w).0 (execute rt call w).1 ((execute-Yields rt call h).at w)
        (call_ends n call)
    where
      again :
          (r : InvocationResult) (t : World)
          → Yield rt.recovery w (ok r, t)
          → ((u : World) → Clean u → Enough n u → EndsIn (λ a. Clean a.1) (call_task n rt call u))
          → EndsIn (λ a. Clean a.1) (call_again (call_task n rt call) (ok r, t))
      again r t y next = elim (Bool-cases (asks_retry r)) [
        | inl q ↦
            let (u, v) = y.asked c r refl q in
            rw q (next t (y.counts.clean c) (omega (arith, u, v, e.1), omega (arith, u, v, e.1)))
        | inr q ↦ rw q (_, refl, y.counts.clean c)
      ]

      go :
          (a : Result Exception InvocationResult) (t : World)
          → Yield rt.recovery w (a, t)
          → ((u : World) → Clean u → Enough n u → EndsIn (λ x. Clean x.1) (call_task n rt call u))
          → EndsIn (λ x. Clean x.1) (call_again (call_task n rt call) (a, t))
      go (err x) t y next = (_, refl, y.counts.clean c)
      go (ok r) t y next = again r t y next

  -- Fuel that is enough whatever was retried before.
  abbrev fuel : ℕ
  fuel = suc rt.recovery.max_retries

  abbrev EndsClean : Option (Bool × Session) → Type 0
  EndsClean = EndsIn (λ q. Clean q.1.world)

  task_ends :
      (i : String) (o : Option TaskNode) (s : Session)
      → Clean s.world
      → EndsClean (run_found fuel rt i o s)
  unfolding start_task write_plan save_checkpoint update_task finish_task
  task_ends i none s c = (_, refl, c)
  task_ends i (some t) s c =
      let u = start_task i t s in
      let (a, e, d) = call_ends fuel (task_call t u.world) u.world c (omega arith, omega arith) in
      rw e (_, refl, d)

  or_failed_ends :
      (b : Bool) (o : Option (Bool × Session)) → EndsClean o → EndsClean (or_failed b o)
  or_failed_ends true o (q, e, c) = rw e (_, refl, c)
  or_failed_ends false o (q, e, c) = rw e (_, refl, c)

  batch_ends : (is : List String) (s : Session) → Clean s.world → EndsClean (run_batch fuel rt is s)
  unfolding run_batch run_task
  batch_ends [] s c = (_, refl, c)
  batch_ends (i ∷ is) s c =
      let ((b, t), e, d) = task_ends i (get s.plan.tasks i) s c in
      rw e (or_failed_ends b (run_batch fuel rt is t) (batch_ends is t d))

  abbrev Ends : Outcome (Unit {0}) → Type 0
  Ends = EndsIn (λ _. Unit {0})

  module _ (f : Session → Outcome (Unit {0})) (m : ℕ)
      (next : (s : Session)
        → IsDict s.plan.tasks
        → Clean s.world
        → count_pending s.plan.tasks < m
        → Ends (f s)) where
    after-Ends :
        (is : List String) (b : Tasks) (o : Option (Bool × Session))
        → IsDict b
        → count_pending b < m
        → WithinRun is b o
        → EndsClean o
        → Ends (after_batch f o)
    after-Ends is b none d l w (q, e, c) = absurd (ground (arith, e))
    after-Ends is b (some (true, s)) d l w u = (_, refl, tt)
    after-Ends is b (some (false, s)) d l w (q, e, c) =
        let k : q.1 ≡ s = ground (arith, e) in
        next s (w.keys d) (subst (λ z. Clean z.world) k c) (omega (arith, l, w.fewer))

    ready-Ends :
        (s : Session)
        → IsDict s.plan.tasks
        → Clean s.world
        → count_pending s.plan.tasks < suc m
        → Ends (with_ready fuel rt f s (ready_tasks s.plan.tasks))
    ready-Ends s d c l = go (ready_tasks s.plan.tasks) (ready_tasks-Marks s.plan.tasks d)
      where
        go :
            (r : Result Exception (Tasks × List String))
            → MarksRun s.plan.tasks r
            → Ends (with_ready fuel rt f s r)
        go (err e) k = (_, refl, tt)
        go (ok (b, [])) k = (_, refl, tt)
        go (ok (b, j ∷ js)) k =
            after-Ends (j ∷ js) b _ (k.within.keys d) (omega (arith, l, k.counted))
              (run_batch-Within fuel rt (j ∷ js) (j ∷ js) (with_tasks b s) (λ i x. x))
              (batch_ends (j ∷ js) (with_tasks b s) c)

  rounds_end :
      (m : ℕ) (s : Session)
      → IsDict s.plan.tasks
      → Clean s.world
      → count_pending s.plan.tasks < m
      → Ends (run_rounds m fuel rt s)
  unfolding run_rounds
  rounds_end zero s d c l = absurd (omega (arith, l))
  rounds_end (suc m) s d c l = elim (Bool-cases (is_complete s.plan.tasks)) [
    | inl y ↦ rw y (_, refl, tt)
    | inr n ↦ rw n (ready-Ends (run_rounds m fuel rt) m (rounds_end m) s d c l)
  ]

count_le : (a : Tasks) → count_pending a ≤ length a
unfolding count_pending
count_le [] = omega arith
count_le ((i, t) ∷ a) = ground (arith, count_le a)

-- The execution of a plan ends, by a return or by an exception: with fuel for one call more than the
-- policy allows retries, if the keys of its tasks are distinct, no result stored before asks for a retry
-- and each registered capability leaves the retries counted before, stores no result that asks for one,
-- and returns a result that asks for one only if it is FAILED with a failure class.
pub execute_plan_terminates :
    (rt : Runtime) (s : Session)
    → Reporting rt
    → IsDict s.plan.tasks
    → Clean s.world
    → (r : Result Exception (Unit {0}) × Session) × (execute_plan (suc rt.recovery.max_retries) rt s
        ≡ some r)
unfolding execute_plan write_plan save_checkpoint
execute_plan_terminates rt s h d c =
    let (v, e) = validate_terminates s.plan.tasks in
    rw e (
      go v (
        rounds_end rt h (suc (length s.plan.tasks)) (write_plan s) d c
          (omega (arith, count_le s.plan.tasks))))
  where
    go :
        (v : Result Exception (List String))
        → Ends rt h
            (run_rounds (suc (length s.plan.tasks)) (suc rt.recovery.max_retries) rt (write_plan s))
        → (r : Result Exception (Unit {0}) × Session) × (when_valid (some v) s (
              run_rounds
                (suc (length s.plan.tasks))
                (suc rt.recovery.max_retries)
                rt
                (write_plan s))
            ≡ some r)
    go (err x) (r, q, u) = (_, refl)
    go (ok x) (r, q, u) = (r, q)
