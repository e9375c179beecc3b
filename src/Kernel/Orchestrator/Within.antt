-- ===== src/Kernel/Orchestrator/Within.antt =====
-- Which tasks a run of a plan changes (orchestrator.py, with `ready_tasks` of planning.py).
use niceone_obsidian.Prelude.{
  ℕ, suc, ◌+◌, ◌≤◌, String, Bool, true, false, ◌≡◌, refl, Option, none, some, List, [], ◌∷◌, arith,
  str_eq_iff, str_eq_refl, string_eq, length, All, Option-cases, Bool-cases, inl, inr,
  if◌then◌else◌,
}
use niceone_obsidian.Prelude.Dict.{get, set, contains, get-set, IsDict, IsDict-set, get-All}
use niceone_obsidian.Kernel.Contracts.{InvocationResult}
use niceone_obsidian.Kernel.Types.{is_succeeded}
use niceone_obsidian.Prelude.Exec.{Result, ok, err}
use niceone_obsidian.Kernel.Errors.{Exception}
use niceone_obsidian.Kernel.Invocation.{Runtime}
use niceone_obsidian.Kernel.Planning.{
  TaskNode, Tasks, is_pending, is_member, with_status, ready, running, mark_ready, ready_from,
  ready_tasks, and_mark, mark_if, add_ready, all_succeeded,
}
use niceone_obsidian.Kernel.Orchestrator.{
  Session, Answer, outcome_of, finish, or_failed, and_rest, run_found, update_task, write_plan,
  start_task, finish_task, run_task, run_batch,
}

unfoldable pub count_pending : Tasks → ℕ
count_pending [] = 0
count_pending ((i, t) ∷ rest) =
    let more = count_pending rest in if is_pending t.status then suc more else more

-- What a change of the tasks `ids` respects.
pub record Within (ids : List String) (a b : Tasks) : Type 0 where
  pub keys : IsDict a → IsDict b
  pub fewer : count_pending b ≤ count_pending a
  pub same : (j : String) → is_member j ids ≡ false → get b j ≡ get a j

pub Within-refl : (ids : List String) (a : Tasks) → Within ids a a
Within-refl ids a = record { keys = λ h. h; fewer = omega arith; same = λ j h. refl }

pub Within-trans :
    (ids : List String) (a b c : Tasks) → Within ids a b → Within ids b c → Within ids a c
Within-trans ids a b c u v = record {
  keys = λ h. v.keys (u.keys h);
  fewer = omega (arith, u.fewer, v.fewer);
  same = λ j h. ground (arith, u.same j h, v.same j h);
}

pub Within-more :
    (is ids : List String) (a b : Tasks)
    → ((j : String) → is_member j is ≡ true → is_member j ids ≡ true)
    → Within is a b
    → Within ids a b
Within-more is ids a b h u = record {
  keys = u.keys;
  fewer = u.fewer;
  same = λ j m. ground (arith, u.same j, h j);
}

-- A task that gets a status other than PENDING.
count_set :
    (a : Tasks) (i : String) (t u : TaskNode)
    → get a i ≡ some t
    → is_pending u.status ≡ false
    → count_pending (set a i u) + (if is_pending t.status then 1 else 0) ≡ count_pending a
unfolding count_pending get set
count_set [] i t u h n = ground arith
count_set ((j, w) ∷ a) i t u h n = ground (arith, count_set a i t u)

set-Within :
    (ids : List String) (a : Tasks) (i : String) (t u : TaskNode)
    → get a i ≡ some t
    → is_pending u.status ≡ false
    → is_member i ids ≡ true
    → Within ids a (set a i u)
set-Within ids a i t u h n m = record {
  keys = IsDict-set a i u;
  fewer = ground (arith, count_set a i t u h n);
  same = λ j o. ground (arith, get-set a i j u, str_eq_iff i j);
}

pub update_task-Within :
    (ids : List String) (i : String) (f : TaskNode → TaskNode) (s : Session)
    → ((t : TaskNode) → is_pending (f t).status ≡ false)
    → is_member i ids ≡ true
    → Within ids s.plan.tasks (update_task i f s).plan.tasks
unfolding update_task
update_task-Within ids i f s n m = elim (Option-cases (get s.plan.tasks i)) [
  | inl e ↦ rw e (Within-refl ids s.plan.tasks)
  | inr (t, e) ↦ rw e (set-Within ids s.plan.tasks i t (f t) e (n t) m)
]

pub write_plan-plan : (s : Session) → (write_plan s).plan ≡ s.plan
unfolding write_plan
write_plan-plan s = refl

start_task-Within :
    (ids : List String) (i : String) (t : TaskNode) (s : Session)
    → is_member i ids ≡ true
    → Within ids s.plan.tasks (start_task i t s).plan.tasks
unfolding start_task write_plan
start_task-Within ids i t s m = update_task-Within ids i (with_status running) s (λ u. refl) m

outcome_not_pending :
    (r : Result Exception InvocationResult) (t : TaskNode)
    → is_pending ((outcome_of r).0 t).status ≡ false
outcome_not_pending (ok r) t = elim (Bool-cases (is_succeeded r.status)) [
  | inl y ↦ rw y refl
  | inr n ↦ rw n refl
]
outcome_not_pending (err e) t = refl

finish_task-Within :
    (ids : List String) (i : String) (s : Session) (a : Answer)
    → is_member i ids ≡ true
    → Within ids s.plan.tasks (finish_task i s a).1.plan.tasks
unfolding finish_task write_plan
finish_task-Within ids i s (r, w) m =
    update_task-Within ids i (outcome_of r).0 (record s { world = w }) (outcome_not_pending r) m

-- What holds of a run, if its fuel is enough.
module _ {A : Type 0} where
  abbrev pub IfEnds : (A → Type 0) → Option A → Type 0
  IfEnds P none = Unit
  IfEnds P (some a) = P a

-- The tasks after a run, seen from those before.
abbrev pub WithinRun : List String → Tasks → Option (Bool × Session) → Type 0
WithinRun ids a = IfEnds (λ q. Within ids a q.1.plan.tasks)

module _ (n : ℕ) (rt : Runtime) (ids : List String) where
  finish-Within :
      (i : String) (t : TaskNode) (s : Session) (o : Option Answer)
      → is_member i ids ≡ true
      → WithinRun ids s.plan.tasks (finish i (start_task i t s) o)
  finish-Within i t s none m = tt
  finish-Within i t s (some a) m =
      Within-trans ids _ _ _ (start_task-Within ids i t s m)
        (finish_task-Within ids i (start_task i t s) a m)

  run_found-Within :
      (i : String) (o : Option TaskNode) (s : Session)
      → is_member i ids ≡ true
      → WithinRun ids s.plan.tasks (run_found n rt i o s)
  run_found-Within i none s m = Within-refl ids s.plan.tasks
  run_found-Within i (some t) s m = finish-Within i t s _ m

  or_failed-Within :
      (a : Tasks) (b : Bool) (o : Option (Bool × Session))
      → WithinRun ids a o
      → WithinRun ids a (or_failed b o)
  or_failed-Within a b none u = tt
  or_failed-Within a true (some q) u = u
  or_failed-Within a false (some q) u = u

  and_rest-Within :
      (a : Tasks) (o : Option (Bool × Session)) (f : Session → Option (Bool × Session))
      → WithinRun ids a o
      → ((s : Session) → WithinRun ids s.plan.tasks (f s))
      → WithinRun ids a (and_rest o f)
  and_rest-Within a none f u v = tt
  and_rest-Within a (some (b, s)) f u v = or_failed-Within a b (f s) (later (f s) (v s))
    where
      later : (o : Option (Bool × Session)) → WithinRun ids s.plan.tasks o → WithinRun ids a o
      later none w = tt
      later (some q) w = Within-trans ids a s.plan.tasks q.1.plan.tasks u w

  pub run_batch-Within :
      (is : List String) (s : Session)
      → ((j : String) → is_member j is ≡ true → is_member j ids ≡ true)
      → WithinRun ids s.plan.tasks (run_batch n rt is s)
  unfolding run_batch run_task
  run_batch-Within [] s h = Within-refl ids s.plan.tasks
  run_batch-Within (i ∷ is) s h =
      and_rest-Within s.plan.tasks (run_task n rt i s) (run_batch n rt is)
        (run_found-Within i (get s.plan.tasks i) s (h i (ground (arith, str_eq_refl i))))
        (λ t. run_batch-Within is t (λ j m. h j (ground arith)))

-- What `ready_tasks` comes to: the marked tasks were PENDING before.
pub record Marks (a b : Tasks) (is : List String) : Type 0 where
  pub within : Within is a b
  pub counted : count_pending b + length is ≡ count_pending a
  pub waiting :
      (j : String) (t : TaskNode)
      → get a j ≡ some t
      → is_member j is ≡ true
      → is_pending t.status ≡ true

abbrev pub MarksRun : Tasks → Result Exception (Tasks × List String) → Type 0
MarksRun a (err e) = Unit
MarksRun a (ok (b, is)) = Marks a b is

abbrev IsEntry : Tasks → String × TaskNode → Type 0
IsEntry a (i, t) = get a i ≡ some t

entries_after :
    (a : Tasks) (i : String) (u : TaskNode) (rest : Tasks)
    → contains rest i ≡ false
    → All (IsEntry a) rest
    → All (IsEntry (set a i u)) rest
unfolding contains get
entries_after a i u [] n h = tt
entries_after a i u ((j, w) ∷ rest) n (e, h) = (
  ground (arith, get-set a i j u, str_eq_iff i j, str_eq_iff j i),
  entries_after a i u rest (ground arith) h,
)

Marks-more :
    (a b : Tasks) (i : String) (t : TaskNode) (is : List String)
    → get a i ≡ some t
    → is_pending t.status ≡ true
    → Marks (set a i (with_status ready t)) b is
    → Marks a b (i ∷ is)
Marks-more a b i t is g p m = record {
  within =
      Within-trans (i ∷ is) a (set a i (with_status ready t)) b
        (set-Within (i ∷ is) a i t (with_status ready t) g refl (ground (arith, str_eq_refl i)))
        (Within-more is (i ∷ is) (set a i (with_status ready t)) b (λ j h. ground arith) m.within);
  counted = ground (arith, m.counted, count_set a i t (with_status ready t) g refl);
  waiting = λ j u h k.
      ground
        (arith, m.waiting j u, get-set a i j (with_status ready t), str_eq_iff i j, str_eq_iff j i);
}

ready_from-Marks :
    (rest a : Tasks) → IsDict rest → All (IsEntry a) rest → MarksRun a (ready_from rest a)
unfolding ready_from mark_ready
ready_from-Marks [] a d h = record {
  within = Within-refl [] a;
  counted = omega arith;
  waiting = λ j t g m. absurd (ground arith);
}
ready_from-Marks ((i, t) ∷ rest) a (n, d) (e, h) = elim (Bool-cases (is_pending t.status)) [
  | inl p ↦ rw p (
      marked p (all_succeeded a t.dependencies)
        (ready_from-Marks rest _ d (entries_after a i (with_status ready t) rest n h))
        (ready_from-Marks rest a d h))
  | inr q ↦ rw q (skipped (ready_from rest a) (ready_from-Marks rest a d h))
]
  where
    skipped :
        (r : Result Exception (Tasks × List String)) → MarksRun a r → MarksRun a (add_ready [] r)
    skipped (err x) m = tt
    skipped (ok q) m = m

    added :
        (p : is_pending t.status ≡ true) (r : Result Exception (Tasks × List String))
        → MarksRun (set a i (with_status ready t)) r
        → MarksRun a (add_ready (i ∷ []) r)
    added p (err x) m = tt
    added p (ok (b, is)) m = Marks-more a b i t is e p m

    marked :
        (p : is_pending t.status ≡ true) (r : Result Exception Bool)
        → MarksRun (set a i (with_status ready t)) (ready_from rest (set a i (with_status ready t)))
        → MarksRun a (ready_from rest a)
        → MarksRun a (and_mark (mark_if r i t a) (ready_from rest))
    marked p (err x) m u = tt
    marked p (ok false) m u = skipped (ready_from rest a) u
    marked p (ok true) m u = added p _ m

pub ready_tasks-Marks : (a : Tasks) → IsDict a → MarksRun a (ready_tasks a)
unfolding ready_tasks
ready_tasks-Marks a d = ready_from-Marks a a d (get-All a d)
