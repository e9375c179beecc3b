-- ===== src/Kernel/Orchestrator/Retries/Steady.antt =====
-- What the steps of the runtime (runtime.py) do to the retry counter and to the stored results, seen
-- from the orchestrator's retry loop.
use niceone_obsidian.Prelude.{
  ℕ, String, true, false, ◌≡◌, refl, Option, none, some, arith, string_eq, Bool-cases, inl, inr,
}
use niceone_obsidian.Prelude.Dict.{get, get-set_default_new}
use niceone_obsidian.Prelude.Exec.{
  Exec, Result, ok, err, pure, raise, gets, lift, ◌>>=◌, try_, Keeps, IsPreorder, Keeps-pure,
  Keeps-raise, Keeps-gets, Keeps-lift, Keeps-bind, Keeps-try, Keeps-if,
}
use niceone_obsidian.Prelude.Values.{Fields}
use niceone_obsidian.Kernel.Errors.{Exception}
use niceone_obsidian.Kernel.Types.{is_final, ExecutionStatus}
use niceone_obsidian.Kernel.State.{ExecutionContext}
use niceone_obsidian.Kernel.Contracts.{CapabilityContract, InvocationResult}
use niceone_obsidian.Kernel.World.{
  World, uuid4, record_event, save_checkpoint, get_result, put_result, raise_if_cancelled,
  set_status, update,
}
use niceone_obsidian.Kernel.World
use niceone_obsidian.Kernel.Invocation.{
  WorkerLease, Runtime, Run, assert_fence, fence_with, fenced_save, cache_result, draw_id,
}
use niceone_obsidian.Kernel.Runtime.{observe, conclude, record_denial, launch, guard_over, complete}
use niceone_obsidian.Kernel.Orchestrator.{asks_retry}

-- No stored result asks for a retry.
abbrev pub Clean : World → Type 0
Clean w = (k : String) (r : InvocationResult) → get w.results k ≡ some r → asks_retry r ≡ false

-- A step that neither counts a retry nor stores a result that asks for one.
pub record Steady (s t : World) : Type 0 where
  pub same : t.context.retry_count ≡ s.context.retry_count
  pub clean : Clean s → Clean t

pub Steady_same :
    (s t : World)
    → t.results ≡ s.results
    → t.context.retry_count ≡ s.context.retry_count
    → Steady s t
Steady_same s t e c = record { same = c; clean = λ h k r g. h k r (ground (arith, e, g)) }

pub Steady-preorder : IsPreorder Steady
Steady-preorder = record {
  refl_at = λ s. Steady_same s s refl refl;
  trans_at = λ s t u a b. record {
    same = ground (arith, a.same, b.same);
    clean = λ h. b.clean (a.clean h);
  };
}

abbrev o : IsPreorder Steady
o = Steady-preorder

pub uuid4-Steady : Keeps Steady uuid4
unfolding uuid4
uuid4-Steady = record { at = λ s. Steady_same s _ refl refl }

pub record_event-Steady : (x n : String) (f : Fields) → Keeps Steady (record_event x n f)
unfolding record_event
record_event-Steady x n f = record { at = λ s. Steady_same s _ refl refl }

pub save_checkpoint-Steady : Keeps Steady save_checkpoint
unfolding save_checkpoint
save_checkpoint-Steady = record { at = λ s. Steady_same s _ refl refl }

pub get_result-Steady : (k : String) → Keeps Steady (get_result k)
unfolding get_result
get_result-Steady k = record { at = λ s. Steady_same s s refl refl }

put_result-Steady :
    (k : String) (r : InvocationResult) → asks_retry r ≡ false → Keeps Steady (put_result k r)
unfolding put_result
put_result-Steady k r a = record {
  at = λ s. record {
    same = refl;
    clean = λ h j x g. elim (get-set_default_new s.results k r j x g) [
      | inl old ↦ h j x old
      | inr new ↦ rw (← new) a
    ];
  };
}

pub raise_if_cancelled-Steady : Keeps Steady raise_if_cancelled
unfolding raise_if_cancelled
raise_if_cancelled-Steady = record { at = λ s. Steady_same s _ (ground arith) (ground arith) }

pub set_status-Steady : (x : ExecutionStatus) → Keeps Steady (set_status x)
unfolding set_status
set_status-Steady x = record { at = λ s. Steady_same s _ (ground arith) (ground arith) }

pub update-Steady :
    (f : ExecutionContext → ExecutionContext)
    → ((c : ExecutionContext) → (f c).retry_count ≡ c.retry_count)
    → Keeps Steady (update f)
unfolding update
update-Steady f h = record { at = λ s. Steady_same s _ refl (h s.context) }

pub assert_fence-Steady : (rt : Runtime) (l : Option WorkerLease) → Keeps Steady (assert_fence rt l)
unfolding assert_fence
assert_fence-Steady rt l = go rt.fencing l
  where
    go :
        (f : Option (WorkerLease → ℕ → Result Exception (Unit {0}))) (l : Option WorkerLease)
        → Keeps Steady (fence_with f l)
    go none l = Keeps-pure o tt
    go (some f) none = Keeps-raise o _
    go (some f) (some l) = record { at = λ s. Steady_same s _ refl refl }

pub pure-Steady : {A : Type 0} (a : A) → Keeps Steady (pure {E = Exception} a)
pure-Steady a = Keeps-pure o a

pub raise-Steady : {A : Type 0} (e : Exception) → Keeps Steady (raise {A = A} e)
raise-Steady e = Keeps-raise o e

pub gets-Steady : {A : Type 0} (f : World → A) → Keeps Steady (gets {E = Exception} f)
gets-Steady f = Keeps-gets o f

pub lift-Steady : {A : Type 0} (r : Result Exception A) → Keeps Steady (lift r)
lift-Steady r = Keeps-lift o r

pub bind-Steady :
    {A B : Type 0} (m : World.Action A) (f : A → World.Action B)
    → Keeps Steady m
    → ((a : A) → Keeps Steady (f a))
    → Keeps Steady (m >>= f)
bind-Steady m f km kf = Keeps-bind o m f km kf

pub ruleset steady = (
  uuid4-Steady, record_event-Steady, save_checkpoint-Steady, get_result-Steady,
  raise_if_cancelled-Steady, set_status-Steady, assert_fence-Steady, pure-Steady, raise-Steady,
  gets-Steady, lift-Steady, bind-Steady, Keeps-if,
)

pub fenced_save-Steady : (rt : Runtime) (l : Option WorkerLease) → Keeps Steady (fenced_save rt l)
unfolding fenced_save
fenced_save-Steady rt l = search steady

pub cache_result-Steady :
    (rt : Runtime) (key : String) (r : InvocationResult) (l : Option WorkerLease)
    → (is_final r.status ≡ true → asks_retry r ≡ false)
    → Keeps Steady (cache_result rt key r l)
unfolding cache_result
cache_result-Steady rt key r l h = elim (Bool-cases (is_final r.status)) [
  | inl f ↦ rw f (bind-Steady _ _ (assert_fence-Steady rt l) (λ _. put_result-Steady key r (h f)))
  | inr f ↦ rw f (pure-Steady tt)
]

pub observe-Steady :
    (rt : Runtime) (run : Run) (k : CapabilityContract) (r : InvocationResult)
    → Keeps Steady (observe rt run k r)
unfolding observe
observe-Steady rt run k r = search (steady, update-Steady) depth 30

pub conclude-Steady :
    (rt : Runtime) (run : Run) (r : InvocationResult)
    → (is_final r.status ≡ true → asks_retry r ≡ false)
    → Keeps Steady (conclude rt run r)
unfolding conclude
conclude-Steady rt run r h =
    search (steady, update-Steady, fenced_save-Steady, cache_result-Steady) depth 30

pub record_denial-Steady : (run : Run) (e : Exception) → Keeps Steady (record_denial run e)
unfolding record_denial
record_denial-Steady run e = search steady depth 20

pub guard_over-Steady : (s : ExecutionStatus) → Keeps Steady (guard_over s)
guard_over-Steady s = search steady depth 10

pub draw_id-Steady : (i : Option String) → Keeps Steady (draw_id i)
draw_id-Steady none = uuid4-Steady
draw_id-Steady (some i) = pure-Steady i

pub launch-Steady : (rt : Runtime) (run : Run) → Keeps Steady (launch rt run)
unfolding launch
launch-Steady rt run = search (steady, update-Steady, fenced_save-Steady) depth 30

pub complete-Steady : (rt : Runtime) (l : Option WorkerLease) → Keeps Steady (complete rt l)
unfolding complete
complete-Steady rt l = search (steady, fenced_save-Steady) depth 20
