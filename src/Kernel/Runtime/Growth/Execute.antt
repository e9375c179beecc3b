-- ===== src/Kernel/Runtime/Growth/Execute.antt =====
-- The methods of the runtime (runtime.py) keep the relation `Grows`.
use niceone_obsidian.Prelude.{
  inl, inr, Bool-cases, String, ◌≡◌, refl, Bool, Option, none, some, string_eq,
}
use niceone_obsidian.Prelude.Exec.{Result, ok, err, lift, ◌>>=◌, Keeps}
use niceone_obsidian.Kernel.Errors.{
  Exception, ExceptionKind, execution_cancellation, authorization_denied, permission_error,
}
use niceone_obsidian.Kernel.Types.{is_final, ExecutionStatus, FailureClass}
use niceone_obsidian.Kernel.Contracts.{CapabilityContract, InvocationRequest, InvocationResult}
use niceone_obsidian.Kernel.World.{
  World, uuid4, record_event, save_checkpoint, get_result, put_result, raise_if_cancelled,
  set_status, update, apply_recovery,
}
use niceone_obsidian.Kernel.World
use niceone_obsidian.Kernel.Invocation.{
  Capability, WorkerLease, Runtime, Call, Run, fenced_save, cache_result, handle_cancellation,
  handle_failure, absorb_failure, draw_id,
}
use niceone_obsidian.Kernel.Runtime.{
  observe, conclude, settle, invoke_once, launch, handle_kind, run_fresh, run_cached, record_denial,
  denied, attempt, after_policy, run_entry, guard_over, execute, complete,
}
use niceone_obsidian.Registries.Capability.{CapabilityEntry, get_entry}
use niceone_obsidian.Kernel.Runtime.Growth.{
  Grows, Grows_same, uuid4-Grows, get_result-Grows, put_result-Grows, raise_if_cancelled-Grows,
  set_status-Grows, update-Grows, assert_fence-Grows, pure-Grows, raise-Grows, gets-Grows,
  lift-Grows, bind-Grows, try-Grows, growth,
}

fenced_save-Grows : (rt : Runtime) (l : Option WorkerLease) → Keeps Grows (fenced_save rt l)
unfolding fenced_save
fenced_save-Grows rt l = search growth

cache_result-Grows :
    (rt : Runtime) (key : String) (r : InvocationResult) (l : Option WorkerLease)
    → Keeps Grows (cache_result rt key r l)
unfolding cache_result
cache_result-Grows rt key r l = elim (Bool-cases (is_final r.status)) [
  | inl f ↦ rw f (bind-Grows _ _ (assert_fence-Grows rt l) (λ _. put_result-Grows key r f))
  | inr f ↦ rw f (pure-Grows tt)
]

handle_cancellation-Grows :
    (rt : Runtime) (call : Call) (i : String) (e : Exception)
    → Keeps Grows (handle_cancellation rt call i e)
unfolding handle_cancellation
handle_cancellation-Grows rt call i e = search (growth, fenced_save-Grows, update-Grows) depth 20

handle_failure-Grows :
    (rt : Runtime) (call : Call) (i : String) (e : Exception)
    → Keeps Grows (handle_failure rt call i e)
unfolding handle_failure
handle_failure-Grows rt call i e = search (growth, fenced_save-Grows) depth 20

absorb_failure-Grows :
    (rt : Runtime) (run : Run) (r : InvocationResult) (f : Option FailureClass)
    → Keeps Grows (absorb_failure rt run r f)
unfolding absorb_failure
absorb_failure-Grows rt run r none = pure-Grows r
absorb_failure-Grows rt run r (some f) = search (growth, fenced_save-Grows) depth 20

observe-Grows :
    (rt : Runtime) (run : Run) (k : CapabilityContract) (r : InvocationResult)
    → Keeps Grows (observe rt run k r)
unfolding observe
observe-Grows rt run k r = search (growth, update-Grows) depth 30

conclude-Grows : (rt : Runtime) (run : Run) (r : InvocationResult) → Keeps Grows (conclude rt run r)
unfolding conclude
conclude-Grows rt run r =
    search (growth, update-Grows, fenced_save-Grows, cache_result-Grows) depth 30

settle-Grows :
    (rt : Runtime) (run : Run) (k : CapabilityContract) (r : InvocationResult)
    → Keeps Grows (settle rt run k r)
unfolding settle
settle-Grows rt run k r =
    search (growth, absorb_failure-Grows, observe-Grows, conclude-Grows) depth 20

handle_kind-Grows :
    (rt : Runtime) (run : Run) (e : Exception) (k : ExceptionKind)
    → Keeps Grows (handle_kind rt run e k)
handle_kind-Grows rt run e execution_cancellation = handle_cancellation-Grows rt run.call run.id e
handle_kind-Grows rt run e _ = handle_failure-Grows rt run.call run.id e

handler-Grows :
    (rt : Runtime) (run : Run) (e : Exception) → Keeps Grows (handle_kind rt run e e.kind)
handler-Grows rt run e = handle_kind-Grows rt run e e.kind

record_denial-Grows : (run : Run) (e : Exception) → Keeps Grows (record_denial run e)
unfolding record_denial
record_denial-Grows run e = search growth depth 20

denied-Grows : (run : Run) (e : Exception) (k : ExceptionKind) → Keeps Grows (denied run e k)
denied-Grows run e authorization_denied = record_denial-Grows run e
denied-Grows run e permission_error = record_denial-Grows run e
denied-Grows run e _ = raise-Grows e

guard_over-Grows : (s : ExecutionStatus) → Keeps Grows (guard_over s)
guard_over-Grows s = search growth depth 10

draw_id-Grows : (i : Option String) → Keeps Grows (draw_id i)
draw_id-Grows none = uuid4-Grows
draw_id-Grows (some i) = pure-Grows i

-- The capabilities that a runtime can call.
abbrev pub CapabilitiesGrow : Runtime → Type 0
CapabilitiesGrow rt =
    (i v : String) (e : CapabilityEntry Capability)
    → get_entry rt.registry i v ≡ ok e
    → (q : InvocationRequest) → Keeps Grows (e.capability.invoke q)

abbrev EntryGrows : CapabilityEntry Capability → Type 0
EntryGrows e = (q : InvocationRequest) → Keeps Grows (e.capability.invoke q)

invoke_once-Grows :
    (c : Capability) (q : InvocationRequest)
    → Keeps Grows (c.invoke q)
    → Keeps Grows (invoke_once c q)
unfolding invoke_once
invoke_once-Grows c q h = search growth depth 10

attempt-Grows :
    (rt : Runtime) (run : Run) (e : CapabilityEntry Capability) (k : CapabilityContract)
    (q : InvocationRequest)
    → EntryGrows e
    → Keeps Grows (attempt rt run e k q)
unfolding attempt
attempt-Grows rt run e k q h =
    try-Grows _ _ _ (invoke_once-Grows e.capability q (h q)) (settle-Grows rt run k)
      (handler-Grows rt run)

launch-Grows : (rt : Runtime) (run : Run) → Keeps Grows (launch rt run)
unfolding launch
launch-Grows rt run = search (growth, update-Grows, fenced_save-Grows) depth 30

run_fresh-Grows :
    (rt : Runtime) (run : Run) (e : CapabilityEntry Capability) (k : CapabilityContract)
    (q : InvocationRequest)
    → EntryGrows e
    → Keeps Grows (run_fresh rt run e k q)
unfolding run_fresh
run_fresh-Grows rt run e k q h =
    bind-Grows _ _ (launch-Grows rt run) λ _. attempt-Grows rt run e k q h

run_cached-Grows :
    (rt : Runtime) (run : Run) (e : CapabilityEntry Capability) (k : CapabilityContract)
    (q : InvocationRequest) (c : Option InvocationResult)
    → EntryGrows e
    → Keeps Grows (run_cached rt run e k q c)
unfolding run_cached
run_cached-Grows rt run e k q none h = run_fresh-Grows rt run e k q h
run_cached-Grows rt run e k q (some r) h = search growth depth 10

after_policy-Grows :
    (rt : Runtime) (run : Run) (e : CapabilityEntry Capability) (k : CapabilityContract)
    (q : InvocationRequest) (a : Result Exception Bool)
    → EntryGrows e
    → Keeps Grows (after_policy rt run e k q a)
after_policy-Grows rt run e k q (ok b) h =
    bind-Grows _ _ (get_result-Grows run.key) (λ c. run_cached-Grows rt run e k q c h)
after_policy-Grows rt run e k q (err x) h = denied-Grows run x x.kind

run_entry-Grows :
    (rt : Runtime) (run : Run) (e : CapabilityEntry Capability) (k : Option CapabilityContract)
    → EntryGrows e
    → Keeps Grows (run_entry rt run e k)
unfolding run_entry
run_entry-Grows rt run e none h = raise-Grows _
run_entry-Grows rt run e (some k) h =
    bind-Grows _ _ (gets-Grows _)
      λ c. bind-Grows _ _ (lift-Grows _) λ _. after_policy-Grows rt run e k _ _ h

-- A `lift` whose value is known to come from it.
bind-lift-Grows :
    {A B : Type 0} (r : Result Exception A) (f : A → World.Action B)
    → ((a : A) → r ≡ ok a → Keeps Grows (f a))
    → Keeps Grows (lift r >>= f)
unfolding ◌>>=◌
bind-lift-Grows (ok a) f h = record { at = λ s. (h a refl).at s }
bind-lift-Grows (err e) f h = record { at = λ s. Grows_same s s refl refl refl }

-- Whatever a call of `execute` returns or raises, the evidence before is a prefix of the evidence
-- after, a result kept under a key stays that result, a result newly kept is SUCCEEDED or CANCELLED,
-- and a terminal status stays, if the registered capabilities respect the same.
pub execute-Grows :
    (rt : Runtime) (call : Call) → CapabilitiesGrow rt → Keeps Grows (execute rt call)
unfolding execute
execute-Grows rt call h = bind-Grows _ _ (gets-Grows _) λ s. bind-Grows _ _ (gets-Grows _) λ x.
    bind-Grows _ _ (guard_over-Grows s) λ _. bind-Grows _ _ (draw_id-Grows _) λ i.
      bind-Grows _ _ (assert_fence-Grows rt call.lease) λ _.
        bind-Grows _ _ (set_status-Grows _) λ _.
          bind-lift-Grows (get_entry rt.registry call.capability_id call.version) _ λ e found.
            bind-Grows _ _ (set_status-Grows _) λ _.
              try-Grows _ _ _ raise_if_cancelled-Grows
                (λ _. run_entry-Grows rt _ e e.contract (h _ _ e found))
                (λ z. handle_cancellation-Grows rt call i z)

pub complete-Grows : (rt : Runtime) (l : Option WorkerLease) → Keeps Grows (complete rt l)
unfolding complete
complete-Grows rt l = search (growth, fenced_save-Grows) depth 20
