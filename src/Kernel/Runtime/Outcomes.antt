-- ===== src/Kernel/Runtime/Outcomes.antt =====
-- What one call of `execute` (runtime.py) returns and leaves, on each of its ways out.
use niceone_obsidian.Prelude.{
  String, ◌≡◌, refl, Bool, some, List, [], ◌∷◌, ◌++◌, map, ◌∙◌, string_eq, ap,
}
use mathlib.Core.List.{map-append}
use niceone_obsidian.Prelude.Dict.{get}
use niceone_obsidian.Prelude.Exec.{ok, err, ◌>>=◌, lift}
use niceone_obsidian.Kernel.Errors.{Exception, authorization_denied}
use niceone_obsidian.Kernel.Types.{ExecutionStatus}
use niceone_obsidian.Kernel.Contracts.{CapabilityContract, InvocationRequest, InvocationResult}
use niceone_obsidian.Kernel.World.{World, record_event, get_result}
use niceone_obsidian.Kernel.Invocation.{Capability, Runtime, Call, Run}
use niceone_obsidian.Kernel.Runtime.{run_entry, request_of, execute, record_denial, run_cached}
use niceone_obsidian.Kernel.Runtime.Ready.{Ready, run_of, with_status, execute-Ready}
use niceone_obsidian.Registries.Capability.{CapabilityEntry}

-- The names of the recorded events.
abbrev pub event_types : World → List String
event_types w = map (λ e. e.event_type) w.evidence

abbrev pub planned_world : World → World
planned_world = with_status ExecutionStatus.plan_validated

abbrev pub request : Call → World → String → CapabilityContract → InvocationRequest
request call w i k = request_of (run_of call w i) k (planned_world w).context

record_denial_types :
    (run : Run) (e : Exception) (w : World)
    → event_types (record_denial run e w).1
      ≡ (event_types w ++ "execution.input_validated" ∷ []) ++ "execution.authorization_denied" ∷ []
unfolding record_denial ◌>>=◌ record_event
record_denial_types run e w = simp map-append

record_denial_rest :
    (run : Run) (e : Exception) (w : World)
    → let (r, w') = record_denial run e w in
      (r ≡ err e)
      × (w'.results ≡ w.results)
      × (w'.checkpoints ≡ w.checkpoints)
      × (w'.context ≡ w.context)
unfolding record_denial ◌>>=◌ record_event
record_denial_rest run e w = (refl, refl, refl, refl)

module _ (rt : Runtime) (call : Call) (w : World) (i : String) (entry : CapabilityEntry Capability)
    (k : CapabilityContract) (h : Ready rt call w i entry k) where
  after_entry : execute rt call w ≡ run_entry rt (run_of call w i) entry (some k) (planned_world w)
  after_entry =
      execute-Ready rt call w i entry k h
      ∙ ap (λ c. run_entry rt (run_of call w i) entry c (planned_world w)) h.contracted

  entry_denied :
      (e : Exception)
      → rt.authorize (request call w i k) k ≡ err e
      → e.kind ≡ authorization_denied
      → execute rt call w ≡ record_denial (run_of call w i) e (planned_world w)
  unfolding run_entry ◌>>=◌ lift
  entry_denied e d n = after_entry ∙ (rw (h.valid, d, n) refl)

  -- A ready call that the policy refuses by AuthorizationDenied raises that exception. It keeps no
  -- result and saves no checkpoint, leaves the context in PLAN_VALIDATED, and records two events,
  -- the second of them the denial.
  pub execute_denied :
      (e : Exception)
      → rt.authorize (request call w i k) k ≡ err e
      → e.kind ≡ authorization_denied
      → let (r, w') = execute rt call w in
        (r ≡ err e)
        × (w'.results ≡ w.results)
        × (w'.checkpoints ≡ w.checkpoints)
        × (w'.context ≡ (planned_world w).context)
        × (event_types w'
            ≡ (event_types w ++ "execution.input_validated" ∷ [])
              ++ "execution.authorization_denied" ∷ [])
  execute_denied e d n =
      let (r, q, c, x) = record_denial_rest (run_of call w i) e (planned_world w) in
      rw (entry_denied e d n)
        (r, q, c, x, record_denial_types (run_of call w i) e (planned_world w))

  entry_cached :
      (b : Bool) (r : InvocationResult)
      → rt.authorize (request call w i k) k ≡ ok b
      → get w.results (run_of call w i).key ≡ some r
      → execute rt call w
        ≡ run_cached rt (run_of call w i) entry k (request call w i k) (some r) (planned_world w)
  unfolding run_entry ◌>>=◌ get_result
  entry_cached b r a f = after_entry ∙ (rw (h.valid, a, f) refl)

  -- A ready and authorized call whose key has a result returns that result, whatever the capability
  -- would do. It changes no result and no checkpoint, leaves the context in PLAN_VALIDATED, and
  -- records one event, the hit.
  pub execute_cached :
      (b : Bool) (r : InvocationResult)
      → rt.authorize (request call w i k) k ≡ ok b
      → get w.results (run_of call w i).key ≡ some r
      → let (r', w') = execute rt call w in
        (r' ≡ ok r)
        × (w'.results ≡ w.results)
        × (w'.checkpoints ≡ w.checkpoints)
        × (w'.context ≡ (planned_world w).context)
        × (event_types w' ≡ event_types w ++ "execution.idempotency_hit" ∷ [])
  unfolding run_cached ◌>>=◌ record_event
  execute_cached b r a f = rw (entry_cached b r a f) (refl, refl, refl, refl, simp map-append)
