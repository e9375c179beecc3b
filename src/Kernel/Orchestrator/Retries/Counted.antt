-- ===== src/Kernel/Orchestrator/Retries/Counted.antt =====
-- Every answer of `execute` that asks for a retry was counted (runtime.py).
use mathlib.Core.Path.{subst}
use niceone_obsidian.Prelude.{String, Bool, ◌≡◌, refl, Option, none, some, arith, string_eq}
use niceone_obsidian.Prelude.Dict.{get}
use niceone_obsidian.Prelude.Exec.{
  Result, ok, err, pure, lift, ◌>>=◌, try_, ◌>>◌, continue, resume, Keeps,
}
use niceone_obsidian.Prelude.Values.{text, end, field, get_field}
use niceone_obsidian.Kernel.Errors.{
  Exception, ExceptionKind, execution_cancellation, authorization_denied, permission_error,
}
use niceone_obsidian.Kernel.Types.{failed, FailureClass}
use niceone_obsidian.Kernel.Contracts.{CapabilityContract, InvocationRequest, InvocationResult}
use niceone_obsidian.Kernel.Recovery.{
  RecoveryPolicy, RecoveryDecision, Action, apply, classify, action_value,
}
use niceone_obsidian.Kernel.World.{World, get_result, apply_recovery, uuid4, raise_if_cancelled}
use niceone_obsidian.Kernel.World
use niceone_obsidian.Kernel.Invocation.{
  Capability, Runtime, Call, Run, handle_cancellation, handle_failure, error_result,
}
use niceone_obsidian.Kernel.Runtime.{
  settle, invoke_once, handle_kind, run_fresh, run_cached, denied, attempt, after_policy, run_entry,
  execute,
}
use niceone_obsidian.Registries.Capability.{CapabilityEntry, get_entry}
use niceone_obsidian.Kernel.Orchestrator.{asks_retry}
use niceone_obsidian.Kernel.Orchestrator.Retries.Steady.{
  fenced_save-Steady, guard_over-Steady, draw_id-Steady, launch-Steady, update-Steady, gets-Steady,
  lift-Steady, pure-Steady, bind-Steady, record_event-Steady, set_status-Steady,
  assert_fence-Steady, raise_if_cancelled-Steady,
}
use niceone_obsidian.Kernel.Recovery.{RecoveryDecision}
use niceone_obsidian.Kernel.World.{record_event}
use niceone_obsidian.Kernel.Types.{failure_value}
use niceone_obsidian.Kernel.Invocation.{fenced_save}
use niceone_obsidian.Kernel.Orchestrator.Retries.Answers.{
  Counts, Counts-refl, Counts-trans, Counts-Steady, Reports, Yield, Yields, Yield-later, Yield-err,
  apply_recovery-Counts, apply_decision, Yields-pure, Yields-raise, Yields-bind, Yields-try,
}
use niceone_obsidian.Kernel.Errors.{type_name}
use niceone_obsidian.Kernel.Runtime.{record_denial}
use niceone_obsidian.Kernel.Orchestrator.Retries.Settled.{settle-Yields}

-- What the runtime relies on of the registered capabilities.
pub record Reporting (rt : Runtime) : Type 0 where
  pub counts :
      (i v : String) (e : CapabilityEntry Capability)
      → get_entry rt.registry i v ≡ ok e
      → (q : InvocationRequest) → Keeps Counts (e.capability.invoke q)
  pub reports :
      (i v : String) (e : CapabilityEntry Capability)
      → get_entry rt.registry i v ≡ ok e
      → (q : InvocationRequest) (s : World) (r : InvocationResult)
      → (e.capability.invoke q s).0 ≡ ok r
      → Reports r

-- The same of one capability.
record EntryReports (e : CapabilityEntry Capability) : Type 0 where
  counts : (q : InvocationRequest) → Keeps Counts (e.capability.invoke q)
  reports :
      (q : InvocationRequest) (s : World) (r : InvocationResult)
      → (e.capability.invoke q s).0 ≡ ok r
      → Reports r

module _ (rt : Runtime) where
  abbrev p : RecoveryPolicy
  p = rt.recovery

  handle_cancellation-Yields :
      (call : Call) (i : String) (e : Exception) → Yields p (handle_cancellation rt call i e)
  unfolding handle_cancellation asks_retry get_field
  handle_cancellation-Yields call i e = Yields-bind p _ _ (gets-Steady _) λ x.
      Yields-bind p _ _ (set_status-Steady _) λ _.
        Yields-bind p _ _ (update-Steady _ (λ c. refl)) λ _.
          Yields-bind p _ _ (record_event-Steady _ _ _)
            λ _. Yields-bind p _ _ (fenced_save-Steady rt call.lease) λ _. Yields-pure p _ refl

  abbrev failure_rest :
      Call → String → Exception → String → RecoveryDecision → World.Action InvocationResult
  failure_rest call i e x d = do
    record_event x "execution.failure" (
        field "capability_id" (text call.capability_id) (
          field "error" (text e.message) (
            field "failure_class" (text (failure_value FailureClass.tool)) (
              field "recovery_action" (text (action_value d.action))
                (field "invocation_id" (text i) end)))))
    fenced_save rt call.lease
    pure (
        error_result i call.capability_id failed (
          field "type" (text (type_name e.kind)) (
            field "message" (text e.message) (
              field "failure_class" (text (failure_value FailureClass.tool))
                (field "recovery_action" (text (action_value d.action)) end)))))

  failure_rest-Yields :
      (call : Call) (i : String) (e : Exception) (x : String) (d : RecoveryDecision)
      → d.action ≡ Action.fallback
      → Yields p (failure_rest call i e x d)
  unfolding asks_retry get_field action_value
  failure_rest-Yields call i e x d h =
      Yields-bind p _ _ (record_event-Steady _ _ _)
        λ _. Yields-bind p _ _ (fenced_save-Steady rt call.lease) λ _. Yields-pure p _ (rw h refl)

  handle_failure-Yields :
      (call : Call) (i : String) (e : Exception) → Yields p (handle_failure rt call i e)
  unfolding handle_failure ◌>>=◌ apply_recovery classify
  handle_failure-Yields call i e = record {
    at = λ s.
        go s (apply p s.now FailureClass.tool s.context).0
          (record s { context = (apply p s.now FailureClass.tool s.context).1 })
          ((apply_recovery-Counts p FailureClass.tool).at s)
          (λ d q. apply_decision p s.now FailureClass.tool s d q);
  }
    where
      go :
          (s : World) (a : Result Exception RecoveryDecision) (t : World)
          → Counts s t
          → ((d : RecoveryDecision) → a ≡ ok d → d.action ≡ Action.fallback)
          → Yield p s (continue a t (failure_rest call i e s.context.identity.execution_id))
      go s (err x) t c q = Yield-err p s t x c
      go s (ok d) t c q =
          Yield-later p s t _ c
            ((failure_rest-Yields call i e s.context.identity.execution_id d (q d refl)).at t)

  handle_kind-Yields :
      (run : Run) (e : Exception) (k : ExceptionKind) → Yields p (handle_kind rt run e k)
  handle_kind-Yields run e execution_cancellation = handle_cancellation-Yields run.call run.id e
  handle_kind-Yields run e _ = handle_failure-Yields run.call run.id e

  record_denial-Yields : (run : Run) (e : Exception) → Yields p (record_denial run e)
  unfolding record_denial
  record_denial-Yields run e = Yields-bind p _ _ (gets-Steady _) λ t.
      Yields-bind p _ _ (record_event-Steady _ _ _)
        λ _. Yields-bind p _ _ (record_event-Steady _ _ _) λ _. Yields-raise p e

  denied-Yields : (run : Run) (e : Exception) (k : ExceptionKind) → Yields p (denied run e k)
  denied-Yields run e authorization_denied = record_denial-Yields run e
  denied-Yields run e permission_error = record_denial-Yields run e
  denied-Yields run e _ = Yields-raise p e

  -- The outcome of `invoke_once`.
  invoked :
      (c : Capability) (q : InvocationRequest) (s : World)
      → Keeps Counts (c.invoke q)
      → ((t : World) (r : InvocationResult) → (c.invoke q t).0 ≡ ok r → Reports r)
      → Counts s (invoke_once c q s).1
        × ((r : InvocationResult) → (invoke_once c q s).0 ≡ ok r → Reports r)
  unfolding invoke_once ◌>>=◌ pure
  invoked c q s k h =
      first (raise_if_cancelled s).0 (raise_if_cancelled s).1
        (Counts-Steady s _ (raise_if_cancelled-Steady.at s))
    where
      last :
          (r : InvocationResult) (t : World)
          → Counts s t
          → Reports r
          → Counts s ((raise_if_cancelled >>= λ _. pure r) t).1
            × ((x : InvocationResult)
                → ((raise_if_cancelled >>= λ _. pure r) t).0 ≡ ok x
                → Reports x)
      last r t c d = (
        Counts-trans s t _ c (
            Counts-Steady t _
              ((bind-Steady _ _ raise_if_cancelled-Steady (λ _. pure-Steady r)).at t)),
        ended (raise_if_cancelled t).0 (raise_if_cancelled t).1,
      )
        where
          ended :
              (a : Result Exception (Unit {0})) (u : World) (x : InvocationResult)
              → (continue a u (λ _. pure r)).0 ≡ ok x
              → Reports x
          ended (ok _) u x e = let q : r ≡ x = ground (arith, e) in subst Reports q d
          ended (err y) u x e = absurd (ground (arith, e))

      second :
          (a : Result Exception InvocationResult) (t : World)
          → Counts s t
          → ((x : InvocationResult) → a ≡ ok x → Reports x)
          → Counts s (continue a t (λ x. raise_if_cancelled >>= λ _. pure x)).1
            × ((x : InvocationResult)
                → (continue a t (λ x. raise_if_cancelled >>= λ _. pure x)).0 ≡ ok x
                → Reports x)
      second (ok r) t c d = last r t c (d r refl)
      second (err x) t c d = (c, λ y e. absurd (ground (arith, e)))

      first :
          (a : Result Exception (Unit {0})) (t : World)
          → Counts s t
          → Counts s (continue a t (λ _. c.invoke q >>= λ x. raise_if_cancelled >>= λ _. pure x)).1
            × ((x : InvocationResult)
                → (continue a t (λ _. c.invoke q >>= λ x. raise_if_cancelled >>= λ _. pure x)).0
                  ≡ ok x
                → Reports x)
      first (ok _) t d =
          second (c.invoke q t).0 (c.invoke q t).1 (Counts-trans s t _ d (k.at t)) (h t)
      first (err x) t d = (d, λ y e. absurd (ground (arith, e)))

  attempt-Yields :
      (run : Run) (e : CapabilityEntry Capability) (k : CapabilityContract) (q : InvocationRequest)
      → EntryReports e
      → Yields p (attempt rt run e k q)
  unfolding attempt try_
  attempt-Yields run e k q h = record {
    at = λ s.
        let (c, told) = invoked e.capability q s (h.counts q) (h.reports q) in
        go s (invoke_once e.capability q s).0 (invoke_once e.capability q s).1 c told;
  }
    where
      go :
          (s : World) (a : Result Exception InvocationResult) (t : World)
          → Counts s t
          → ((r : InvocationResult) → a ≡ ok r → Reports r)
          → Yield p s (resume a t (settle rt run k) (λ x. handle_kind rt run x x.kind))
      go s (ok r) t c told = Yield-later p s t _ c ((settle-Yields rt run k r (told r refl)).at t)
      go s (err x) t c told = Yield-later p s t _ c ((handle_kind-Yields run x x.kind).at t)

  run_fresh-Yields :
      (run : Run) (e : CapabilityEntry Capability) (k : CapabilityContract) (q : InvocationRequest)
      → EntryReports e
      → Yields p (run_fresh rt run e k q)
  unfolding run_fresh
  run_fresh-Yields run e k q h =
      Yields-bind p _ _ (launch-Steady rt run) λ _. attempt-Yields run e k q h

  -- A stored result is returned as it is.
  cached-Yield :
      (run : Run) (e : CapabilityEntry Capability) (k : CapabilityContract) (q : InvocationRequest)
      (c : Option InvocationResult) (s : World)
      → EntryReports e
      → get s.results run.key ≡ c
      → Yield p s (run_cached rt run e k q c s)
  unfolding run_cached ◌>>=◌ record_event pure
  cached-Yield run e k q none s h g = (run_fresh-Yields run e k q h).at s
  cached-Yield run e k q (some r) s h g = record {
    counts = Counts-Steady s _ ((record_event-Steady _ _ _).at s);
    asked = λ clean x a b. absurd (ground (arith, clean run.key r g, a, b));
  }

  after_policy-Yields :
      (run : Run) (e : CapabilityEntry Capability) (k : CapabilityContract) (q : InvocationRequest)
      (a : Result Exception Bool)
      → EntryReports e
      → Yields p (after_policy rt run e k q a)
  unfolding ◌>>=◌ get_result
  after_policy-Yields run e k q (ok b) h = record {
    at = λ s. cached-Yield run e k q (get s.results run.key) s h refl;
  }
  after_policy-Yields run e k q (err x) h = denied-Yields run x x.kind

  run_entry-Yields :
      (run : Run) (e : CapabilityEntry Capability) (k : Option CapabilityContract)
      → EntryReports e
      → Yields p (run_entry rt run e k)
  unfolding run_entry
  run_entry-Yields run e none h = Yields-raise p _
  run_entry-Yields run e (some k) h =
      Yields-bind p _ _ (gets-Steady _)
        λ c. Yields-bind p _ _ (lift-Steady _) λ _. after_policy-Yields run e k _ _ h

  bind-lift-Yields :
      {A : Type 0} (r : Result Exception A) (f : A → World.Action InvocationResult)
      → ((a : A) → r ≡ ok a → Yields p (f a))
      → Yields p (lift r >>= f)
  unfolding ◌>>=◌
  bind-lift-Yields (ok a) f h = record { at = λ s. (h a refl).at s }
  bind-lift-Yields (err e) f h = record { at = λ s. Yield-err p s s e (Counts-refl s) }

  pub execute-Yields : (call : Call) → Reporting rt → Yields p (execute rt call)
  unfolding execute
  execute-Yields call h = Yields-bind p _ _ (gets-Steady _) λ s.
      Yields-bind p _ _ (gets-Steady _) λ x. Yields-bind p _ _ (guard_over-Steady s) λ _.
        Yields-bind p _ _ (draw_id-Steady _) λ i.
          Yields-bind p _ _ (assert_fence-Steady rt call.lease) λ _.
            Yields-bind p _ _ (set_status-Steady _) λ _.
              bind-lift-Yields (get_entry rt.registry call.capability_id call.version) _ λ e found.
                Yields-bind p _ _ (set_status-Steady _) λ _.
                  Yields-try p _ _ _ raise_if_cancelled-Steady
                    (λ _. run_entry-Yields _ e e.contract (entry e found))
                    (λ z. handle_cancellation-Yields call i z)
    where
      entry :
          (e : CapabilityEntry Capability)
          → get_entry rt.registry call.capability_id call.version ≡ ok e
          → EntryReports e
      entry e found = record { counts = h.counts _ _ e found; reports = h.reports _ _ e found }
