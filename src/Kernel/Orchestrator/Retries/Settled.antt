-- ===== src/Kernel/Orchestrator/Retries/Settled.antt =====
-- A settled result that asks for a retry was counted (runtime.py, `settle`).
use mathlib.Core.Path.{subst}
use niceone_obsidian.Prelude.{
  ◌≤◌, ◌<◌, true, false, ◌≡◌, refl, sym, Option, none, some, arith, str_eq, string_eq,
}
use niceone_obsidian.Prelude.Exec.{Result, ok, err, pure, ◌>>=◌, ◌>>◌, continue, Keeps}
use niceone_obsidian.Prelude.Values.{text, end, field, set_field, get_field-set_field_self}
use niceone_obsidian.Kernel.Errors.{Exception}
use niceone_obsidian.Kernel.Types.{is_final, FailureClass}
use niceone_obsidian.Kernel.Contracts.{CapabilityContract, InvocationResult}
use niceone_obsidian.Kernel.Recovery.{RecoveryDecision, apply, classify, action_value}
use niceone_obsidian.Kernel.Recovery.Bounds.{is_retry}
use niceone_obsidian.Kernel.World.{World, get_result, apply_recovery, uuid4, raise_if_cancelled}
use niceone_obsidian.Kernel.World
use niceone_obsidian.Kernel.Invocation.{Runtime, Run, absorb_failure, reported_class, error_fields}
use niceone_obsidian.Kernel.Runtime.{observe, conclude, settle}
use niceone_obsidian.Kernel.Orchestrator.{asks_retry}
use niceone_obsidian.Kernel.Orchestrator.Retries.Steady.{
  Steady, Steady-preorder, steady, fenced_save-Steady, cache_result-Steady, observe-Steady,
  update-Steady, pure-Steady, bind-Steady,
}
use niceone_obsidian.Kernel.Recovery.{RecoveryDecision}
use niceone_obsidian.Kernel.World.{record_event}
use niceone_obsidian.Kernel.Types.{failure_value}
use niceone_obsidian.Kernel.Invocation.{fenced_save}
use niceone_obsidian.Kernel.Orchestrator.Retries.Answers.{
  Counts, Counts-refl, Counts-trans, Counts-Steady, Reports, Yield, Yields, Yield-err,
  apply_recovery-Counts, is_retry_named, retry_counted, apply_decision,
}

-- An action that returns a given result, if it returns.
record Gives (r : InvocationResult) (m : World.Action InvocationResult) : Type 0 where
  steady : Keeps Steady m
  given : (s : World) (x : InvocationResult) → (m s).0 ≡ ok x → x ≡ r

Gives-pure : (r : InvocationResult) → Gives r (pure r)
unfolding pure
Gives-pure r = record { steady = pure-Steady r; given = λ s x e. ground (arith, e) }

module _ {A : Type 0} where
  Gives-after :
      (r : InvocationResult) (m : World.Action A) (f : A → World.Action InvocationResult)
      → Keeps Steady m
      → ((a : A) → Gives r (f a))
      → Gives r (m >>= f)
  unfolding ◌>>=◌
  Gives-after r m f k g = record {
    steady = bind-Steady m f k (λ a. (g a).steady);
    given = λ s x. go x (m s).0 (m s).1;
  }
    where
      go :
          (x : InvocationResult) (a : Result Exception A) (t : World)
          → (continue a t f).0 ≡ ok x
          → x ≡ r
      go x (ok a) t e = (g a).given t x e
      go x (err q) t e = absurd (ground (arith, e))

Gives-then :
    (r : InvocationResult) (m : World.Action InvocationResult)
    (f : InvocationResult → World.Action InvocationResult)
    → Gives r m
    → Gives r (f r)
    → Gives r (m >>= f)
unfolding ◌>>=◌
Gives-then r m f g h = record {
  steady = record { at = λ s. still s (m s).0 (m s).1 (g.given s) (g.steady.at s) };
  given = λ s x e. back x (m s).0 (m s).1 (g.given s) e;
}
  where
    later : (x : InvocationResult) → x ≡ r → Gives r (f x)
    later x q = subst (λ y. Gives r (f y)) (sym q) h

    still :
        (s : World) (a : Result Exception InvocationResult) (t : World)
        → ((x : InvocationResult) → a ≡ ok x → x ≡ r)
        → Steady s t
        → Steady s (continue a t f).1
    still s (ok x) t q c =
        Steady-preorder.trans_at s t (f x t).1 c ((later x (q x refl)).steady.at t)
    still s (err e) t q c = c

    back :
        (y : InvocationResult) (a : Result Exception InvocationResult) (t : World)
        → ((x : InvocationResult) → a ≡ ok x → x ≡ r)
        → (continue a t f).0 ≡ ok y
        → y ≡ r
    back y (ok x) t q e = (later x (q x refl)).given t y e
    back y (err x) t q e = absurd (ground (arith, e))

module _ (rt : Runtime) (run : Run) (k : CapabilityContract) where
  -- The end of `settle`, which returns the result that it is given.
  abbrev settle_rest : InvocationResult → World.Action InvocationResult
  settle_rest r = observe rt run k r >> conclude rt run r

  conclude-Gives :
      (r : InvocationResult)
      → (is_final r.status ≡ true → asks_retry r ≡ false)
      → Gives r (conclude rt run r)
  unfolding conclude
  conclude-Gives r h =
      search
        (Gives-after, Gives-pure, steady, update-Steady, fenced_save-Steady, cache_result-Steady)
        depth 30

  settle_rest-Gives :
      (r : InvocationResult)
      → (is_final r.status ≡ true → asks_retry r ≡ false)
      → Gives r (settle_rest r)
  settle_rest-Gives r h = Gives-after r _ _ (observe-Steady rt run k r) (λ _. conclude-Gives r h)

  -- What follows the decision, with the result that carries it.
  abbrev decided : InvocationResult → FailureClass → RecoveryDecision → InvocationResult
  decided r f d = record r {
    error =
        some (set_field (error_fields r.error) "recovery_action" (text (action_value d.action)));
  }

  abbrev absorb_rest :
      InvocationResult → FailureClass → RecoveryDecision → World.Action InvocationResult
  absorb_rest r f d = do
    record_event run.execution "execution.recovery_decision" (
        field "capability_id" (text run.capability_id) (
          field "invocation_id" (text run.id) (
            field "failure_class" (text (failure_value f))
              (field "recovery_action" (text (action_value d.action)) end))))
    fenced_save rt run.lease
    pure (decided r f d)

  absorb_rest-Gives :
      (r : InvocationResult) (f : FailureClass) (d : RecoveryDecision)
      → Gives (decided r f d) (absorb_rest r f d)
  absorb_rest-Gives r f d = search (Gives-after, Gives-pure, steady, fenced_save-Steady) depth 20

  decided_asks :
      (r : InvocationResult) (f : FailureClass) (d : RecoveryDecision)
      → asks_retry (decided r f d) ≡ true
      → str_eq (action_value d.action) "retry" ≡ true
  unfolding asks_retry
  decided_asks r f d h = ground (
    arith,
    h,
    get_field-set_field_self (error_fields r.error) "recovery_action"
        (text (action_value d.action)),
  )

  failed_open :
      (r : InvocationResult) (f : FailureClass)
      → reported_class r ≡ some f
      → is_final r.status ≡ false
  failed_open r f h = ground (arith, h)

  settled_Gives :
      (r : InvocationResult) (f : FailureClass) (d : RecoveryDecision)
      → reported_class r ≡ some f
      → Gives (decided r f d) (absorb_rest r f d >>= settle_rest)
  settled_Gives r f d h =
      Gives-then (decided r f d) (absorb_rest r f d) settle_rest (absorb_rest-Gives r f d)
        (settle_rest-Gives (decided r f d) (λ x. absurd (ground (arith, failed_open r f h, x))))

  -- What an action gives after a step that counted what it asks for.
  Yield-given :
      (s t : World) (r : InvocationResult) (m : World.Action InvocationResult)
      → Gives r m
      → Counts s t
      → (asks_retry r ≡ true
          → (s.context.retry_count < t.context.retry_count)
            × (t.context.retry_count ≤ rt.recovery.max_retries))
      → Yield rt.recovery s (m t)
  Yield-given s t r m g c h = record {
    counts = Counts-trans s t (m t).1 c (Counts-Steady t (m t).1 (g.steady.at t));
    asked = λ _ x e a.
        let (u, v) = h (subst (λ y. asks_retry y ≡ true) (g.given t x e) a) in
        (omega (arith, u, (g.steady.at t).same), omega (arith, v, (g.steady.at t).same));
  }

  absorbed-Yield :
      (r : InvocationResult) (f : FailureClass) (s : World)
      → reported_class r ≡ some f
      → Yield rt.recovery s ((absorb_failure rt run r (some f) >>= settle_rest) s)
  unfolding ◌>>=◌ absorb_failure apply_recovery
  absorbed-Yield r f s h =
      go (apply rt.recovery s.now f s.context).0
        (record s { context = (apply rt.recovery s.now f s.context).1 })
        ((apply_recovery-Counts rt.recovery f).at s)
        (λ d e. apply_decision rt.recovery s.now f s d e) (retry_counted rt.recovery s.now f s)
    where
      go :
          (a : Result Exception RecoveryDecision) (t : World)
          → Counts s t
          → ((d : RecoveryDecision)
              → a ≡ ok d
              → d.action ≡ (classify rt.recovery f s.context).action)
          → (is_retry (classify rt.recovery f s.context).action ≡ true
              → (s.context.retry_count < t.context.retry_count)
                × (t.context.retry_count ≤ rt.recovery.max_retries))
          → Yield rt.recovery s (
              continue
                (continue a t (absorb_rest r f)).0
                (continue a t (absorb_rest r f)).1
                settle_rest)
      go (err e) t c q u = Yield-err rt.recovery s t e c
      go (ok d) t c q u =
          Yield-given s t (decided r f d) (absorb_rest r f d >>= settle_rest)
            (settled_Gives r f d h) c
            (λ x. u (
              subst (λ z. is_retry z ≡ true) (q d refl)
                (is_retry_named d.action (decided_asks r f d x))))

  plain-Yield :
      (r : InvocationResult) (s : World)
      → asks_retry r ≡ false
      → Yield rt.recovery s (settle_rest r s)
  plain-Yield r s n =
      Yield-given s s r (settle_rest r) (settle_rest-Gives r (λ _. n)) (Counts-refl s)
        (λ a. absurd (ground (arith, n, a)))

  absorb-Yield :
      (r : InvocationResult) (c : Option FailureClass) (s : World)
      → Reports r
      → reported_class r ≡ c
      → Yield rt.recovery s ((absorb_failure rt run r c >>= settle_rest) s)
  unfolding ◌>>=◌ absorb_failure
  absorb-Yield r none s h e = plain-Yield r s (ground (arith, h, e))
  absorb-Yield r (some f) s h e = absorbed-Yield r f s e

  pub settle-Yields : (r : InvocationResult) → Reports r → Yields rt.recovery (settle rt run k r)
  unfolding settle
  settle-Yields r h = record { at = λ s. absorb-Yield r (reported_class r) s h refl }
