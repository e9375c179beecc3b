-- ===== src/Kernel/Orchestrator/Retries/Answers.antt =====
-- An answer of the runtime that asks for a retry was counted (runtime.py, recovery.py).
use niceone_obsidian.Prelude.{
  ℕ, ◌≤◌, ◌<◌, true, false, ◌≡◌, refl, Option, none, some, arith, str_eq, string_eq, is_some,
}
use niceone_obsidian.Prelude.Exec.{
  Result, ok, err, pure, raise, ◌>>=◌, try_, continue, resume, Keeps,
}
use niceone_obsidian.Kernel.Errors.{Exception}
use niceone_obsidian.Kernel.Types.{ExecutionStatus, FailureClass}
use niceone_obsidian.Kernel.State.{ExecutionContext, set_status}
use niceone_obsidian.Kernel.Contracts.{InvocationResult}
use niceone_obsidian.Kernel.Recovery.{
  RecoveryPolicy, RecoveryDecision, Action, moved, move_status, action_status, count_attempt,
  record_failure, apply, classify, action_value,
}
use niceone_obsidian.Kernel.Recovery.Bounds.{is_retry}
use niceone_obsidian.Kernel.World.{World, get_result, apply_recovery, uuid4, raise_if_cancelled}
use niceone_obsidian.Kernel.World
use niceone_obsidian.Kernel.Invocation.{reported_class}
use niceone_obsidian.Kernel.Orchestrator.{asks_retry}
use niceone_obsidian.Kernel.Orchestrator.Retries.Steady.{Clean, Steady}

-- What a capability does: retries that it has the kernel count stay counted.
pub record Counts (s t : World) : Type 0 where
  pub more : s.context.retry_count ≤ t.context.retry_count
  pub clean : Clean s → Clean t

pub Counts-refl : (s : World) → Counts s s
Counts-refl s = record { more = omega arith; clean = λ h. h }

pub Counts-trans : (s t u : World) → Counts s t → Counts t u → Counts s u
Counts-trans s t u a b = record {
  more = omega (arith, a.more, b.more);
  clean = λ h. b.clean (a.clean h);
}

pub Counts-Steady : (s t : World) → Steady s t → Counts s t
Counts-Steady s t a = record { more = omega (arith, a.same); clean = a.clean }

-- A result that asks for a retry is FAILED and names a failure class: the runtime then puts its own
-- recovery decision in the place of the result's.
abbrev pub Reports : InvocationResult → Type 0
Reports r = asks_retry r ≡ true → is_some (reported_class r) ≡ true

module _ (p : RecoveryPolicy) where
  -- An outcome of an action on `s`.
  pub record Yield (s : World) (o : Result Exception InvocationResult × World) : Type 0 where
    pub counts : Counts s o.1
    pub asked :
        Clean s
        → (r : InvocationResult) → o.0 ≡ ok r
        → asks_retry r ≡ true
        → (s.context.retry_count < o.1.context.retry_count)
          × (o.1.context.retry_count ≤ p.max_retries)

  pub record Yields (m : World.Action InvocationResult) : Type 0 where
    pub at : (s : World) → Yield s (m s)

  pub Yield-later :
      (s t : World) (o : Result Exception InvocationResult × World)
      → Counts s t
      → Yield t o
      → Yield s o
  Yield-later s t o c y = record {
    counts = Counts-trans s t o.1 c y.counts;
    asked = λ h r e a. let (u, v) = y.asked (c.clean h) r e a in (omega (arith, c.more, u), v);
  }

  pub Yield-err : (s t : World) (e : Exception) → Counts s t → Yield s (err e, t)
  Yield-err s t e c = record { counts = c; asked = λ h r q a. absurd (ground (arith, q)) }

  pub Yield-quiet :
      (s t : World) (r : InvocationResult) → Counts s t → asks_retry r ≡ false → Yield s (ok r, t)
  Yield-quiet s t r c n = record { counts = c; asked = λ h x q a. absurd (ground (arith, q, n, a)) }

  pub Yields-pure : (r : InvocationResult) → asks_retry r ≡ false → Yields (pure r)
  unfolding pure
  Yields-pure r n = record { at = λ s. Yield-quiet s s r (Counts-refl s) n }

  pub Yields-raise : (e : Exception) → Yields (raise e)
  unfolding raise
  Yields-raise e = record { at = λ s. Yield-err s s e (Counts-refl s) }

  module _ {A : Type 0} where
    pub Yields-after :
        (m : World.Action A) (f : A → World.Action InvocationResult)
        → Keeps Counts m
        → ((a : A) → Yields (f a))
        → Yields (m >>= f)
    unfolding ◌>>=◌
    Yields-after m f k y = record { at = λ s. go s (m s).0 (m s).1 (k.at s) }
      where
        go :
            (s : World) (r : Result Exception A) (t : World) → Counts s t → Yield s (continue r t f)
        go s (ok a) t c = Yield-later s t (f a t) c ((y a).at t)
        go s (err e) t c = Yield-err s t e c

    pub Yields-bind :
        (m : World.Action A) (f : A → World.Action InvocationResult)
        → Keeps Steady m
        → ((a : A) → Yields (f a))
        → Yields (m >>= f)
    Yields-bind m f k y = Yields-after m f (record { at = λ s. Counts-Steady s (m s).1 (k.at s) }) y

    pub Yields-try :
        (m : World.Action A) (f : A → World.Action InvocationResult)
        (h : Exception → World.Action InvocationResult)
        → Keeps Steady m
        → ((a : A) → Yields (f a))
        → ((e : Exception) → Yields (h e))
        → Yields (try_ m f h)
    unfolding try_
    Yields-try m f h k y z = record {
      at = λ s. go s (m s).0 (m s).1 (Counts-Steady s (m s).1 (k.at s));
    }
      where
        go :
            (s : World) (r : Result Exception A) (t : World) → Counts s t → Yield s (resume r t f h)
        go s (ok a) t c = Yield-later s t (f a t) c ((y a).at t)
        go s (err e) t c = Yield-later s t (h e t) c ((z e).at t)

pub apply_recovery-Counts :
    (p : RecoveryPolicy) (f : FailureClass) → Keeps Counts (apply_recovery p f)
unfolding apply_recovery apply classify
apply_recovery-Counts p f = record { at = λ s. record { more = ground arith; clean = λ h. h } }

pub is_retry_named : (a : Action) → str_eq (action_value a) "retry" ≡ true → is_retry a ≡ true
unfolding action_value
is_retry_named Action.retry h = refl
is_retry_named _ h = absurd (ground arith)

-- A decision to retry is counted and within the limit.
pub retry_counted :
    (p : RecoveryPolicy) (now : ℕ) (f : FailureClass) (s : World)
    → is_retry (classify p f s.context).action ≡ true
    → (s.context.retry_count < (apply p now f s.context).1.retry_count)
      × ((apply p now f s.context).1.retry_count ≤ p.max_retries)
unfolding apply classify set_status
retry_counted p now f s h = (ground arith, ground arith)

moved_decision :
    (c : ExecutionContext) (r : Result Exception ExecutionContext) (d x : RecoveryDecision)
    → (moved c r d).0 ≡ ok x
    → x.action ≡ d.action
moved_decision c (ok c') d x e = ground (arith, e)
moved_decision c (err q) d x e = absurd (ground (arith, e))

move_decision :
    (now : ℕ) (o : Option ExecutionStatus) (c : ExecutionContext) (d x : RecoveryDecision)
    → (move_status now o c d).0 ≡ ok x
    → x.action ≡ d.action
move_decision now none c d x e = ground (arith, e)
move_decision now (some s) c d x e = moved_decision c (set_status now s c) d x e

pub apply_decision :
    (p : RecoveryPolicy) (now : ℕ) (f : FailureClass) (s : World) (d : RecoveryDecision)
    → (apply p now f s.context).0 ≡ ok d
    → d.action ≡ (classify p f s.context).action
unfolding apply
apply_decision p now f s d e =
    let c = classify p f s.context in
    move_decision now (action_status c.action)
      (count_attempt c.action (record_failure f c s.context)) c d e
