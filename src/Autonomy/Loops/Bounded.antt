-- ===== src/Autonomy/Loops/Bounded.antt =====
-- How often the autonomous loop executes a workflow (ois/autonomy/loops.py, ois/autonomy/recovery.py).
use Prim.Native.Nat.{min}
use mathlib.Core.Path.{subst}
use niceone_obsidian.Prelude.{
  ℕ, zero, suc, ◌+◌, ◌-◌, ◌<◌, ◌≤◌, String, ◌≡◌, ◌⊎◌, refl, inl, inr, Bool, true, false, Option,
  none, some, arith, leb, ltb, if◌then◌else◌, Bool-cases,
}
use niceone_obsidian.Prelude.Values.{Value}
use niceone_obsidian.Prelude.Exec.{Result, ok, err}
use niceone_obsidian.Kernel.Errors.{Exception}
use niceone_obsidian.Autonomy.Approvals.{EventEnvelope}
use niceone_obsidian.Autonomy.Workflows.{SourceWorkflow, failure}
use niceone_obsidian.Autonomy.Recovery.{decide, choose_action}
use niceone_obsidian.Autonomy.Loops.{
  LoopDecision, LoopWorld, AutonomousLoop, Runner, runner_of, Decided, decision, recovering,
  finished, recovered, attempted, is_retry, attempts, run,
}
use niceone_obsidian.Autonomy.Loops.Cleared.{Permitted, run-Permitted}

-- So many executions that fail, one after the other, lead from a state to another.
pub data Failing {W : Type 0} (call : LoopWorld W → Result Exception Value × LoopWorld W)
    : ℕ → LoopWorld W → LoopWorld W → Type 0 where
  stay : (s : LoopWorld W) → Failing call 0 s s
  fails :
      (n : ℕ) (s t u : LoopWorld W) (x : Exception)
      → call s ≡ (err x, t)
      → Failing call n t u
      → Failing call (suc n) s u

module _ {W : Type 0} (runner : Runner W) (w : SourceWorkflow (LoopWorld W))
    (e : EventEnvelope) where
  -- After fewer failures than the limit an execution succeeds, and the loop is done with its result; or
  -- as many executions as the limit fail, and the loop reports that it is recovering.
  abbrev pub Ends : ℕ → LoopWorld W → Decided W → Type 0
  Ends limit s out =
      ((n : ℕ) × (t : LoopWorld W) × (u : LoopWorld W) × (v : Value) × (n < limit)
        × Failing (runner w e) n s t
        × (runner w e t ≡ (ok v, u))
        × (out ≡ finished w e v u))
      ⊎ ((t : LoopWorld W) × (d : LoopDecision) × Failing (runner w e) limit s t
          × (out.0 ≡ ok d)
          × (d.state ≡ recovering)
          × (out.1.world ≡ t.world))

  -- One failure more before what ends.
  Ends-failed :
      (limit : ℕ) (s t : LoopWorld W) (x : Exception) (out : Decided W)
      → runner w e s ≡ (err x, t)
      → Ends limit t out
      → Ends (suc limit) s out
  Ends-failed limit s t x out p (inl (n, t', u, v, l, f, g, q)) =
      inl (suc n, t', u, v, omega arith, fails n s t t' x p f, g, q)
  Ends-failed limit s t x out p (inr (t', d, f, q, r, k)) =
      inr (t', d, fails limit s t t' x p f, q, r, k)

  choose_retry : (m a : ℕ) → is_retry (choose_action m a "transient" true) ≡ leb a m
  choose_retry m a = ground arith

  -- What follows a failed attempt: another one while the attempts are within the limit of retries.
  abbrev given_up : EventEnvelope → Exception → LoopWorld W → Decided W
  given_up e x t = (
    ok (
        decision recovering (some (failure (t.uuids t.drawn) w e x))
          "recovery decision for transient"),
    record t { drawn = suc t.drawn },
  )

  recovered_lem :
      (m a : ℕ) (x : Exception) (t : LoopWorld W) (more : LoopWorld W → Decided W)
      → 1 ≤ a
      → recovered w e x t (decide m a "transient" true) more
        ≡ (if leb a m then more t else given_up e x t)
  unfolding decide
  recovered_lem m a x t more l =
      let y : ltb a 1 ≡ false = ground arith in rw (y, choose_retry m a) refl

  -- The rounds after a failed attempt.
  failed_end :
      (m r a limit : ℕ) (s t : LoopWorld W) (x : Exception)
      → 1 ≤ a
      → a ≤ suc m
      → limit ≡ min (suc r) (2 + m - a)
      → runner w e s ≡ (err x, t)
      → (a ≤ m → Ends (limit - 1) t (attempts m runner w e r (a + 1) t))
      → Ends limit s (if leb a m then attempts m runner w e r (a + 1) t else given_up e x t)
  failed_end m r a limit s t x l u k p more = elim (Bool-cases (leb a m)) [
    | inl y ↦ rw y (
        let same : suc (limit - 1) ≡ limit = ground (arith, k, y) in
        subst (λ n. Ends n s (attempts m runner w e r (a + 1) t)) same
          (Ends-failed (limit - 1) s t x _ p (more (ground (arith, y)))))
    | inr n ↦ rw n (
        let one : 1 ≡ limit = ground (arith, k, n, u) in
        subst (λ n. Ends n s (given_up e x t)) one
          (inr (t, (given_up_decision x t), fails 0 s t t x p (stay t), refl, refl, refl)))
  ]
    where
      given_up_decision : Exception → LoopWorld W → LoopDecision
      given_up_decision x t =
          decision recovering (some (failure (t.uuids t.drawn) w e x))
            "recovery decision for transient"

  attempts_end :
      (max_retries rounds attempt limit : ℕ) (s : LoopWorld W)
      → 1 ≤ attempt
      → attempt ≤ suc max_retries
      → limit ≡ min rounds (2 + max_retries - attempt)
      → Ends limit s (attempts max_retries runner w e rounds attempt s)
  unfolding attempts
  attempts_end m zero a limit s l u k =
      let none_left : 0 ≡ limit = ground (arith, k) in
      subst (λ n. Ends n s (attempts m runner w e zero a s)) none_left
        (inr (
          s,
          decision recovering none "recovery attempt limit exhausted",
          stay s,
          refl,
          refl,
          refl,
        ))
  attempts_end m (suc r) a limit s l u k =
      go (λ t y. attempts_end m r (a + 1) (limit - 1) t (omega arith) (omega arith) (omega arith))
        (runner w e s) refl
    where
      go :
          ((t : LoopWorld W) → a ≤ m → Ends (limit - 1) t (attempts m runner w e r (a + 1) t))
          → (o : Result Exception Value × LoopWorld W) → runner w e s ≡ o
          → Ends limit s (attempted m a w e (λ t. attempts m runner w e r (a + 1) t) o)
      go more (ok v, t) p = inl (0, s, t, v, ground (arith, k, u), stay s, p, refl)
      go more (err x, t) p =
          rw (recovered_lem m a x t (λ t. attempts m runner w e r (a + 1) t) l)
            (failed_end m r a limit s t x l u k p (more t))

module _ {W : Type 0} where
  -- A permitted call of `run` executes the workflow until it succeeds, and at most `max_iterations` times
  -- and once more than `max_retries`. It returns the result of the first execution that succeeds, or,
  -- after as many failures as that limit, that it is recovering.
  pub run_bounded :
      (str : Value → String) (l : AutonomousLoop) (w : SourceWorkflow (LoopWorld W))
      (e : EventEnvelope) (granted : Bool) (execute : Option (Runner W)) (s : LoopWorld W)
      → Permitted str l w e granted
      → Ends
          (runner_of execute)
          w
          e
          (min l.max_iterations (suc l.max_retries))
          s
          (run str l w e execute granted s)
  run_bounded str l w e granted execute s p = rw (run-Permitted str l w e granted execute s p) (
      attempts_end (runner_of execute) w e l.max_retries l.max_iterations 1 _ s (omega arith)
        (omega arith) (omega arith))
