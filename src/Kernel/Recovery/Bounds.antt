-- ===== src/Kernel/Recovery/Bounds.antt =====
-- Bounds on retries and on the backoff (recovery.py).
use Prim.Native.Nat.{min}
use native.Mathlib.Nat.{pow-suc}
use native.Mathlib.Decide.{dec_le}
use niceone_obsidian.Prelude.{
  ℕ, zero, suc, ◌+◌, ◌-◌, ◌*◌, ◌^◌, ◌≤◌, ◌≡◌, Bool, true, false, some, List, [], ◌∷◌, arith,
  or_else, ◌↔◌, if◌then◌else◌,
}
use niceone_obsidian.Prelude.Int.{pos}
use niceone_obsidian.Prelude.Exec.{ok}
use niceone_obsidian.Kernel.Types.{FailureClass}
use niceone_obsidian.Kernel.State.{ExecutionContext, is_terminal, set_status}
use niceone_obsidian.Kernel.Recovery.{
  RecoveryPolicy, RecoveryBackoff, Action, retry, recover, replan, apply, classify, delay,
  new_backoff, action_status,
}

-- Failures one after another, each handled by `apply`; and how many were answered by a retry.
unfoldable pub apply_all :
    RecoveryPolicy → ℕ → List FailureClass → ExecutionContext → ExecutionContext
apply_all p now [] c = c
apply_all p now (f ∷ fs) c = apply_all p now fs (apply p now f c).1

abbrev pub is_retry : Action → Bool
is_retry retry = true
is_retry _ = false

-- The actions that `apply` counts.
abbrev pub is_counted : Action → Bool
is_counted retry = true
is_counted recover = true
is_counted replan = true
is_counted _ = false

unfoldable pub count_retries : RecoveryPolicy → ℕ → List FailureClass → ExecutionContext → ℕ
count_retries p now [] c = 0
count_retries p now (f ∷ fs) c =
    let rest = count_retries p now fs (apply p now f c).1 in
    if is_retry (classify p f c).action then suc rest else rest

retry_step :
    (p : RecoveryPolicy) (now : ℕ) (f : FailureClass) (c : ExecutionContext)
    → c.retry_count ≤ p.max_retries
    → ((apply p now f c).1.retry_count ≤ p.max_retries)
      × ((if is_retry (classify p f c).action then 1 else 0) + c.retry_count
          ≡ (apply p now f c).1.retry_count)
unfolding apply classify
retry_step p now f c h = (ground arith, ground arith)

-- However many failures of whatever classes follow one another, at most `max_retries` of them are
-- answered by a retry, counting the retries of the context before, if those are within the limit.
pub retries_bounded :
    (p : RecoveryPolicy) (now : ℕ) (fs : List FailureClass) (c : ExecutionContext)
    → c.retry_count ≤ p.max_retries
    → count_retries p now fs c + c.retry_count ≤ p.max_retries
unfolding count_retries
retries_bounded p now [] c h = omega arith
retries_bounded p now (f ∷ fs) c h =
    ground (arith, retry_step p now f c h, retries_bounded p now fs (apply p now f c).1)

-- On a context that is not terminal `apply` returns the decision of `classify`, records the failure,
-- counts the attempt, and moves the status to the one that the action stands for, if it has one.
apply_live :
    (p : RecoveryPolicy) (now : ℕ) (f : FailureClass) (c : ExecutionContext)
    → is_terminal c.status ≡ false
    → let (r, c') = apply p now f c in
      (r ≡ ok (classify p f c))
      × (c'.last_failure ≡ some f)
      × (c'.retry_count + c'.recovery_attempts
          ≡ (if is_counted (classify p f c).action then 1 else 0)
            + (c.retry_count + c.recovery_attempts))
      × (c'.status ≡ or_else (action_status (classify p f c).action) c.status)
unfolding apply classify set_status
apply_live p now FailureClass.transient c h =
    (ground arith, ground arith, ground arith, ground arith)
apply_live p now FailureClass.parameter c h =
    (ground arith, ground arith, ground arith, ground arith)
apply_live p now FailureClass.tool c h = (ground arith, ground arith, ground arith, ground arith)
apply_live p now FailureClass.plan c h = (ground arith, ground arith, ground arith, ground arith)
apply_live p now FailureClass.state c h = (ground arith, ground arith, ground arith, ground arith)
apply_live p now FailureClass.permission c h =
    (ground arith, ground arith, ground arith, ground arith)
apply_live p now FailureClass.safety c h = (ground arith, ground arith, ground arith, ground arith)
apply_live p now FailureClass.unknown c h = (ground arith, ground arith, ground arith, ground arith)

pow_pos : (k : ℕ) → 1 ≤ 2 ^ k
pow_pos zero = omega arith
pow_pos (suc k) = rw pow-suc (omega (arith, pow_pos k))

pow_mono : (j k : ℕ) → j ≤ k → 2 ^ j ≤ 2 ^ k
pow_mono j zero h = let e : j ≡ 0 = omega arith in rw e (omega arith)
pow_mono j (suc k) h = elim (dec_le j k) [
  | yes l ↦ rw pow-suc (omega (arith, pow_mono j k l))
  | no l ↦ let e : j ≡ suc k = omega arith in rw e (omega arith)
]

capped_bounds :
    (base cap f : ℕ) → base ≤ cap → 1 ≤ f → (base ≤ min cap (base * f)) × (min cap (base * f) ≤ cap)
capped_bounds base cap f h g = grind arith

capped_mono : (base cap f g : ℕ) → f ≤ g → min cap (base * f) ≤ min cap (base * g)
capped_mono base cap f g h = grind arith

-- The delay of a retry that has one.
delay_value :
    (b : RecoveryBackoff) (n d : ℕ)
    → delay b (pos n) ≡ ok d
    → (1 ≤ n) × (n ≤ 1024) × (d ≡ min b.max_seconds (b.base_seconds * 2 ^ (n - 1)))
unfolding delay
delay_value b n d e = (ground arith, ground arith, ground arith)

delay_within :
    (b : RecoveryBackoff) (n : ℕ)
    → 1 ≤ n
    → n ≤ 1024
    → delay b (pos n) ≡ ok (min b.max_seconds (b.base_seconds * 2 ^ (n - 1)))
unfolding delay
delay_within b n l u = ground arith

-- Where a retry has a delay, it lies between the base and the maximum of a backoff that its
-- constructor accepts.
delay_bounds :
    (base cap : ℕ) (b : RecoveryBackoff) (n d : ℕ)
    → new_backoff (pos base) (pos cap) ≡ ok b
    → delay b (pos n) ≡ ok d
    → (base ≤ d) × (d ≤ cap)
unfolding new_backoff
delay_bounds base cap b n d h e =
    let (l, u, v) = delay_value b n d e in
    ground (arith, v, capped_bounds base cap (2 ^ (n - 1)), pow_pos (n - 1))

-- Of two retries that have a delay, the later one does not wait less.
delay_mono :
    (b : RecoveryBackoff) (n m d x : ℕ)
    → n ≤ m
    → delay b (pos n) ≡ ok d
    → delay b (pos m) ≡ ok x
    → d ≤ x
delay_mono b n m d x l e f =
    let (a, u, v) = delay_value b n d e in
    let (c, w, y) = delay_value b m x f in
    omega (
      arith,
      v,
      y,
      capped_mono b.base_seconds b.max_seconds (2 ^ (n - 1)) (2 ^ (m - 1))
          (pow_mono (n - 1) (m - 1) (omega arith)),
    )

-- A retry number has a delay exactly from 1 to 1024: retry 0 is refused, and from retry 1025 on the
-- conversion of the power to a float overflows, although the maximum bounds the delay.
pub delay_defined :
    (b : RecoveryBackoff) (n : ℕ) → ((d : ℕ) × (delay b (pos n) ≡ ok d)) ↔ ((1 ≤ n) × (n ≤ 1024))
delay_defined b n = (
  λ (d, e). (let (l, u, v) = delay_value b n d e in (l, u)),
  λ (l, u). (min b.max_seconds (b.base_seconds * 2 ^ (n - 1)), delay_within b n l u),
)
