-- ===== src/Kernel/Recovery.antt =====
-- ois/kernel/recovery.py: what to do about a failure, and how long to wait before a retry.
-- A delay is counted in multiples of the smallest positive double, of which every finite
-- non-negative double is one; the doubling below is then exact, as it is in binary floating point.
pub mod Bounds
use niceone_obsidian.Prelude.{
  ℕ, suc, ◌+◌, ◌-◌, ◌*◌, ◌^◌, String, Bool, true, false, not, ◌≡◌, Option, none, some, ltb, leb,
  if◌then◌else◌,
}
use niceone_obsidian.Prelude.Int.{ℤ, pos, is_negative, int_ltb}
use niceone_obsidian.Prelude.Values.{Value, Fields, text, field, end}
use niceone_obsidian.Prelude.Exec.{Result, ok, err}
use niceone_obsidian.Kernel.Errors.{Exception, exception, value_error, overflow_error}
use niceone_obsidian.Kernel.Types.{
  ExecutionStatus, FailureClass, failure_value, transient, parameter, tool, plan, state, permission,
  safety, unknown,
}
use niceone_obsidian.Kernel.State.{ExecutionContext, set_status}
use Prim.Native.Nat.{min}

-- The actions of a decision, and the strings that they are in the source.
pub data Action : Type 0 where
  retry correct fallback replan recover escalate stop : Action

unfoldable pub action_value : Action → String
action_value retry = "retry"
action_value correct = "correct"
action_value fallback = "fallback"
action_value replan = "replan"
action_value recover = "recover"
action_value escalate = "escalate"
action_value stop = "stop"

pub record RecoveryDecision : Type 0 where
  pub failure : FailureClass
  pub action : Action
  pub retry_allowed : Bool
  pub terminal : Bool
  pub reason : String

pub record RecoveryBackoff : Type 0 where
  pub base_seconds : ℕ
  pub max_seconds : ℕ

-- The constructor with the checks of `__post_init__`; a negative bound is one below a base of 0.
unfoldable pub new_backoff : ℤ → ℤ → Result Exception RecoveryBackoff
new_backoff (ℤ.negsuc b) m = err (exception value_error "base_seconds must be >= 0")
new_backoff (pos b) (ℤ.negsuc m) = err (exception value_error "max_seconds must be >= base_seconds")
new_backoff (pos b) (pos m) =
    if ltb m b
    then err (exception value_error "max_seconds must be >= base_seconds")
    else ok (record { base_seconds = b; max_seconds = m })

-- `float(2 ** k)` raises OverflowError from k = 1024 on.
unfoldable pub float_pow2 : ℕ → Result Exception ℕ
float_pow2 k =
    if leb 1024 k
    then err (exception overflow_error "int too large to convert to float")
    else ok (2 ^ k)

abbrev pub bounded_delay : RecoveryBackoff → Result Exception ℕ → Result Exception ℕ
bounded_delay b (ok factor) = ok (min b.max_seconds (b.base_seconds * factor))
bounded_delay b (err e) = err e

unfoldable pub delay : RecoveryBackoff → ℤ → Result Exception ℕ
unfolding float_pow2
delay b (ℤ.negsuc n) = err (exception value_error "retry_number must be >= 1")
delay b (pos n) =
    if ltb n 1
    then err (exception value_error "retry_number must be >= 1")
    else bounded_delay b (float_pow2 (n - 1))

pub record RecoveryPolicy : Type 0 where
  pub max_retries : ℕ
  pub max_recovery_attempts : ℕ

unfoldable pub new_policy : ℤ → ℤ → Result Exception RecoveryPolicy
new_policy (ℤ.negsuc r) a = err (exception value_error "max_retries must be >= 0")
new_policy (pos r) (ℤ.negsuc a) = err (exception value_error "max_recovery_attempts must be >= 0")
new_policy (pos r) (pos a) = ok (record { max_retries = r; max_recovery_attempts = a })

abbrev pub decision : FailureClass → Action → Bool → Bool → String → RecoveryDecision
decision f a r t why = record {
  failure = f;
  action = a;
  retry_allowed = r;
  terminal = t;
  reason = why;
}

unfoldable pub classify : RecoveryPolicy → FailureClass → ExecutionContext → RecoveryDecision
classify p transient c =
    let allowed = ltb c.retry_count p.max_retries in
    decision transient (if allowed then retry else escalate) allowed (not allowed)
      (if allowed then "Transient failure is retryable." else "Transient retry limit exhausted.")
classify p parameter c =
    decision parameter correct false false "Parameters require correction before retry."
classify p tool c =
    decision tool fallback false false "Tool failure should use an alternative capability."
classify p plan c = decision plan replan false false "Plan failure requires replanning."
classify p state c =
    let allowed = ltb c.recovery_attempts p.max_recovery_attempts in
    decision state (if allowed then recover else escalate) false (not allowed)
      (if allowed then "State recovery is permitted." else "State recovery limit exhausted.")
classify p permission c =
    decision permission escalate false false "Permission failures require escalation."
classify p safety c = decision safety stop false true "Safety failures must terminate execution."
classify p unknown c = decision unknown escalate false false "Unknown failure requires escalation."

-- The counter that an action advances.
abbrev pub count_attempt : Action → ExecutionContext → ExecutionContext
count_attempt retry c = record c { retry_count = c.retry_count + 1 }
count_attempt recover c = record c { recovery_attempts = c.recovery_attempts + 1 }
count_attempt replan c = record c { recovery_attempts = c.recovery_attempts + 1 }
count_attempt _ c = c

-- The status that an action moves the context to, if it moves it.
abbrev pub action_status : Action → Option ExecutionStatus
action_status retry = some ExecutionStatus.recovering
action_status recover = some ExecutionStatus.recovering
action_status replan = some ExecutionStatus.replanning
action_status escalate = some ExecutionStatus.escalated
action_status stop = some ExecutionStatus.stopped
action_status _ = none

-- `set_status` as a method: the context stays as it was when it raises.
abbrev pub moved :
    ExecutionContext
    → Result Exception ExecutionContext
    → RecoveryDecision
    → Result Exception RecoveryDecision × ExecutionContext
moved c (ok c') d = (ok d, c')
moved c (err e) d = (err e, c)

abbrev pub move_status :
    ℕ
    → Option ExecutionStatus
    → ExecutionContext
    → RecoveryDecision
    → Result Exception RecoveryDecision × ExecutionContext
move_status now none c d = (ok d, c)
move_status now (some s) c d = moved c (set_status now s c) d

abbrev pub record_failure : FailureClass → RecoveryDecision → ExecutionContext → ExecutionContext
record_failure f d c = record c {
  last_failure = some f;
  error = some (
      field "failure_class" (text (failure_value f)) (
        field "recovery_action" (text (action_value d.action))
          (field "reason" (text d.reason) end)));
}

unfoldable pub apply :
    RecoveryPolicy
    → ℕ
    → FailureClass
    → ExecutionContext
    → Result Exception RecoveryDecision × ExecutionContext
unfolding classify set_status
apply p now f c =
    let d = classify p f c in
    move_status now (action_status d.action) (count_attempt d.action (record_failure f d c)) d
