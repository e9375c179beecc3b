-- ===== src/Kernel/Supervision.antt =====
-- ois/kernel/supervisor.py, Supervisor.decide and Supervisor.inspect: what to do next about an
-- execution. A failure is a member of FailureClass or a text.
use Prim.Native.Char.{code}
use Prim.Native.String.{[] as empty, ◌∷◌ as char_cons, ◌++◌}
use niceone_obsidian.Prelude.{
  ℕ, String, ◌≡◌, refl, ◌↔◌, Bool, true, false, not, ◌&&◌, ◌||◌, Option, none, some, arith, leb,
  nat_eq, str_eq, if◌then◌else◌,
}
use niceone_obsidian.Kernel.Types.{FailureClass, failure_value}
use niceone_obsidian.Kernel.State.{ExecutionContext}
use niceone_obsidian.Kernel.Recovery.{RecoveryPolicy, classify, action_value}

pub data Failure : Type 0 where
  classed : FailureClass → Failure
  named : String → Failure

pub record SupervisionRequest : Type 0 where
  pub objective : String
  pub plan_validated : Bool
  pub authorized : Bool
  pub status : String
  pub failure : Option Failure
  pub retry_allowed : Bool
  pub recovery_allowed : Bool
  pub approval_required : Bool
  pub approval_granted : Bool

pub record SupervisionDecision : Type 0 where
  pub action : String
  pub reason : String
  pub terminal : Bool

abbrev decision : String → String → Bool → SupervisionDecision
decision a r t = record { action = a; reason = r; terminal = t }

-- Python's `str.isspace` on a character's code point
abbrev is_space : ℕ → Bool
is_space n =
    (leb 9 n && leb n 13)
    || ((leb 28 n && leb n 32)
        || (nat_eq n 133
            || (nat_eq n 160
                || (nat_eq n 5760
                    || ((leb 8192 n && leb n 8202)
                        || (nat_eq n 8232
                            || (nat_eq n 8233
                                || (nat_eq n 8239 || (nat_eq n 8287 || nat_eq n 12288)))))))))

-- `not s.strip()`
unfoldable pub is_blank : String → Bool
is_blank empty = true
is_blank (char_cons c s) = is_space (code c) && is_blank s

-- `status in {"completed", "success", "succeeded"}`
abbrev pub is_done : String → Bool
is_done s = str_eq s "completed" || (str_eq s "success" || str_eq s "succeeded")

-- `getattr(failure, "value", failure)`
unfoldable pub value_of : Failure → String
value_of (classed f) = failure_value f
value_of (named s) = s

abbrev pub has_value : Option Failure → String → Bool
has_value none s = false
has_value (some f) s = str_eq (value_of f) s

abbrev pub no_action : Option Failure → SupervisionDecision
no_action none = decision "execute" "plan is authorized and ready" false
no_action (some f) =
    decision "escalate" ("failure " ++ (value_of f ++ " has no safe automatic action")) false

-- Supervisor.decide
unfoldable pub decide : SupervisionRequest → SupervisionDecision
decide r =
    if is_blank r.objective
    then decision "stop" "objective is required" true
    else if r.approval_required && not r.approval_granted
    then decision "escalate" "human approval is required before execution" false
    else if not r.authorized
    then decision "escalate" "authorization is not granted by the execution boundary" false
    else if not r.plan_validated
    then decision "replan" "execution plan has not passed validation" false
    else if is_done r.status
    then decision "complete" "execution completed successfully" true
    else if has_value r.failure "safety"
    then decision "stop" "safety failures terminate execution" true
    else if has_value r.failure "permission"
    then decision "escalate" "permission failures require escalation" false
    else if has_value r.failure "plan"
    then decision "replan" "plan failure requires a new executable plan" false
    else if r.retry_allowed
    then decision "retry" "bounded retry is permitted by recovery policy" false
    else if r.recovery_allowed
    then decision "replan" "bounded recovery is permitted; replan before continuing" false
    else no_action r.failure

abbrev pub inspect_failure :
    RecoveryPolicy → ExecutionContext → Option FailureClass → SupervisionDecision
inspect_failure p c none = decision "continue" "No failure is recorded." false
inspect_failure p c (some f) =
    let d = classify p f c in decision (action_value d.action) d.reason d.terminal

-- Supervisor.inspect
unfoldable pub inspect : RecoveryPolicy → ExecutionContext → SupervisionDecision
inspect p c = inspect_failure p c c.last_failure

-- The tests of `decide`, each passed or not.
abbrev chosen : (a b c d e x y z p q : Bool) → Option Failure → SupervisionDecision
chosen a b c d e x y z p q f =
    if a
    then decision "stop" "objective is required" true
    else if b
    then decision "escalate" "human approval is required before execution" false
    else if c
    then decision "escalate" "authorization is not granted by the execution boundary" false
    else if d
    then decision "replan" "execution plan has not passed validation" false
    else if e
    then decision "complete" "execution completed successfully" true
    else if x
    then decision "stop" "safety failures terminate execution" true
    else if y
    then decision "escalate" "permission failures require escalation" false
    else if z
    then decision "replan" "plan failure requires a new executable plan" false
    else if p
    then decision "retry" "bounded retry is permitted by recovery policy" false
    else if q
    then decision "replan" "bounded recovery is permitted; replan before continuing" false
    else no_action f

chosen_execute :
    (a b c d e x y z p q : Bool) (f : Option Failure)
    → ((chosen a b c d e x y z p q f).action ≡ "execute") ↔ (
        (a ≡ false)
        × (b ≡ false)
        × (c ≡ false)
        × (d ≡ false)
        × (e ≡ false)
        × (f ≡ none)
        × (x ≡ false)
        × (y ≡ false)
        × (z ≡ false)
        × (p ≡ false)
        × (q ≡ false))
chosen_execute true b c d e x y z p q f = (λ h. cc, λ h. cc)
chosen_execute false true c d e x y z p q f = (λ h. cc, λ h. cc)
chosen_execute false false true d e x y z p q f = (λ h. cc, λ h. cc)
chosen_execute false false false true e x y z p q f = (λ h. cc, λ h. cc)
chosen_execute false false false false true x y z p q f = (λ h. cc, λ h. cc)
chosen_execute false false false false false true y z p q f = (λ h. cc, λ h. cc)
chosen_execute false false false false false false true z p q f = (λ h. cc, λ h. cc)
chosen_execute false false false false false false false true p q f = (λ h. cc, λ h. cc)
chosen_execute false false false false false false false false true q f = (λ h. cc, λ h. cc)
chosen_execute false false false false false false false false false true f = (λ h. cc, λ h. cc)
chosen_execute false false false false false false false false false false none =
    (λ h. (refl, refl, refl, refl, refl, refl, refl, refl, refl, refl, refl), λ h. refl)
chosen_execute false false false false false false false false false false (some f) =
    (λ h. cc, λ h. cc)

-- The supervisor lets an execution run exactly when it has an objective, an approval if one is
-- required, an authorization and a validated plan, is not done, has no failure, and neither a retry
-- nor a recovery is allowed.
decide_execute :
    (r : SupervisionRequest)
    → ((decide r).action ≡ "execute") ↔ (
        (is_blank r.objective ≡ false)
        × ((not r.approval_required || r.approval_granted) ≡ true)
        × (r.authorized ≡ true)
        × (r.plan_validated ≡ true)
        × (is_done r.status ≡ false)
        × (r.failure ≡ none)
        × (r.retry_allowed ≡ false)
        × (r.recovery_allowed ≡ false))
unfolding decide
decide_execute r =
    let (to, from) =
      chosen_execute (is_blank r.objective) (r.approval_required && not r.approval_granted)
        (not r.authorized) (not r.plan_validated) (is_done r.status) (has_value r.failure "safety")
        (has_value r.failure "permission") (has_value r.failure "plan") r.retry_allowed
        r.recovery_allowed r.failure in
    (
      λ h.
          (let (a, b, c, d, e, f, x, y, z, p, q) = to h in
            (a, ground arith, ground arith, ground arith, e, f, p, q)),
      λ (a, b, c, d, e, f, p, q). from (
        a,
        ground arith,
        ground arith,
        ground arith,
        e,
        f,
        ground arith,
        ground arith,
        ground arith,
        p,
        q,
      ),
    )
