-- ===== src/Autonomy/Recovery.antt =====
-- ois/autonomy/recovery.py: FailureRecovery. Its limit is not negative.
use niceone_obsidian.Prelude.{ℕ, String, Bool, ◌&&◌, ◌||◌, ltb, leb, str_eq, if◌then◌else◌}
use niceone_obsidian.Prelude.Exec.{Result, ok, err}
use niceone_obsidian.Kernel.Errors.{Exception, exception, value_error}
use Prim.Native.String.{◌++◌ as text_append}

pub data RecoveryAction : Type 0 where
  retry pause replan escalate stop : RecoveryAction

pub record RecoveryRecord : Type 0 where
  pub workflow_id : String
  pub event_id : String
  pub attempt : ℕ
  pub action : RecoveryAction
  pub reason : String

abbrev pub choose_action : ℕ → ℕ → String → Bool → RecoveryAction
choose_action max_retries attempt failure safe =
    if str_eq failure "safety"
    then stop
    else if str_eq failure "permission" || str_eq failure "approval"
    then escalate
    else if str_eq failure "plan"
    then replan
    else if (str_eq failure "transient" || str_eq failure "timeout")
        && (safe && leb attempt max_retries)
    then retry
    else if str_eq failure "state"
    then pause
    else escalate

-- FailureRecovery.decide
unfoldable pub decide : ℕ → ℕ → String → Bool → Result Exception RecoveryRecord
decide max_retries attempt failure safe =
    if ltb attempt 1
    then err (exception value_error "attempt must be positive")
    else ok (record {
      workflow_id = "";
      event_id = "";
      attempt = attempt;
      action = choose_action max_retries attempt failure safe;
      reason = text_append "recovery decision for " failure;
    })
