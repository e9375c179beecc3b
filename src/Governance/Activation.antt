-- ===== src/Governance/Activation.antt =====
-- ois/governance/activation.py: the gate of a capability's activation.
use niceone_obsidian.Prelude.{String, ◌≡◌, Bool, true, false, not, ◌&&◌, ◌||◌, arith, if◌then◌else◌}
use niceone_obsidian.Prelude.Exec.{Result, ok, err}
use niceone_obsidian.Kernel.Errors.{Exception, exception, other}
use Prim.Native.String.{◌++◌}

pub data ActivationState : Type 0 where
  off shadow canary limited production rollback : ActivationState

abbrev pub state_value : ActivationState → String
state_value off = "OFF"
state_value shadow = "SHADOW"
state_value canary = "CANARY"
state_value limited = "LIMITED"
state_value production = "PRODUCTION"
state_value rollback = "ROLLBACK"

pub record ActivationEvidence : Type 0 where
  pub implementation_verified : Bool
  pub tests_passed : Bool
  pub integration_verified : Bool
  pub deployment_verified : Bool
  pub production_verified : Bool
  pub policy_authorized : Bool
  pub rollback_ready : Bool

-- `target in {OFF, SHADOW}` and `target not in {LIMITED, PRODUCTION}`
abbrev pub is_harmless : ActivationState → Bool
is_harmless off = true
is_harmless shadow = true
is_harmless _ = false

abbrev pub is_wide : ActivationState → Bool
is_wide limited = true
is_wide production = true
is_wide _ = false

-- CapabilityActivationGate.can_activate
unfoldable pub can_activate : ActivationEvidence → ActivationState → Bool
can_activate e target =
    if is_harmless target
    then true
    else (e.implementation_verified
        && (e.tests_passed
            && (e.integration_verified
                && (e.deployment_verified && (e.policy_authorized && e.rollback_ready)))))
      && (not (is_wide target) || e.production_verified)

-- CapabilityActivationGate.require
unfoldable pub require_activation :
    ActivationEvidence → ActivationState → Result Exception (Unit {0})
unfolding can_activate
require_activation e target =
    if can_activate e target
    then ok tt
    else err
        (exception (other "ActivationError") ("activation gate failed for " ++ state_value target))

-- Evidence that passes the gate of PRODUCTION passes the gate of every state.
production_suffices :
    (e : ActivationEvidence) (target : ActivationState)
    → require_activation e production ≡ ok tt
    → require_activation e target ≡ ok tt
unfolding require_activation
production_suffices e target h = ground arith
