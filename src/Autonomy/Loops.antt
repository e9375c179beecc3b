-- ===== src/Autonomy/Loops.antt =====
-- ois/autonomy/loops.py: AutonomousLoop. The state is the approval gate, the clock, the supply of UUIDs and
-- whatever else the caller's `execute` acts on; `execute` may change all of it, and may raise.
pub mod Cleared
pub mod Bounded
use niceone_obsidian.Prelude.{
  ℕ, zero, suc, ◌+◌, String, Bool, true, false, Option, none, some, List, ltb, if◌then◌else◌,
}
use niceone_obsidian.Prelude.Values.{Value, Fields, text, set_field}
use niceone_obsidian.Prelude.Exec.{Exec, Result, ok, err}
use niceone_obsidian.Kernel.Errors.{Exception, exception, value_error}
use niceone_obsidian.Autonomy.Approvals.{
  EventEnvelope, ApprovalGate, ApprovalQuestion, ApprovalRequest, request,
}
use niceone_obsidian.Autonomy.Policy.{
  PolicyRule, PolicyOutcome, PolicyEvaluation, allow, deny, approval_required, evaluate,
}
use niceone_obsidian.Autonomy.Workflows.{
  SourceWorkflow, WorkflowRun, workflow_matches, success, failure,
}
use niceone_obsidian.Autonomy.Recovery.{RecoveryAction, RecoveryRecord, retry, decide}

pub data LoopState : Type 0 where
  idle running waiting_approval recovering stopped : LoopState

pub record LoopDecision : Type 0 where
  pub state : LoopState
  pub workflow_run : Option WorkflowRun
  pub approval_id : Option String
  pub reason : String

pub record LoopWorld (W : Type 0) : Type 0 where
  pub gate : ApprovalGate
  pub now : ℕ
  pub uuids : ℕ → String
  pub drawn : ℕ
  pub world : W

-- The fields of an AutonomousLoop but its gate; `max_retries` is its recovery's.
pub record AutonomousLoop : Type 0 where
  pub policy : List PolicyRule
  pub max_retries : ℕ
  pub max_iterations : ℕ

-- AutonomousLoop.__init__
unfoldable pub new_loop : List PolicyRule → ℕ → ℕ → Result Exception AutonomousLoop
new_loop policy max_retries max_iterations =
    if ltb max_iterations 1
    then err (exception value_error "max_iterations must be positive")
    else ok (record { policy = policy; max_retries = max_retries; max_iterations = max_iterations })

abbrev pub decision : LoopState → Option WorkflowRun → String → LoopDecision
decision state run reason = record {
  state = state;
  workflow_run = run;
  approval_id = none;
  reason = reason;
}

-- `{**event.payload, "event_type": event.event_type}`
unfoldable pub policy_context : EventEnvelope → Fields
unfolding set_field
policy_context e = set_field e.payload "event_type" (text e.event_type)

abbrev pub question : String → String → EventEnvelope → ApprovalQuestion
question workflow_id reason e = record {
  tenant_id = e.tenant_id;
  workspace_id = e.workspace_id;
  workflow_id = workflow_id;
  event_id = e.event_id;
  event = some e;
  reason = reason;
}

abbrev pub is_retry : RecoveryAction → Bool
is_retry retry = true
is_retry _ = false

abbrev pub Runner : Type 0 → Type 0
Runner W = SourceWorkflow (LoopWorld W) → EventEnvelope → Exec (LoopWorld W) Exception Value

-- What a call comes to, and the state after it.
abbrev pub Decided : Type 0 → Type 0
Decided W = Result Exception LoopDecision × LoopWorld W

module _ {W : Type 0} where
  -- The request of an approval.
  abbrev pub awaited : LoopWorld W → Result Exception ApprovalRequest × ApprovalGate → Decided W
  awaited s (ok r, g) = (
    ok (record {
      state = waiting_approval;
      workflow_run = none;
      approval_id = some r.approval_id;
      reason = "";
    }),
    record s { gate = g; drawn = suc s.drawn },
  )
  awaited s (err x, g) = (err x, record s { gate = g; drawn = suc s.drawn })

  unfoldable pub ask :
      SourceWorkflow (LoopWorld W) → EventEnvelope → String → LoopWorld W → Decided W
  unfolding request
  ask w e reason s =
      awaited s (request s.now (s.uuids s.drawn) (question w.workflow_id reason e) s.gate)

  -- What follows a failed attempt, given the further rounds.
  abbrev pub recovered :
      SourceWorkflow (LoopWorld W)
      → EventEnvelope
      → Exception
      → LoopWorld W
      → Result Exception RecoveryRecord
      → (LoopWorld W → Decided W)
      → Decided W
  recovered w e x s (err y) more = (err y, s)
  recovered w e x s (ok d) more = if is_retry d.action then more s else (
    ok (decision recovering (some (failure (s.uuids s.drawn) w e x)) d.reason),
    record s { drawn = suc s.drawn },
  )

  abbrev pub finished :
      SourceWorkflow (LoopWorld W) → EventEnvelope → Value → LoopWorld W → Decided W
  finished w e v s = (
    ok (decision idle (some (success (s.uuids s.drawn) w e v)) "workflow completed"),
    record s { drawn = suc s.drawn },
  )

  -- What follows an attempt.
  abbrev pub attempted :
      ℕ
      → ℕ
      → SourceWorkflow (LoopWorld W)
      → EventEnvelope
      → (LoopWorld W → Decided W)
      → Result Exception Value × LoopWorld W
      → Decided W
  attempted max_retries attempt w e more (ok v, s) = finished w e v s
  attempted max_retries attempt w e more (err x, s) =
      recovered w e x s (decide max_retries attempt "transient" true) more

  module _ (max_retries : ℕ) (runner : Runner W) (w : SourceWorkflow (LoopWorld W))
      (e : EventEnvelope) where
    -- The rounds that are left, from an attempt on.
    unfoldable pub attempts : ℕ → ℕ → LoopWorld W → Decided W
    unfolding success failure decide
    attempts zero attempt s = (ok (decision recovering none "recovery attempt limit exhausted"), s)
    attempts (suc rounds) attempt s =
        attempted max_retries attempt w e (λ t. attempts rounds (attempt + 1) t) (runner w e s)

  -- `execute or default_runner`
  abbrev pub runner_of : Option (Runner W) → Runner W
  runner_of none w e = w.action e
  runner_of (some execute) w e = execute w e

  module _ (str : Value → String) where
    abbrev pub evaluated :
        AutonomousLoop
        → SourceWorkflow (LoopWorld W)
        → EventEnvelope
        → Option (Runner W)
        → Bool
        → LoopWorld W
        → Result Exception PolicyEvaluation
        → Decided W
    evaluated l w e execute granted s (err x) = (err x, s)
    evaluated l w e execute granted s (ok k) = elim k.outcome [
      | deny ↦ (ok (decision stopped none k.reason), s)
      | allow ↦ attempts l.max_retries (runner_of execute) w e l.max_iterations 1 s
      | approval_required ↦
          if granted
          then attempts l.max_retries (runner_of execute) w e l.max_iterations 1 s
          else ask w e k.reason s
    ]

    -- AutonomousLoop.run
    unfoldable pub run :
        AutonomousLoop
        → SourceWorkflow (LoopWorld W)
        → EventEnvelope
        → Option (Runner W)
        → Bool
        → LoopWorld W
        → Decided W
    run l w e execute granted s =
        if workflow_matches w e
        then evaluated l w e execute granted s (evaluate str l.policy (policy_context e))
        else (ok (decision stopped none "workflow trigger did not match"), s)
