-- ===== src/Production/Rollout.antt =====
-- production/rollout.py: RolloutController, which promotes or rolls back by the canary's decision, and the
-- operations on the control plane as data. RolloutController takes its evidence ledger and its control
-- plane, which has one too, as separate arguments: here both are the one ledger of the control plane.
pub mod Authorized
pub mod Runs
pub mod Outcome
use niceone_obsidian.Prelude.{ℕ, String, Option, List, [], ◌∷◌, ◌++◌, if◌then◌else◌}
use niceone_obsidian.Prelude.Int.{pos}
use niceone_obsidian.Prelude.Values.{Items, Fields, int, text, array, nil, cons, end, field}
use niceone_obsidian.Prelude.Exec.{lift, pure, gets, ◌>>=◌, ◌>>◌}
use niceone_obsidian.Production.Access.{Subject}
use niceone_obsidian.Production.Evidence.{Hashing}
use niceone_obsidian.Production.Evolution.{
  Rates, Measurement, CanaryController, CanaryDecision, decide,
}
use niceone_obsidian.Production.Deployment.{Step, evidence_ids, record_evidence, activate, rollback}
use Prim.Native.String.{◌++◌ as text_append}

pub record RolloutResult (f : Rates) : Type 0 where
  pub candidate : String
  pub state : String
  pub canary : CanaryDecision f
  pub evidence_ids : List String

-- The arguments of `evaluate_and_rollout`.
pub record RolloutRequest (f : Rates) : Type 0 where
  pub subject : Subject
  pub candidate : String
  pub environment : String
  pub previous : String
  pub traffic_percent : ℕ
  pub successes : ℕ
  pub total : ℕ
  pub latency_ms : f.Rate
  pub measurements : List (Measurement f)

module _ {f : Rates} where
  abbrev pub rollout_id : RolloutRequest f → String
  rollout_id q = text_append "rollout:" (text_append q.candidate (text_append ":" q.environment))

  abbrev pub measured : List (Measurement f) → Items
  measured [] = nil
  measured (m ∷ ms) = cons (f.as_value m.value) (measured ms)

  abbrev pub judged : RolloutRequest f → CanaryDecision f → Fields
  judged q d =
      field "success_rate" (f.as_value d.success_rate)
        (field "latency_ms" (f.as_value q.latency_ms) end)

  module _ (h : Hashing) where
    -- What follows a canary that did not pass.
    unfoldable pub roll_back : RolloutRequest f → CanaryDecision f → Step (RolloutResult f)
    roll_back q d = do
      record_evidence h (rollout_id q) "rollout.canary.failed" (judged q d)
      back ← rollback h q.subject q.previous q.environment
      ids ← gets (evidence_ids (rollout_id q))
      pure (record {
        candidate = q.candidate;
        state = "ROLLED_BACK";
        canary = d;
        evidence_ids = ids ++ back.evidence_ids;
      })

    -- What follows a canary that passed.
    unfoldable pub promote : RolloutRequest f → CanaryDecision f → Step (RolloutResult f)
    promote q d = do
      record_evidence h (rollout_id q) "rollout.canary.passed" (judged q d)
      activate h q.subject q.candidate q.environment (Option.some q.previous)
      record_evidence h (rollout_id q) "rollout.promoted" (
          field "candidate" (text q.candidate)
            (field "measurements" (array (measured q.measurements)) end))
      ids ← gets (evidence_ids (rollout_id q))
      pure (record { candidate = q.candidate; state = "PROMOTED"; canary = d; evidence_ids = ids })

    -- RolloutController.evaluate_and_rollout
    unfoldable pub evaluate_and_rollout :
        CanaryController f → RolloutRequest f → Step (RolloutResult f)
    evaluate_and_rollout c q = do
      record_evidence h (rollout_id q) "rollout.canary.started" (
          field "candidate" (text q.candidate)
            (field "traffic_percent" (int (pos q.traffic_percent)) end))
      d ← lift (decide c q.candidate q.traffic_percent q.successes q.total q.latency_ms)
      if d.passed then promote q d else roll_back q d
