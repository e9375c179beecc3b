-- ===== src/Examples/Loops.antt =====
-- The properties of the autonomous loop: an event of low risk, and a workflow that fails once.
use Prim.Native.Nat.{min}
use niceone_obsidian.Prelude.{
  ℕ, ◌+◌, String, ◌≡◌, ◌⊎◌, inl, refl, false, none, some, [], ◌∷◌, All, arith, ltb, if◌then◌else◌,
}
use niceone_obsidian.Prelude.Values.{Value, Fields, null, text, end, field, get_field, set_field}
use niceone_obsidian.Prelude.Exec.{ok, err}
use niceone_obsidian.Kernel.Errors.{exception, other}
use niceone_obsidian.Kernel.Types.{low, medium}
use niceone_obsidian.Autonomy.Approvals.{EventEnvelope}
use niceone_obsidian.Autonomy.Policy.{
  PolicyRule, matched, no_match, needs_approval, evaluate, parse_risk,
}
use niceone_obsidian.Autonomy.Policy.First.{Matches, IsFirst, first, later, evaluate-IsFirst}
use niceone_obsidian.Autonomy.Workflows.{SourceWorkflow, enabled, workflow_matches}
use niceone_obsidian.Autonomy.Loops.{
  LoopWorld, AutonomousLoop, Runner, runner_of, run, policy_context,
}
use niceone_obsidian.Autonomy.Loops.Cleared.{Permitted, Idle, run-Idle}
use niceone_obsidian.Autonomy.Loops.Bounded.{Ends, run_bounded}

abbrev str : Value → String
str v = "?"

abbrev tagged : PolicyRule
tagged = record {
  rule_id = "tagged";
  event_type = none;
  maximum_risk = medium;
  allow_side_effects = false;
  required_tags = "trusted" ∷ [];
}

abbrev plain : PolicyRule
plain = record tagged { rule_id = "plain"; event_type = some "post.created"; required_tags = [] }

abbrev event : EventEnvelope
event = record {
  event_id = "event-1";
  tenant_id = "tenant-1";
  workspace_id = "space-1";
  event_type = "post.created";
  aggregate_id = "post-1";
  payload = field "risk_level" (text "low") end;
  created_at = 1;
  source_id = none;
  correlation_id = none;
}

abbrev workflow : SourceWorkflow (LoopWorld ℕ)
workflow = record {
  workflow_id = "flow-1";
  version = "1";
  tenant_id = "tenant-1";
  workspace_id = "space-1";
  trigger = record { event_type = "post.created"; source_id = none; conditions = end };
  action = λ e s. (ok null, s);
  status = enabled;
  metadata = end;
}

-- The first execution fails.
abbrev flaky : Runner ℕ
flaky w e s = (
  if ltb s.world 1 then err (exception (other "TimeoutError") "late") else ok (text "done"),
  record s { world = s.world + 1 },
)

abbrev loop : AutonomousLoop
loop = record { policy = tagged ∷ plain ∷ []; max_retries = 2; max_iterations = 3 }

abbrev start : LoopWorld ℕ
start = record {
  gate = record { store = []; ttl_seconds = 60 };
  now = 5;
  uuids = λ n. "id";
  drawn = 0;
  world = 0;
}

abbrev context : Fields
context = field "risk_level" (text "low") (field "event_type" (text "post.created") end)

tagged_refuses : ¬ Matches low context tagged
unfolding get_field
tagged_refuses m = ground (arith, m.tags)

plain-Matches : Matches low context plain
unfolding get_field
plain-Matches = record {
  typed = refl;
  bounded = inl (omega arith);
  effects = λ h. ground (arith, h);
  tags = tt;
}

evaluate-IsFirst_example :
    ((r : PolicyRule) × IsFirst low context r loop.policy
      × (evaluate str loop.policy context ≡ ok (matched r "rule matched" (needs_approval context))))
    ⊎ (All (λ r. ¬ Matches low context r) loop.policy
        × (evaluate str loop.policy context ≡ ok no_match))
unfolding get_field parse_risk
evaluate-IsFirst_example = evaluate-IsFirst str context low refl loop.policy

run-Idle_example :
    Permitted str loop workflow event false ⊎ Idle str loop workflow event false start
run-Idle_example = run-Idle str loop workflow event false start

event-Permitted : Permitted str loop workflow event false
unfolding workflow_matches policy_context get_field set_field parse_risk needs_approval
event-Permitted = record {
  triggered = refl;
  risk = low;
  known = refl;
  rule = plain;
  is_first = later tagged (plain ∷ []) tagged_refuses (first [] plain-Matches);
  approved = λ h. ground (arith, h);
}

run_bounded_example :
    Ends
      (runner_of (some flaky))
      workflow
      event
      (min 3 3)
      start
      (run str loop workflow event (some flaky) false start)
run_bounded_example = run_bounded str loop workflow event false (some flaky) start event-Permitted
