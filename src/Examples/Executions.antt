-- ===== src/Examples/Executions.antt =====
-- The runtime's properties on small executions: a capability that answers, one that raises and one
-- that reports a safety failure, under the default policy and the contract validator.
use mathlib.Core.Path.{subst}
use niceone_obsidian.Prelude.{
  String, ◌≡◌, refl, true, false, none, some, List, [], ◌∷◌, ◌++◌, arith, pair_eq, string_eq,
}
use niceone_obsidian.Prelude.Dict.{get, set_default}
use niceone_obsidian.Prelude.Exec.{Result, ok, err, Keeps, ◌>>=◌}
use niceone_obsidian.Prelude.Values.{end, field, text, null, get_field}
use niceone_obsidian.Kernel.Errors.{Exception, exception, authorization_denied, other}
use niceone_obsidian.Kernel.Types.{
  ExecutionStatus, FailureClass, RiskLevel, medium, low, reversible, succeeded, failed,
  parse_failure, risk_value,
}
use niceone_obsidian.Kernel.State.{new_context, terminal_error, is_terminal}
use niceone_obsidian.Kernel.Contracts.{
  CapabilityContract, ContractKind, InvocationRequest, InvocationResult,
}
use niceone_obsidian.Kernel.Recovery.{classify}
use niceone_obsidian.Kernel.Policy.{
  DefaultPolicyEngine, authorize, evaluate, denial_reasons, missing_permissions, difference,
}
use niceone_obsidian.Kernel.Validation.{
  validate_input, validate_output, validate_schema, property_errors, has_type, declared_errors,
}
use niceone_obsidian.Kernel.World.{World, record_event, set_status, update, save_checkpoint}
use niceone_obsidian.Kernel.Invocation.{
  Capability, Runtime, Call, fenced_save, assert_fence, reported_class,
}
use niceone_obsidian.Kernel.Runtime.{execute, launch}
use niceone_obsidian.Kernel.Runtime.Growth.{Grows, Grows-preorder}
use niceone_obsidian.Kernel.Runtime.Growth.Execute.{CapabilitiesGrow, execute-Grows}
use niceone_obsidian.Kernel.Runtime.Ready.{Ready}
use niceone_obsidian.Kernel.Runtime.Outcomes.{event_types, planned_world, request, execute_denied}
use niceone_obsidian.Kernel.Runtime.Fresh.{
  launched, failure_result, execute_succeeded, execute_raised, execute_terminal_failure,
}
use niceone_obsidian.Kernel.Runtime.Replay.{after_calls, replayed}
use niceone_obsidian.Registries.Capability.{CapabilityEntry, get_entry}
use Prim.Native.String.{◌++◌ as text_append}

abbrev pub contract : CapabilityContract
contract = record {
  capability_id = "search";
  version = "1.0.0";
  description = "web search";
  input_schema = field "type" (text "object") end;
  output_schema = field "type" (text "string") end;
  risk_level = medium;
  permissions = [];
  allowed_domains = [];
  timeout_seconds = null;
  max_retries = 0;
  side_effects = reversible;
  idempotent = true;
  kind = ContractKind.capability;
}

abbrev pub answer : InvocationResult
answer = record {
  invocation_id = "inv-1";
  capability_id = "search";
  status = succeeded;
  output = text "found";
  error = none;
  started_at = none;
  completed_at = none;
  metadata = end;
}

abbrev refusal : InvocationResult
refusal = record answer {
  status = failed;
  error = some (field "failure_class" (text "safety") end);
}

abbrev crash : Exception
crash = exception (other "TimeoutError") "no answer"

-- A capability that gives the same outcome on every request.
abbrev pub giving : Result Exception InvocationResult → CapabilityEntry Capability
giving r = record {
  capability = record { contract = some contract; invoke = λ q w. (r, w) };
  contract = some contract;
  id = "search";
  version = "1.0.0";
}

abbrev pub engine : RiskLevel → DefaultPolicyEngine
engine limit = record { allowed_permissions = []; maximum_risk = limit; allow_irreversible = false }

abbrev pub runtime : RiskLevel → Result Exception InvocationResult → Runtime
runtime limit r = record {
  registry = (("search", "1.0.0"), giving r) ∷ [];
  validate_input = validate_input;
  validate_output = validate_output;
  authorize = authorize (engine limit);
  recovery = record { max_retries = 3; max_recovery_attempts = 2 };
  fencing = none;
}

abbrev call : Call
call = record {
  capability_id = "search";
  version = "1.0.0";
  input = field "query" (text "weather") end;
  invocation_id = some "inv-1";
  idempotency_key = none;
  lease = none;
}

abbrev pub begun : World
unfolding new_context
begun = record {
  context =
      new_context
        (record {
          execution_id = "exec-1";
          tenant_id = "tenant-1";
          workflow_id = none;
          workflow_version = none;
        })
        "find the weather" 100;
  evidence = [];
  checkpoints = [];
  results = [];
  token = record { cancelled = false; reason = none };
  now = 100;
  uuids = λ n. "event";
  drawn = 0;
  fence_reads = 0;
}

-- The same with results kept; with none; and with the answer under the call's key.
abbrev world_with : List (String × InvocationResult) → World
world_with kept = record begun { results = kept }

abbrev world : World
world = world_with []

abbrev answered : World
answered = world_with (("inv-1", answer) ∷ [])

ready :
    (limit : RiskLevel) (r : Result Exception InvocationResult)
    (kept : List (String × InvocationResult))
    → Ready (runtime limit r) call (world_with kept) "inv-1" (giving r) contract
unfolding begun get_entry get validate_input validate_schema property_errors get_field has_type
    declared_errors
ready limit r kept = record {
  live = refl;
  named = refl;
  unfenced = refl;
  registered = refl;
  contracted = refl;
  running = refl;
  valid = refl;
}

allowed :
    (r : Result Exception InvocationResult) (kept : List (String × InvocationResult))
    → authorize (engine medium) (request call (world_with kept) "inv-1" contract) contract ≡ ok true
unfolding authorize evaluate denial_reasons missing_permissions difference begun
allowed r kept = refl

abbrev denial : Exception
denial = exception authorization_denied "Capability risk exceeds policy limit: medium"

refused : authorize (engine low) (request call world "inv-1" contract) contract ≡ err denial
unfolding authorize evaluate denial_reasons missing_permissions difference begun risk_value
refused = refl

-- What the capability is given still runs.
given :
    (r : Result Exception InvocationResult)
    → ((launched (runtime medium r) call world "inv-1").token.cancelled ≡ false)
      × (is_terminal (launched (runtime medium r) call world "inv-1").context.status ≡ false)
unfolding launch ◌>>=◌ record_event set_status update fenced_save assert_fence save_checkpoint begun
given r = (refl, refl)

execute_denied_example :
    let (r, w') = execute (runtime low (ok answer)) call world in
    (r ≡ err denial)
    × (w'.results ≡ world.results)
    × (w'.checkpoints ≡ world.checkpoints)
    × (w'.context ≡ (planned_world world).context)
    × (event_types w'
        ≡ (event_types world ++ "execution.input_validated" ∷ [])
          ++ "execution.authorization_denied" ∷ [])
execute_denied_example =
    execute_denied (runtime low (ok answer)) call world "inv-1" (giving (ok answer)) contract
      (ready low (ok answer) []) denial refused refl

execute_succeeded_example :
    let w' : World = launched (runtime medium (ok answer)) call world "inv-1" in
    let (a, w'') = execute (runtime medium (ok answer)) call world in
    (a ≡ ok answer)
    × (w''.context.status ≡ ExecutionStatus.routed)
    × (w''.results ≡ set_default w'.results "inv-1" answer)
    × (get_field w''.context.working_memory (text_append "result:" "inv-1") ≡ some (text "found"))
    × (get w''.checkpoints w'.context.identity.execution_id
        ≡ some (record w''.context { status = ExecutionStatus.checkpointing }))
unfolding validate_output validate_schema property_errors get_field has_type get
execute_succeeded_example =
    execute_succeeded (runtime medium (ok answer)) call world "inv-1" (giving (ok answer)) contract
      (ready medium (ok answer) []) true (allowed (ok answer) []) refl answer
      (launched (runtime medium (ok answer)) call world "inv-1") refl (given (ok answer)).0
      (given (ok answer)).1 refl refl refl

execute_raised_example :
    let w' : World = launched (runtime medium (err crash)) call world "inv-1" in
    let (a, w'') = execute (runtime medium (err crash)) call world in
    (a ≡ ok (failure_result call "inv-1" crash))
    × (w''.results ≡ w'.results)
    × (w''.context.status ≡ w'.context.status)
    × (w''.context.last_failure ≡ some FailureClass.tool)
unfolding get
execute_raised_example =
    execute_raised (runtime medium (err crash)) call world "inv-1" (giving (err crash)) contract
      (ready medium (err crash) []) true (allowed (err crash) []) refl crash
      (launched (runtime medium (err crash)) call world "inv-1") refl (λ e. ground arith)

reports_safety : reported_class refusal ≡ some FailureClass.safety
unfolding get_field parse_failure
reports_safety = refl

execute_terminal_failure_example :
    let w' : World = launched (runtime medium (ok refusal)) call world "inv-1" in
    let (a, w'') = execute (runtime medium (ok refusal)) call world in
    (a ≡ err (terminal_error ExecutionStatus.stopped ExecutionStatus.observing))
    × (w''.context.status ≡ ExecutionStatus.stopped)
    × (w''.results ≡ w'.results)
unfolding get classify
execute_terminal_failure_example =
    execute_terminal_failure (runtime medium (ok refusal)) call world "inv-1" (giving (ok refusal))
      contract (ready medium (ok refusal) []) true (allowed (ok refusal) []) refl refusal
      (launched (runtime medium (ok refusal)) call world "inv-1") FailureClass.safety
      ExecutionStatus.stopped refl (given (ok refusal)).0 (given (ok refusal)).1 refl reports_safety
      refl refl

pub same_entry :
    (r : Result Exception InvocationResult) (i v : String) (e : CapabilityEntry Capability)
    → get_entry (runtime medium r).registry i v ≡ ok e
    → giving r ≡ e
unfolding get_entry get
same_entry r i v e h = ground arith

registered_grow : (r : Result Exception InvocationResult) → CapabilitiesGrow (runtime medium r)
registered_grow r i v e h =
    subst
      (λ (x : CapabilityEntry Capability).
        (q : InvocationRequest) → Keeps Grows (x.capability.invoke q))
      (same_entry r i v e h) (λ q. record { at = λ s. Grows-preorder.refl_at s })

execute-Grows_example : Keeps Grows (execute (runtime medium (ok answer)) call)
execute-Grows_example =
    execute-Grows (runtime medium (ok answer)) call (registered_grow (ok answer))

-- No call came between.
replayed_example :
    let w' : World = after_calls (runtime medium (err crash)) [] answered in
    let (a, w'') = execute (runtime medium (err crash)) call w' in
    (a ≡ ok answer) × (w''.results ≡ w'.results)
unfolding after_calls get
replayed_example =
    replayed (runtime medium (err crash)) [] call answered "inv-1" (giving (err crash)) contract
      answer true (registered_grow (err crash)) refl
      (ready medium (err crash) (("inv-1", answer) ∷ []))
      (allowed (err crash) (("inv-1", answer) ∷ []))
