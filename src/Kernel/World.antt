-- ===== src/Kernel/World.antt =====
-- The objects that one execution shares and mutates: its context (state.py), the evidence ledger
-- (evidence.py), the in-memory checkpoint and idempotency stores (checkpoint.py, idempotency.py)
-- and the cancellation token (cancellation.py). An operation on them is an `Action`. The clock and
-- the supply of UUIDs are the platform's: a reading of each is part of the state.
use niceone_obsidian.Prelude.{
  ℕ, suc, String, Bool, true, Option, none, some, List, [], ◌∷◌, ◌++◌, string_eq, str_eq, keep,
  length, if◌then◌else◌,
}
use niceone_obsidian.Prelude.Dict.{Dict, get, set, delete, contains, set_default}
use niceone_obsidian.Prelude.Exec.{Exec, Result, ok, err}
use niceone_obsidian.Prelude.Values.{Fields}
use niceone_obsidian.Kernel.Errors.{
  Exception, exception, execution_cancellation, checkpoint_not_found,
}
use niceone_obsidian.Kernel.Types.{ExecutionStatus, FailureClass}
use niceone_obsidian.Kernel.State.{ExecutionContext, touch}
use niceone_obsidian.Kernel.State
use niceone_obsidian.Kernel.Contracts.{InvocationResult}
use niceone_obsidian.Kernel.Recovery.{RecoveryPolicy, RecoveryDecision}
use niceone_obsidian.Kernel.Recovery
use Prim.Native.String.{◌++◌ as text_append}

pub record EvidenceEvent : Type 0 where
  pub execution_id : String
  pub event_type : String
  pub timestamp : ℕ
  pub event_id : String
  pub actor : String
  pub component : String
  pub details : Fields
  pub correlation_id : Option String
  pub causation_id : Option String

pub record CancellationToken : Type 0 where
  pub cancelled : Bool
  pub reason : Option String

pub record World : Type 0 where
  pub context : ExecutionContext
  pub evidence : List EvidenceEvent
  pub checkpoints : Dict String ExecutionContext
  pub results : Dict String InvocationResult
  pub token : CancellationToken
  pub now : ℕ
  pub uuids : ℕ → String
  pub drawn : ℕ
  pub fence_reads : ℕ

abbrev pub Action : Type 0 → Type 0
Action A = Exec World Exception A

-- `str(uuid4())`
unfoldable pub uuid4 : Action String
uuid4 w = (ok (w.uuids w.drawn), record w { drawn = suc w.drawn })

-- EvidenceLedger.append
unfoldable pub append_event : EvidenceEvent → World → World
append_event e w = record w { evidence = w.evidence ++ e ∷ [] }

abbrev pub new_event : World → String → String → Fields → EvidenceEvent
new_event w execution_id event_type details = record {
  execution_id = execution_id;
  event_type = event_type;
  timestamp = w.now;
  event_id = w.uuids w.drawn;
  actor = "kernel";
  component = "ois.kernel";
  details = details;
  correlation_id = none;
  causation_id = none;
}

-- EvidenceLedger.record, with the defaults of its keyword arguments
unfoldable pub record_event : String → String → Fields → Action (Unit {0})
unfolding append_event
record_event execution_id event_type details w = (
  ok tt,
  append_event (new_event w execution_id event_type details) (record w { drawn = suc w.drawn }),
)

-- EvidenceLedger.list and EvidenceLedger.count
unfoldable pub list_events : World → Option String → List EvidenceEvent
list_events w none = w.evidence
list_events w (some i) = keep (λ e. str_eq e.execution_id i) w.evidence

unfoldable pub count_events : World → Option String → ℕ
unfolding list_events
count_events w i = length (list_events w i)

-- InMemoryCheckpointStore.save touches the context and stores a deep copy of it.
unfoldable pub save_checkpoint : Action (Unit {0})
unfolding touch set
save_checkpoint w =
    let c = touch w.now w.context in
    (ok tt, record w { context = c; checkpoints = set w.checkpoints c.identity.execution_id c })

abbrev pub loaded : String → Option ExecutionContext → Result Exception ExecutionContext
loaded i none = err (exception checkpoint_not_found (text_append "No checkpoint for execution " i))
loaded i (some c) = ok c

-- InMemoryCheckpointStore.load
unfoldable pub load_checkpoint : String → Action ExecutionContext
unfolding get
load_checkpoint i w = (loaded i (get w.checkpoints i), w)

-- InMemoryCheckpointStore.delete and InMemoryCheckpointStore.exists
unfoldable pub delete_checkpoint : String → Action (Unit {0})
unfolding delete
delete_checkpoint i w = (ok tt, record w { checkpoints = delete w.checkpoints i })

unfoldable pub checkpoint_exists : World → String → Bool
unfolding contains
checkpoint_exists w i = contains w.checkpoints i

-- InMemoryIdempotencyStore.get, put and exists
unfoldable pub get_result : String → Action (Option InvocationResult)
unfolding get
get_result k w = (ok (get w.results k), w)

unfoldable pub put_result : String → InvocationResult → Action (Unit {0})
unfolding set_default
put_result k r w = (ok tt, record w { results = set_default w.results k r })

unfoldable pub result_exists : World → String → Bool
unfolding contains
result_exists w k = contains w.results k

-- CancellationToken.cancel and CancellationToken.raise_if_cancelled
unfoldable pub cancel : Option String → Action (Unit {0})
cancel why w = (ok tt, record w { token = record { cancelled = true; reason = why } })

abbrev pub or_message : Option String → String → String
or_message none d = d
or_message (some s) d = if str_eq s "" then d else s

unfoldable pub raise_if_cancelled : Action (Unit {0})
raise_if_cancelled w =
    if w.token.cancelled
    then (
      err (exception execution_cancellation (or_message w.token.reason "Execution cancelled.")),
      w,
    )
    else (ok tt, w)

-- ExecutionContext.set_status
abbrev pub with_context :
    World → Result Exception ExecutionContext → Result Exception (Unit {0}) × World
with_context w (ok c) = (ok tt, record w { context = c })
with_context w (err e) = (err e, w)

unfoldable pub set_status : ExecutionStatus → Action (Unit {0})
unfolding State.set_status
set_status s w = with_context w (State.set_status w.now s w.context)

-- An assignment to fields of the context
unfoldable pub update : (ExecutionContext → ExecutionContext) → Action (Unit {0})
update f w = (ok tt, record w { context = f w.context })

-- RecoveryPolicy.apply
unfoldable pub apply_recovery : RecoveryPolicy → FailureClass → Action RecoveryDecision
unfolding Recovery.apply
apply_recovery p f w =
    let (r, c) = Recovery.apply p w.now f w.context in (r, record w { context = c })
