-- ===== src/Autonomy/Workflows.antt =====
-- ois/autonomy/workflows.py: triggers, source workflows and the records of their runs. The action of a
-- workflow acts on the state of who runs it, and may raise.
use niceone_obsidian.Prelude.{String, Bool, true, false, ◌&&◌, Option, none, some, str_eq}
use niceone_obsidian.Prelude.Values.{Value, Fields, null, text, end, field, get_field, py_eq}
use niceone_obsidian.Prelude.Exec.{Exec}
use niceone_obsidian.Kernel.Errors.{Exception, type_name}
use niceone_obsidian.Autonomy.Approvals.{EventEnvelope}

pub data WorkflowStatus : Type 0 where
  enabled paused disabled : WorkflowStatus

pub record WorkflowTrigger : Type 0 where
  pub event_type : String
  pub source_id : Option String
  pub conditions : Fields

pub record SourceWorkflow (S : Type 0) : Type 0 where
  pub workflow_id : String
  pub version : String
  pub tenant_id : String
  pub workspace_id : String
  pub trigger : WorkflowTrigger
  pub action : EventEnvelope → Exec S Exception Value
  pub status : WorkflowStatus
  pub metadata : Fields

pub record WorkflowRun : Type 0 where
  pub run_id : String
  pub workflow_id : String
  pub workflow_version : String
  pub event_id : String
  pub status : String
  pub result : Value
  pub error : Option Fields

-- `d.get(k) == v`
abbrev pub equals : Option Value → Value → Bool
equals none v = py_eq null v
equals (some w) v = py_eq w v

-- `all(payload.get(key) == value for key, value in conditions.items())`
unfoldable pub meets : Fields → Fields → Bool
unfolding get_field py_eq
meets payload end = true
meets payload (field k v rest) = equals (get_field payload k) v && meets payload rest

-- `self.source_id is None or self.source_id == event.source_id`
abbrev pub same_source : Option String → Option String → Bool
same_source none j = true
same_source (some i) none = false
same_source (some i) (some j) = str_eq i j

-- WorkflowTrigger.matches
unfoldable pub trigger_matches : WorkflowTrigger → EventEnvelope → Bool
unfolding meets
trigger_matches t e =
    str_eq e.event_type t.event_type
    && (same_source t.source_id e.source_id && meets e.payload t.conditions)

abbrev pub is_enabled : WorkflowStatus → Bool
is_enabled enabled = true
is_enabled _ = false

module _ {S : Type 0} where
  -- SourceWorkflow.matches
  unfoldable pub workflow_matches : SourceWorkflow S → EventEnvelope → Bool
  unfolding trigger_matches
  workflow_matches w e =
      is_enabled w.status
      && (str_eq e.tenant_id w.tenant_id
          && (str_eq e.workspace_id w.workspace_id && trigger_matches w.trigger e))

  -- WorkflowRun.success and WorkflowRun.failure, with the identifier that is drawn.
  unfoldable pub success : String → SourceWorkflow S → EventEnvelope → Value → WorkflowRun
  success i w e result = record {
    run_id = i;
    workflow_id = w.workflow_id;
    workflow_version = w.version;
    event_id = e.event_id;
    status = "completed";
    result = result;
    error = none;
  }

  unfoldable pub failure : String → SourceWorkflow S → EventEnvelope → Exception → WorkflowRun
  unfolding type_name
  failure i w e x = record {
    run_id = i;
    workflow_id = w.workflow_id;
    workflow_version = w.version;
    event_id = e.event_id;
    status = "failed";
    result = null;
    error = some (field "type" (text (type_name x.kind)) (field "message" (text x.message) end));
  }
