-- ===== src/Autonomy/Approvals.antt =====
-- ois/autonomy/approvals.py, InMemoryApprovalStore and ApprovalGate: requests for a human's approval and
-- the decisions on them. `now` is the clock's reading, in microseconds where `request` takes it; the event
-- of a request is its envelope (events.py).
pub mod Decisions
use niceone_obsidian.Prelude.{
  ℕ, ◌+◌, ◌*◌, String, Bool, true, false, not, ◌&&◌, Option, none, some, List, [], ◌∷◌, leb, nat_eq,
  str_eq, string_eq, if◌then◌else◌,
}
use Prim.Native.Nat.{◌/◌}
use niceone_obsidian.Prelude.Dict.{Dict, get, set, contains}
use niceone_obsidian.Prelude.Values.{Fields}
use niceone_obsidian.Prelude.Exec.{Result, ok, err}
use niceone_obsidian.Kernel.Errors.{Exception, exception, value_error, key_error}

pub data ApprovalDecision : Type 0 where
  pending approved rejected expired : ApprovalDecision

pub record EventEnvelope : Type 0 where
  pub event_id : String
  pub tenant_id : String
  pub workspace_id : String
  pub event_type : String
  pub aggregate_id : String
  pub payload : Fields
  pub created_at : ℕ
  pub source_id : Option String
  pub correlation_id : Option String

pub record ApprovalRequest : Type 0 where
  pub approval_id : String
  pub tenant_id : String
  pub workspace_id : String
  pub workflow_id : String
  pub event_id : String
  pub reason : String
  pub created_at : ℕ
  pub expires_at : ℕ
  pub event : Option EventEnvelope
  pub decision : ApprovalDecision
  pub decided_by : Option String
  pub decided_at : Option ℕ

abbrev pub ApprovalStore : Type 0
ApprovalStore = Dict String ApprovalRequest

unfoldable pub create :
    ApprovalRequest → ApprovalStore → Result Exception ApprovalRequest × ApprovalStore
unfolding contains set
create r store =
    if contains store r.approval_id
    then (err (exception value_error "approval already exists"), store)
    else (ok r, set store r.approval_id r)

-- InMemoryApprovalStore.get
unfoldable pub find_approval : String → ApprovalStore → Option ApprovalRequest
unfolding get
find_approval i store = get store i

abbrev pub is_pending : ApprovalDecision → Bool
is_pending pending = true
is_pending _ = false

abbrev pub as_expired : ApprovalRequest → ApprovalRequest
as_expired r = record r { decision = expired }

abbrev pub as_decided : ℕ → ApprovalDecision → String → ApprovalRequest → ApprovalRequest
as_decided now d actor r = record r { decision = d; decided_by = some actor; decided_at = some now }

abbrev pub decide_found :
    ℕ
    → String
    → ApprovalDecision
    → String
    → Option ApprovalRequest
    → ApprovalStore
    → Result Exception ApprovalRequest × ApprovalStore
decide_found now i d actor none store = (err (exception key_error "approval not found"), store)
decide_found now i d actor (some r) store =
    if not (is_pending r.decision)
    then (err (exception value_error "approval is already decided"), store)
    else if leb r.expires_at now
    then (err (exception value_error "approval has expired"), set store i (as_expired r))
    else (ok (as_decided now d actor r), set store i (as_decided now d actor r))

-- InMemoryApprovalStore.decide, with one reading of the clock
unfoldable pub decide :
    ℕ
    → String
    → ApprovalDecision
    → String
    → ApprovalStore
    → Result Exception ApprovalRequest × ApprovalStore
unfolding get set
decide now i d actor store = decide_found now i d actor (get store i) store

unfoldable pub list_pending : String → String → ApprovalStore → List ApprovalRequest
list_pending tenant workspace [] = []
list_pending tenant workspace ((i, r) ∷ rest) =
    let more = list_pending tenant workspace rest in
    if str_eq r.tenant_id tenant && (str_eq r.workspace_id workspace && is_pending r.decision)
    then r ∷ more
    else more

-- ApprovalGate, on the store that it was given; a time to live is not negative.
pub record ApprovalGate : Type 0 where
  pub store : ApprovalStore
  pub ttl_seconds : ℕ

-- ApprovalGate.__init__
unfoldable pub new_gate : ApprovalStore → ℕ → Result Exception ApprovalGate
new_gate store ttl =
    if nat_eq ttl 0
    then err (exception value_error "ttl_seconds must be positive")
    else ok (record { store = store; ttl_seconds = ttl })

-- The arguments of `ApprovalGate.request`.
pub record ApprovalQuestion : Type 0 where
  pub tenant_id : String
  pub workspace_id : String
  pub workflow_id : String
  pub event_id : String
  pub event : Option EventEnvelope
  pub reason : String

-- The request that a gate makes: it expires so long after the last whole second.
abbrev pub asked : ℕ → ℕ → String → ApprovalQuestion → ApprovalRequest
asked ttl now i q = record {
  approval_id = i;
  tenant_id = q.tenant_id;
  workspace_id = q.workspace_id;
  workflow_id = q.workflow_id;
  event_id = q.event_id;
  reason = q.reason;
  created_at = now;
  expires_at = now / 1000000 * 1000000 + ttl * 1000000;
  event = q.event;
  decision = pending;
  decided_by = none;
  decided_at = none;
}

abbrev pub with_store :
    ApprovalGate
    → Result Exception ApprovalRequest × ApprovalStore
    → Result Exception ApprovalRequest × ApprovalGate
with_store g (r, store) = (r, record g { store = store })

-- ApprovalGate.request
unfoldable pub request :
    ℕ → String → ApprovalQuestion → ApprovalGate → Result Exception ApprovalRequest × ApprovalGate
unfolding create
request now i q g = with_store g (create (asked g.ttl_seconds now i q) g.store)
