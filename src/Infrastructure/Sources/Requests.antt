-- ===== src/Infrastructure/Sources/Requests.antt =====
-- ois/infrastructure/source_gateway/gateway.py: requests, responses and the state of a gateway.
use niceone_obsidian.Prelude.{
  ℕ, String, Bool, not, ◌&&◌, Option, List, or_else, str_eq, string_eq, triple_eq, if◌then◌else◌,
}
use niceone_obsidian.Prelude.Dict.{Dict}
use niceone_obsidian.Prelude.Values.{Fields, end}
use niceone_obsidian.Prelude.Exec.{Exec}
use niceone_obsidian.Kernel.Errors.{Exception}
use niceone_obsidian.Infrastructure.Sources.Ledger.{Libraries, EvidenceRow, OutboxRow, SourceLedger}
use niceone_obsidian.Infrastructure.Sources.Idempotency.{Claims}
use niceone_obsidian.Infrastructure.Sources.Limits.{Floats, Readings, TokenBucket, RateLimitManager}
use niceone_obsidian.Infrastructure.Sources.Credentials.{CredentialRef, CredentialResolver}
use Prim.Native.String.{◌++◌ as text_append}

-- A request as its constructor leaves it. `provenance` is what `as_dict` returns.
pub record SourceRequest : Type 0 where
  pub tenant_id : String
  pub workspace_id : String
  pub source_type : String
  pub source_record_id : String
  pub payload : Fields
  pub credential : Option CredentialRef
  pub connector_version : String
  pub schema_version : String
  pub source_id : String
  pub provenance : Option Fields
  pub event_type : String
  pub idempotency_key : Option String
  pub observed_at : Option ℕ
  pub rate_limit_lease : Option String

-- `SourceRequest.__post_init__`
unfoldable pub post_init : Option Fields → SourceRequest → SourceRequest
post_init payload q = record q {
  payload = or_else payload end;
  source_id =
      if str_eq q.source_id "" && not (str_eq q.source_type "")
      then text_append q.source_type (text_append ":" q.source_record_id)
      else q.source_id;
}

pub record SourceResponse : Type 0 where
  pub accepted : Bool
  pub evidence_id : String
  pub event_id : String
  pub payload_hash : String
  pub reason : Option String

-- CanonicalSourceEvent, as `ingest` makes it.
pub record CanonicalSourceEvent : Type 0 where
  pub event_id : String
  pub tenant_id : String
  pub workspace_id : String
  pub source_id : String
  pub source_record_id : String
  pub event_type : String
  pub payload : Fields
  pub payload_hash : String
  pub connector_version : String
  pub schema_version : String

-- What the result of a pipeline shows: `accepted`, and `reason` with its default.
pub record PipelineResult : Type 0 where
  pub accepted : Bool
  pub reason : Option String

-- The evidence writer and the outbox store: the one ledger for both, or a table for each, where configured.
pub data Sinks : Type 0 where
  ledger : SourceLedger → Sinks
  tables : Option (List EvidenceRow) → Option (List OutboxRow) → Sinks

pub record Store : Type 0 where
  pub idempotency : Option Claims
  pub sinks : Sinks

pub record Limiters (f : Floats) : Type 0 where
  pub manager : Option (RateLimitManager f)
  pub rate_limiters : Dict String (TokenBucket f)
  pub leases : Dict String (String × String)

-- The state of a gateway; `P` is that of its intelligence pipeline.
pub record Gateway (f : Floats) (P : Type 0) : Type 0 where
  pub limiters : Limiters f
  pub store : Store
  pub pipeline : P

-- What a gateway calls: the libraries, the resolver of its credentials and its pipeline, where configured.
pub record Wiring (P : Type 0) : Type 0 where
  pub libraries : Libraries
  pub resolver : Option CredentialResolver
  pub process : Option (CanonicalSourceEvent → Bool → Exec P Exception PipelineResult)

-- What a call of `ingest` draws and reads: identifiers, the time of day and the monotonic clock.
pub record Draws (f : Floats) : Type 0 where
  pub run_id : String
  pub lease_id : String
  pub now : ℕ
  pub readings : Readings f
