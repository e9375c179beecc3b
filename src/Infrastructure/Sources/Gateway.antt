-- ===== src/Infrastructure/Sources/Gateway.antt =====
-- ois/infrastructure/source_gateway/gateway.py: SourceGateway.ingest, and the operations on a gateway and its ledger.
pub mod Steps
pub mod Paired
pub mod Backed
pub mod Stored
pub mod Once
pub mod Writing
pub mod Committed
pub mod Found
use niceone_obsidian.Prelude.{
  ℕ, String, Bool, true, false, Option, none, some, List, [], ◌∷◌, string_eq, triple_eq,
  if◌then◌else◌,
}
use niceone_obsidian.Prelude.Exec.{Result, ok, err, Exec}
use niceone_obsidian.Kernel.Errors.{Exception}
use niceone_obsidian.Infrastructure.Sources.Ledger.{Libraries, mark_published, published}
use niceone_obsidian.Infrastructure.Sources.Limits.{
  Floats, RateLimitManager, RateLimitPolicy, configure,
}
use niceone_obsidian.Infrastructure.Sources.Requests.{
  SourceRequest, SourceResponse, CanonicalSourceEvent, PipelineResult, Sinks, ledger, tables, Store,
  Limiters, Gateway, Wiring, Draws,
}
use niceone_obsidian.Infrastructure.Sources.Idempotency.{IdempotencyRecord}
use niceone_obsidian.Infrastructure.Sources.Admission.{
  scope_of, verify_credential, resolve_credential, admit, acquire_rate_limit,
}
use niceone_obsidian.Infrastructure.Sources.Keeping.{
  Kept, duplicate_key, duplicate_evidence, recorded, payload_hash_of, evidence_id_of, event_id_of,
  keep_evidence,
}

abbrev pub refusal : String → SourceResponse
refusal why = record {
  accepted = false;
  evidence_id = "";
  event_id = "";
  payload_hash = "";
  reason = some why;
}

module _ (lib : Libraries) where
  abbrev pub answer : SourceRequest → Bool → Option String → SourceResponse
  answer q accepted reason = record {
    accepted = accepted;
    evidence_id = evidence_id_of lib q;
    event_id = event_id_of lib q;
    payload_hash = payload_hash_of lib q;
    reason = reason;
  }

  -- The answer to a request whose key is claimed, with the event of the claim.
  abbrev pub answer_claimed : SourceRequest → Option IdempotencyRecord → SourceResponse
  answer_claimed q none = answer q false (some "duplicate_idempotency")
  answer_claimed q (some c) = record {
    accepted = false;
    evidence_id = c.event_id;
    event_id = c.event_id;
    payload_hash = payload_hash_of lib q;
    reason = some "duplicate_idempotency";
  }

  abbrev pub canonical_event : SourceRequest → CanonicalSourceEvent
  canonical_event q = record {
    event_id = event_id_of lib q;
    tenant_id = q.tenant_id;
    workspace_id = q.workspace_id;
    source_id = q.source_id;
    source_record_id = q.source_record_id;
    event_type = "source.raw_evidence.created";
    payload = q.payload;
    payload_hash = payload_hash_of lib q;
    connector_version = q.connector_version;
    schema_version = q.schema_version;
  }

module _ {f : Floats} {P : Type 0} (w : Wiring P) where
  abbrev pub piped :
      SourceRequest
      → Gateway f P
      → Result Exception PipelineResult × P
      → Result Exception SourceResponse × Gateway f P
  piped q g (err x, p) = (err x, record g { pipeline = p })
  piped q g (ok r, p) = (
    ok (answer w.libraries q true (if r.accepted then none else r.reason)),
    record g { pipeline = p },
  )

  abbrev pub pass_on :
      SourceRequest
      → Bool
      → Option (CanonicalSourceEvent → Bool → Exec P Exception PipelineResult)
      → Gateway f P
      → Result Exception SourceResponse × Gateway f P
  pass_on q is_verified none g = (ok (answer w.libraries q true none), g)
  pass_on q is_verified (some process) g =
      piped q g (process (canonical_event w.libraries q) is_verified g.pipeline)

  -- What follows the attempt to keep the evidence.
  abbrev pub ingest_kept :
      SourceRequest
      → Bool
      → Gateway f P
      → Result Exception Kept × Store
      → Result Exception SourceResponse × Gateway f P
  ingest_kept q is_verified g (err x, s) = (err x, record g { store = s })
  ingest_kept q is_verified g (ok (duplicate_key c), s) =
      (ok (answer_claimed w.libraries q c), record g { store = s })
  ingest_kept q is_verified g (ok duplicate_evidence, s) =
      (ok (answer w.libraries q false (some "duplicate_evidence")), record g { store = s })
  ingest_kept q is_verified g (ok recorded, s) =
      pass_on q is_verified w.process (record g { store = s })

  -- What follows the admission.
  abbrev pub ingest_admitted :
      Draws f
      → SourceRequest
      → Bool
      → Gateway f P
      → Result Exception (Option String) × Limiters f
      → Result Exception SourceResponse × Gateway f P
  ingest_admitted d q is_verified g (err x, l) = (err x, record g { limiters = l })
  ingest_admitted d q is_verified g (ok (some why), l) =
      (ok (refusal why), record g { limiters = l })
  ingest_admitted d q is_verified g (ok none, l) =
      ingest_kept q is_verified (record g { limiters = l })
        (keep_evidence w.libraries d.run_id d.now q g.store)

  abbrev pub ingest_verified :
      Draws f
      → SourceRequest
      → Result Exception Bool
      → Gateway f P
      → Result Exception SourceResponse × Gateway f P
  ingest_verified d q (err x) g = (err x, g)
  ingest_verified d q (ok is_verified) g = ingest_admitted d q is_verified g (admit d q g.limiters)

  -- SourceGateway.ingest
  unfoldable pub ingest :
      Draws f → SourceRequest → Gateway f P → Result Exception SourceResponse × Gateway f P
  unfolding resolve_credential admit keep_evidence
  ingest d q g =
      ingest_verified d q (verify_credential d.now (scope_of q) q.credential w.resolver) g

-- The operations on a gateway and its ledger, with what each draws and reads.
pub data Call (f : Floats) : Type 0 where
  ingests : Draws f → SourceRequest → Call f
  acquires : Draws f → String → String → Call f
  configures : String → RateLimitPolicy f → Call f
  publishes : ℕ → String → Call f

-- The manager of the gateway with a policy set.
abbrev pub managed_by :
    {f : Floats}
    → Option (RateLimitManager f)
    → String
    → RateLimitPolicy f
    → Option (RateLimitManager f)
managed_by none key p = none
managed_by (some m) key p = some (configure key p m)

-- The relay marks an event of the ledger.
abbrev pub mark_in : ℕ → String → Sinks → Sinks
mark_in now i (ledger l) = ledger (mark_published now i l)
mark_in now i (tables e none) = tables e none
mark_in now i (tables e (some rows)) = tables e (some (published now i rows))

module _ {f : Floats} {P : Type 0} (w : Wiring P) where
  abbrev pub call : Call f → Gateway f P → Gateway f P
  call (ingests d q) g = (ingest w d q g).1
  call (acquires d t i) g = record g { limiters = (acquire_rate_limit d t i g.limiters).1 }
  call (configures key p) g = record g {
    limiters = record g.limiters { manager = managed_by g.limiters.manager key p };
  }
  call (publishes now i) g = record g {
    store = record g.store { sinks = mark_in now i g.store.sinks };
  }

  unfoldable pub run_calls : List (Call f) → Gateway f P → Gateway f P
  run_calls [] g = g
  run_calls (c ∷ cs) g = run_calls cs (call c g)
