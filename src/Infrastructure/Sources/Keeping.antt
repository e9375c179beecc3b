-- ===== src/Infrastructure/Sources/Keeping.antt =====
-- ois/infrastructure/source_gateway/gateway.py: the part of `ingest` that claims the idempotency key and keeps the evidence
-- with its event.
use niceone_obsidian.Prelude.{
  ℕ, String, Bool, true, false, not, ◌&&◌, Option, none, some, List, or_else, str_eq, string_eq,
  triple_eq, if◌then◌else◌,
}
use niceone_obsidian.Prelude.Values.{Fields, text, dict, end, field, set_field}
use niceone_obsidian.Prelude.Exec.{Result, ok, err}
use niceone_obsidian.Kernel.Errors.{Exception, exception, other}
use niceone_obsidian.Infrastructure.Sources.Ledger.{
  RawEvidence, OutboxEvent, Libraries, EvidenceRow, OutboxRow, canonical_hash, commit_ingest,
  append_evidence, append_event,
}
use niceone_obsidian.Infrastructure.Sources.Idempotency.{
  ClaimKey, Claims, IdempotencyRecord, claim, find, release,
}
use niceone_obsidian.Infrastructure.Sources.Requests.{SourceRequest, Sinks, ledger, tables, Store}
use Prim.Native.String.{◌++◌ as text_append}

module _ (lib : Libraries) where
  abbrev pub payload_hash_of : SourceRequest → String
  payload_hash_of q = canonical_hash lib q.payload

  unfoldable pub evidence_id_of : SourceRequest → String
  evidence_id_of q = lib.uuid5_url (
      text_append q.tenant_id (
        text_append ":" (
          text_append q.workspace_id (
            text_append ":" (
              text_append q.source_id (
                text_append ":"
                  (text_append q.source_record_id (text_append ":" (payload_hash_of q)))))))))

  unfoldable pub event_id_of : SourceRequest → String
  unfolding evidence_id_of
  event_id_of q = lib.uuid5_url (text_append "source-outbox:" (evidence_id_of q))

  abbrev pub evidence_of : String → ℕ → SourceRequest → RawEvidence
  evidence_of run_id now q = record {
    evidence_id = evidence_id_of q;
    tenant_id = q.tenant_id;
    workspace_id = q.workspace_id;
    source_id = q.source_id;
    source_record_id = q.source_record_id;
    payload = q.payload;
    payload_hash = payload_hash_of q;
    collected_at = or_else q.observed_at now;
    connector_version = q.connector_version;
    schema_version = q.schema_version;
    ingestion_run_id = run_id;
  }

  abbrev pub with_provenance : Option Fields → Fields → Fields
  with_provenance none payload = payload
  with_provenance (some p) payload = set_field payload "provenance" (dict p)

  abbrev pub event_of : ℕ → SourceRequest → OutboxEvent
  event_of now q = record {
    event_id = event_id_of q;
    tenant_id = q.tenant_id;
    workspace_id = q.workspace_id;
    event_type = "source.raw_evidence.created";
    aggregate_id = evidence_id_of q;
    payload = with_provenance q.provenance (
        field "event_type" (text q.event_type) (
          field "evidence_id" (text (evidence_id_of q)) (
            field "source_id" (text q.source_id) (
              field "source_record_id" (text q.source_record_id) (
                field "payload_hash" (text (payload_hash_of q)) (
                  field "connector_version" (text q.connector_version)
                    (field "schema_version" (text q.schema_version) end)))))));
    created_at = now;
  }

  -- Writing with the evidence and the events in tables of their own.
  abbrev pub write_evidence :
      RawEvidence → Option (List EvidenceRow) → Result Exception Bool × Option (List EvidenceRow)
  write_evidence e none = (ok true, none)
  write_evidence e (some rows) = let (r, rows') = append_evidence lib e rows in (r, some rows')

  abbrev pub write_event : OutboxEvent → Option (List OutboxRow) → Bool × Option (List OutboxRow)
  write_event v none = (true, none)
  write_event v (some rows) = let (b, rows') = append_event lib v rows in (b, some rows')

  abbrev pub both_written : Bool → Bool → Result Exception Bool
  both_written accepted outbox_ok =
      if accepted && not outbox_ok
      then err (
          exception (other "RuntimeError")
            "evidence committed but outbox append failed; use SQLiteSourceLedger for atomicity")
      else ok accepted

  abbrev pub write_tables :
      OutboxEvent
      → Result Exception Bool × Option (List EvidenceRow)
      → Option (List OutboxRow)
      → Result Exception Bool × Sinks
  write_tables v (err x, e) o = (err x, tables e o)
  write_tables v (ok accepted, e) o =
      let (outbox_ok, o') = write_event v o in (both_written accepted outbox_ok, tables e o')

  -- The body of the `try` in `ingest`.
  unfoldable pub write : RawEvidence → OutboxEvent → Sinks → Result Exception Bool × Sinks
  unfolding commit_ingest append_evidence append_event
  write e v (ledger l) = let (r, l') = commit_ingest lib e v l in (r, ledger l')
  write e v (tables es os) = write_tables v (write_evidence e es) os

-- What became of a request that was admitted.
pub data Kept : Type 0 where
  duplicate_key : Option IdempotencyRecord → Kept
  duplicate_evidence : Kept
  recorded : Kept

abbrev pub kept_or_not : Bool → Kept
kept_or_not accepted = if accepted then recorded else duplicate_evidence

-- What the rest of `ingest` does with a claim that the request has taken: it goes unless the evidence is kept.
abbrev pub settle_claim :
    ClaimKey → String → Claims → Result Exception Bool × Sinks → Result Exception Kept × Store
settle_claim k event_id c (err x, s) =
    (err x, record { idempotency = some ((release k event_id c).1); sinks = s })
settle_claim k event_id c (ok false, s) =
    (ok duplicate_evidence, record { idempotency = some ((release k event_id c).1); sinks = s })
settle_claim k event_id c (ok true, s) = (ok recorded, record { idempotency = some c; sinks = s })

abbrev pub settle_unclaimed :
    Option Claims → Result Exception Bool × Sinks → Result Exception Kept × Store
settle_unclaimed c (err x, s) = (err x, record { idempotency = c; sinks = s })
settle_unclaimed c (ok accepted, s) =
    (ok (kept_or_not accepted), record { idempotency = c; sinks = s })

-- `if request.idempotency_key`
abbrev pub key_of : Option String → Option String
key_of none = none
key_of (some k) = if str_eq k "" then none else some k

module _ (lib : Libraries) where
  abbrev pub keep_claimed :
      RawEvidence → OutboxEvent → ClaimKey → Bool × Claims → Sinks → Result Exception Kept × Store
  keep_claimed e v k (false, c) s =
      (ok (duplicate_key (find k c)), record { idempotency = some c; sinks = s })
  keep_claimed e v k (true, c) s = settle_claim k v.event_id c (write lib e v s)

  abbrev pub keep_by_key :
      ℕ
      → SourceRequest
      → RawEvidence
      → OutboxEvent
      → Option String
      → Option Claims
      → Sinks
      → Result Exception Kept × Store
  keep_by_key now q e v (some key) (some c) s =
      let k : ClaimKey = (q.tenant_id, q.workspace_id, key) in
      keep_claimed e v k (claim now k v.event_id c) s
  keep_by_key now q e v key c s = settle_unclaimed c (write lib e v s)

  -- From the claim of the key to the refusal of what is kept already.
  unfoldable pub keep_evidence : String → ℕ → SourceRequest → Store → Result Exception Kept × Store
  unfolding event_id_of claim find release write set_field
  keep_evidence run_id now q s =
      keep_by_key now q (evidence_of lib run_id now q) (event_of lib now q)
        (key_of q.idempotency_key) s.idempotency s.sinks
