-- ===== src/Infrastructure/Sources/Ledger.antt =====
-- ois/infrastructure/source_gateway/evidence.py, outbox.py and ledger.py: raw evidence, outbox events, the
-- SQLite stores of each, and the ledger that keeps both in one database. A table is the list of its rows;
-- an instant is counted in ticks.
use niceone_obsidian.Prelude.{
  ℕ, String, Bool, true, false, not, ◌&&◌, ◌||◌, Option, none, some, List, [], ◌∷◌, ◌++◌, any, ltb,
  nat_eq, is_some, str_eq, if◌then◌else◌, suc, zero,
}
use niceone_obsidian.Prelude.Values.{Fields}
use niceone_obsidian.Prelude.Exec.{Result, ok, err}
use niceone_obsidian.Kernel.Errors.{Exception, exception, value_error, permission_error}
use niceone_obsidian.Kernel.Policy.{before}

pub record RawEvidence : Type 0 where
  pub evidence_id : String
  pub tenant_id : String
  pub workspace_id : String
  pub source_id : String
  pub source_record_id : String
  pub payload : Fields
  pub payload_hash : String
  pub collected_at : ℕ
  pub connector_version : String
  pub schema_version : String
  pub ingestion_run_id : String

pub record OutboxEvent : Type 0 where
  pub event_id : String
  pub tenant_id : String
  pub workspace_id : String
  pub event_type : String
  pub aggregate_id : String
  pub payload : Fields
  pub created_at : ℕ

-- The libraries: `json.dumps` with compact separators and with the standard ones, `json.loads`, SHA-256 in
-- hexadecimal, and `str(uuid5(NAMESPACE_URL, name))`.
pub record Libraries : Type 0 where
  pub dumps_compact : Fields → String
  pub dumps : Fields → String
  pub loads : String → Result Exception Fields
  pub sha256_hex : String → String
  pub uuid5_url : String → String

-- A row of raw_evidence: what was written, with the payload as text.
pub record EvidenceRow : Type 0 where
  pub evidence_id : String
  pub tenant_id : String
  pub workspace_id : String
  pub source_id : String
  pub source_record_id : String
  pub payload : String
  pub payload_hash : String
  pub collected_at : ℕ
  pub connector_version : String
  pub schema_version : String
  pub ingestion_run_id : String

-- A row of outbox.
pub record OutboxRow : Type 0 where
  pub event_id : String
  pub tenant_id : String
  pub workspace_id : String
  pub event_type : String
  pub aggregate_id : String
  pub payload : String
  pub created_at : ℕ
  pub published_at : Option ℕ

-- SQLiteSourceLedger: the two tables of one database.
pub record SourceLedger : Type 0 where
  pub raw_evidence : List EvidenceRow
  pub outbox : List OutboxRow

abbrev pub empty_source_ledger : SourceLedger
empty_source_ledger = record { raw_evidence = []; outbox = [] }

-- The primary key of raw_evidence, and its UNIQUE columns.
abbrev pub same_evidence : EvidenceRow → EvidenceRow → Bool
same_evidence a b =
    str_eq a.evidence_id b.evidence_id
    || (str_eq a.tenant_id b.tenant_id
        && (str_eq a.workspace_id b.workspace_id
            && (str_eq a.source_id b.source_id
                && (str_eq a.source_record_id b.source_record_id
                    && str_eq a.payload_hash b.payload_hash))))

-- An INSERT; none where it raises IntegrityError.
abbrev pub insert_evidence : EvidenceRow → List EvidenceRow → Option (List EvidenceRow)
insert_evidence r rows = if any (same_evidence r) rows then none else some (rows ++ r ∷ [])

abbrev pub is_event : String → OutboxRow → Bool
is_event i r = str_eq i r.event_id

abbrev pub insert_event : OutboxRow → List OutboxRow → Option (List OutboxRow)
insert_event r rows = if any (is_event r.event_id) rows then none else some (rows ++ r ∷ [])

-- What a statement in autocommit leaves of the table, and whether it was accepted.
abbrev pub accept {ℓ} : {A : Type ℓ} → Option A → A → Bool × A
accept none rows = (false, rows)
accept (some new) rows = (true, new)

-- A transaction of both statements, which is rolled back where either fails.
abbrev pub both : Option (List EvidenceRow) → Option (List OutboxRow) → Option SourceLedger
both none o = none
both (some e) none = none
both (some e) (some o) = some (record { raw_evidence = e; outbox = o })

-- `UPDATE outbox SET published_at=... WHERE event_id=?`
unfoldable pub published : ℕ → String → List OutboxRow → List OutboxRow
published now i [] = []
published now i (r ∷ rows) =
    (if str_eq r.event_id i then record r { published_at = some now } else r) ∷ published now i rows

-- SQLiteSourceLedger.mark_published
unfoldable pub mark_published : ℕ → String → SourceLedger → SourceLedger
unfolding published
mark_published now i l = record l { outbox = published now i l.outbox }

-- `SELECT * FROM raw_evidence WHERE evidence_id=?`
unfoldable pub find_row : String → List EvidenceRow → Option EvidenceRow
find_row i [] = none
find_row i (r ∷ rows) = if str_eq i r.evidence_id then some r else find_row i rows

abbrev pub optional : Result Exception RawEvidence → Result Exception (Option RawEvidence)
optional (err x) = err x
optional (ok e) = ok (some e)

-- `ORDER BY created_at, event_id`
abbrev pub is_earlier : OutboxRow → OutboxRow → Bool
is_earlier a b =
    ltb a.created_at b.created_at
    || (nat_eq a.created_at b.created_at && before a.event_id b.event_id)

unfoldable pub insert_by_time : OutboxRow → List OutboxRow → List OutboxRow
insert_by_time r [] = r ∷ []
insert_by_time r (q ∷ rows) =
    let more = insert_by_time r rows in if is_earlier r q then r ∷ q ∷ rows else q ∷ more

-- `SELECT * FROM outbox WHERE published_at IS NULL ORDER BY created_at, event_id`
unfoldable pub unpublished : List OutboxRow → List OutboxRow
unfolding insert_by_time
unpublished [] = []
unpublished (r ∷ rows) =
    let more = unpublished rows in if is_some r.published_at then more else insert_by_time r more

module _ (lib : Libraries) where
  abbrev pub canonical_hash : Fields → String
  canonical_hash payload = lib.sha256_hex (lib.dumps_compact payload)

  abbrev pub evidence_row : RawEvidence → EvidenceRow
  evidence_row e = record {
    evidence_id = e.evidence_id;
    tenant_id = e.tenant_id;
    workspace_id = e.workspace_id;
    source_id = e.source_id;
    source_record_id = e.source_record_id;
    payload = lib.dumps e.payload;
    payload_hash = e.payload_hash;
    collected_at = e.collected_at;
    connector_version = e.connector_version;
    schema_version = e.schema_version;
    ingestion_run_id = e.ingestion_run_id;
  }

  abbrev pub outbox_row : OutboxEvent → OutboxRow
  outbox_row v = record {
    event_id = v.event_id;
    tenant_id = v.tenant_id;
    workspace_id = v.workspace_id;
    event_type = v.event_type;
    aggregate_id = v.aggregate_id;
    payload = lib.dumps v.payload;
    created_at = v.created_at;
    published_at = none;
  }

  abbrev pub outbox_event : OutboxRow → Result Exception Fields → Result Exception OutboxEvent
  outbox_event r (err x) = err x
  outbox_event r (ok payload) = ok (record {
    event_id = r.event_id;
    tenant_id = r.tenant_id;
    workspace_id = r.workspace_id;
    event_type = r.event_type;
    aggregate_id = r.aggregate_id;
    payload = payload;
    created_at = r.created_at;
  })

  abbrev pub listed :
      Result Exception OutboxEvent
      → Result Exception (List OutboxEvent)
      → Result Exception (List OutboxEvent)
  listed (err x) more = err x
  listed (ok v) (err x) = err x
  listed (ok v) (ok vs) = ok (v ∷ vs)

  -- The events of the first rows, as many as the limit.
  abbrev pub outbox_events : ℕ → List OutboxRow → Result Exception (List OutboxEvent)
  outbox_events zero rows = ok []
  outbox_events (suc limit) [] = ok []
  outbox_events (suc limit) (r ∷ rows) =
      listed (outbox_event r (lib.loads r.payload)) (outbox_events limit rows)

  -- SQLiteSourceLedger.commit_ingest
  unfoldable pub commit_ingest :
      RawEvidence → OutboxEvent → SourceLedger → Result Exception Bool × SourceLedger
  commit_ingest e v l =
      if not (str_eq (canonical_hash e.payload) e.payload_hash)
      then (err (exception value_error "payload_hash does not match canonical payload"), l)
      else if not (str_eq e.tenant_id v.tenant_id && str_eq e.workspace_id v.workspace_id)
      then (err (exception permission_error "evidence and outbox event scopes differ"), l)
      else let (b, l') =
          accept
            (both (insert_evidence (evidence_row e) l.raw_evidence)
              (insert_event (outbox_row v) l.outbox))
            l in
        (ok b, l')

  -- SQLiteSourceLedger.pending
  unfoldable pub pending : ℕ → SourceLedger → Result Exception (List OutboxEvent)
  unfolding unpublished
  pending limit l = outbox_events limit (unpublished l.outbox)

  abbrev pub raw_evidence_of : EvidenceRow → Result Exception Fields → Result Exception RawEvidence
  raw_evidence_of r (err x) = err x
  raw_evidence_of r (ok payload) = ok (record {
    evidence_id = r.evidence_id;
    tenant_id = r.tenant_id;
    workspace_id = r.workspace_id;
    source_id = r.source_id;
    source_record_id = r.source_record_id;
    payload = payload;
    payload_hash = r.payload_hash;
    collected_at = r.collected_at;
    connector_version = r.connector_version;
    schema_version = r.schema_version;
    ingestion_run_id = r.ingestion_run_id;
  })

  abbrev pub found_evidence : Option EvidenceRow → Result Exception (Option RawEvidence)
  found_evidence none = ok none
  found_evidence (some r) = optional (raw_evidence_of r (lib.loads r.payload))

  -- SQLiteSourceLedger.evidence, also SQLiteRawEvidenceWriter.get on its table
  unfoldable pub evidence : String → SourceLedger → Result Exception (Option RawEvidence)
  unfolding find_row
  evidence i l = found_evidence (find_row i l.raw_evidence)

  -- SQLiteRawEvidenceWriter.append
  unfoldable pub append_evidence :
      RawEvidence → List EvidenceRow → Result Exception Bool × List EvidenceRow
  append_evidence e rows =
      if not (str_eq (canonical_hash e.payload) e.payload_hash)
      then (err (exception value_error "payload_hash does not match canonical payload"), rows)
      else let (b, rows') = accept (insert_evidence (evidence_row e) rows) rows in (ok b, rows')

  -- SQLiteOutboxStore.append
  unfoldable pub append_event : OutboxEvent → List OutboxRow → Bool × List OutboxRow
  append_event v rows = accept (insert_event (outbox_row v) rows) rows
