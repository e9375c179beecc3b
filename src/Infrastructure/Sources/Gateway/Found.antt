-- ===== src/Infrastructure/Sources/Gateway/Found.antt =====
-- Reading back what a gateway accepted (ois/infrastructure/source_gateway/gateway.py and ledger.py).
use niceone_obsidian.Prelude.{
  ℕ, String, ◌≡◌, refl, sym, ◌∙◌, Bool, true, false, ◌&&◌, none, some, List, any, str_eq,
  str_eq_refl, inl, inr, triple_eq, arith,
}
use niceone_obsidian.Prelude.Exec.{Result, ok, err}
use niceone_obsidian.Kernel.Errors.{Exception}
use niceone_obsidian.Infrastructure.Sources.Ledger.{
  RawEvidence, OutboxEvent, Libraries, EvidenceRow, OutboxRow, SourceLedger, evidence_row,
  outbox_row, commit_ingest, find_row, evidence, mark_published,
}
use niceone_obsidian.Infrastructure.Sources.Limits.{Floats}
use niceone_obsidian.Infrastructure.Sources.Requests.{
  SourceRequest, SourceResponse, Sinks, Draws, ledger, tables, Gateway, Wiring,
}
use niceone_obsidian.Infrastructure.Sources.Keeping.{
  evidence_of, event_of, evidence_id_of, event_id_of, payload_hash_of, write,
}
use niceone_obsidian.Infrastructure.Sources.Gateway.{ingest, answer, Call, run_calls, mark_in}
use niceone_obsidian.Infrastructure.Sources.Gateway.Writing.{keep_evidence-Writes}
use niceone_obsidian.Infrastructure.Sources.Gateway.Steps.{
  Steady, run_calls-store, Answers, ingest-Answers,
}
use niceone_obsidian.Infrastructure.Sources.Gateway.Paired.{any-snoc, any-published}
use niceone_obsidian.Infrastructure.Sources.Gateway.Committed.{
  Commits, commit_ingest-Commits, find_row-snoc, find_row-new, any-snoc_true,
}

-- A row of the outbox announces the evidence of an answer, in the request's tenant and workspace.
abbrev pub announces : SourceRequest → SourceResponse → OutboxRow → Bool
announces q r v =
    str_eq v.event_id r.event_id
    && (str_eq v.aggregate_id r.evidence_id
        && (str_eq v.tenant_id q.tenant_id && str_eq v.workspace_id q.workspace_id))

-- The evidence is that of the request and of its answer.
pub record Tells (lib : Libraries) (q : SourceRequest) (r : SourceResponse) (e : RawEvidence)
    : Type 0 where
  pub evidence_id : e.evidence_id ≡ r.evidence_id
  pub tenant_id : e.tenant_id ≡ q.tenant_id
  pub workspace_id : e.workspace_id ≡ q.workspace_id
  pub source_id : e.source_id ≡ q.source_id
  pub source_record_id : e.source_record_id ≡ q.source_record_id
  pub payload : e.payload ≡ q.payload
  pub payload_hash : e.payload_hash ≡ r.payload_hash
  pub canonical : e.payload_hash ≡ lib.sha256_hex (lib.dumps_compact q.payload)
  pub observed_at : (t : ℕ) → q.observed_at ≡ some t → e.collected_at ≡ t
  pub connector_version : e.connector_version ≡ q.connector_version
  pub schema_version : e.schema_version ≡ q.schema_version

-- The gateway writes to one ledger, where the identifier of the answer finds the evidence, and an event
-- announces it.
pub record ReadsBack (lib : Libraries) (q : SourceRequest) (r : SourceResponse) (s : Sinks)
    : Type 0 where
  pub found : SourceLedger
  pub is_ledger : s ≡ ledger found
  pub stored : RawEvidence
  pub read : evidence lib r.evidence_id found ≡ ok (some stored)
  pub tells : Tells lib q r stored
  pub announced : any (announces q r) found.outbox ≡ true

module _ (lib : Libraries) where
  -- The identifier finds the row, and an event announces it.
  abbrev Stands : SourceRequest → SourceResponse → EvidenceRow → Sinks → Type 0
  Stands q r row (ledger l) =
      (find_row r.evidence_id l.raw_evidence ≡ some row) × (any (announces q r) l.outbox ≡ true)
  Stands q r row (tables e o) = false ≡ true

  commit-Stands :
      (q : SourceRequest) (a : SourceResponse) (row : EvidenceRow) (e : RawEvidence)
      (v : OutboxEvent) (l : SourceLedger) (c : Result Exception Bool × SourceLedger)
      → Commits lib e v l c
      → Stands q a row (ledger l)
      → Stands q a row (ledger c.1)
  commit-Stands q a row e v l (r, m) (inl (n, same)) h = rw same h
  commit-Stands q a row e v l (r, m) (inr (y, n, grown)) (f, b) = rw grown (
    find_row-snoc a.evidence_id l.raw_evidence (evidence_row lib e) row f,
    any-snoc_true (announces q a) l.outbox (outbox_row lib v) b,
  )

  write-Stands :
      (q : SourceRequest) (a : SourceResponse) (row : EvidenceRow) (e : RawEvidence)
      (v : OutboxEvent) (s : Sinks)
      → Stands q a row s
      → Stands q a row (write lib e v s).1
  unfolding write
  write-Stands q a row e v (ledger l) h =
      commit-Stands q a row e v l (commit_ingest lib e v l) (commit_ingest-Commits lib e v l) h
  write-Stands q a row e v (tables es os) h = ground (arith, h)

  -- The answer names the evidence and the event of the request.
  abbrev Names : SourceRequest → SourceResponse → Type 0
  Names q a =
      (a.evidence_id ≡ evidence_id_of lib q)
      × (a.event_id ≡ event_id_of lib q)
      × (a.payload_hash ≡ payload_hash_of lib q)

  written-Stands :
      (run_id : String) (now : ℕ) (q : SourceRequest) (a : SourceResponse) (s : Sinks)
      (l : SourceLedger)
      → Names q a
      → s ≡ ledger l
      → (write lib (evidence_of lib run_id now q) (event_of lib now q) s).0 ≡ ok true
      → Stands q a
          (evidence_row lib (evidence_of lib run_id now q))
          (write lib (evidence_of lib run_id now q) (event_of lib now q) s).1
  unfolding write
  written-Stands run_id now q a s l (i, v, p) e w = rw e (
      go (commit_ingest-Commits lib (evidence_of lib run_id now q) (event_of lib now q) l)
        (rw e at w))
    where
      go :
          Commits lib
            (evidence_of lib run_id now q)
            (event_of lib now q)
            l
            (commit_ingest lib (evidence_of lib run_id now q) (event_of lib now q) l)
          → (commit_ingest lib (evidence_of lib run_id now q) (event_of lib now q) l).0 ≡ ok true
          → Stands q a
              (evidence_row lib (evidence_of lib run_id now q))
              (ledger (commit_ingest lib (evidence_of lib run_id now q) (event_of lib now q) l).1)
      go (inl (n, same)) t = cc (rw t at n)
      go (inr (y, n, grown)) t =
          rw (grown, i, v)
            (
              find_row-new (evidence_row lib (evidence_of lib run_id now q)) l.raw_evidence n,
              ground (
                arith,
                any-snoc (announces q a) l.outbox (outbox_row lib (event_of lib now q)),
                i,
                v,
                str_eq_refl (event_id_of lib q),
                str_eq_refl (evidence_id_of lib q),
                str_eq_refl q.tenant_id,
                str_eq_refl q.workspace_id,
              ),
            )

  mark_in-Stands :
      (now : ℕ) (i : String) (q : SourceRequest) (a : SourceResponse) (row : EvidenceRow)
      (s : Sinks)
      → Stands q a row s
      → Stands q a row (mark_in now i s)
  unfolding mark_published
  mark_in-Stands now i q a row (ledger l) (f, b) =
      (f, any-published (announces q a) now i l.outbox (λ v. refl) ∙ b)
  mark_in-Stands now i q a row (tables e o) h = ground (arith, h)

  -- What stands is read back, where the text of the payload gives the payload.
  Stands-ReadsBack :
      (run_id : String) (now : ℕ) (q : SourceRequest) (r a : SourceResponse) (s : Sinks)
      → Names q r
      → a.evidence_id ≡ r.evidence_id
      → a.event_id ≡ r.event_id
      → lib.loads (lib.dumps q.payload) ≡ ok q.payload
      → Stands q a (evidence_row lib (evidence_of lib run_id now q)) s
      → ReadsBack lib q r s
  unfolding evidence
  Stands-ReadsBack run_id now q r a (tables e o) n x y j h = ground (arith, h)
  Stands-ReadsBack run_id now q r a (ledger l) (i, v, p) x y j (f, b) = record {
    found = l;
    is_ledger = refl;
    stored = evidence_of lib run_id now q;
    read = rw (sym x, f, j) refl;
    tells = record {
      evidence_id = sym i;
      tenant_id = refl;
      workspace_id = refl;
      source_id = refl;
      source_record_id = refl;
      payload = refl;
      payload_hash = sym p;
      canonical = refl;
      observed_at = λ t o. rw o refl;
      connector_version = refl;
      schema_version = refl;
    };
    announced = rw (sym x, sym y) b;
  }

module _ {P : Type 0} (w : Wiring P) where
  Stands-Steady :
      (q : SourceRequest) (a : SourceResponse) (row : EvidenceRow)
      → Steady w (λ s. Stands w.libraries q a row s.sinks)
  Stands-Steady q a row = record {
    kept = λ r now p s h.
        (keep_evidence-Writes (Stands w.libraries q a row) w.libraries r now p s h).either (
          write-Stands w.libraries q a row (evidence_of w.libraries r now p)
            (event_of w.libraries now p) s.sinks h);
    marked = λ now i s h. mark_in-Stands w.libraries now i q a row s.sinks h;
  }

module _ {f : Floats} {P : Type 0} (w : Wiring P) where
  -- Where a gateway writes to a ledger and has accepted a request, whatever its pipeline did, the evidence that
  -- its answer names is read back from the ledger after whatever calls, and tells the request: its tenant and
  -- workspace, source, record and payload, with the hash of the payload, and the instant of the observation where
  -- the request has one. An event of the request's tenant and workspace announces it. The json library is
  -- taken to give back the payload.
  pub accepted_found :
      (d : Draws f) (q : SourceRequest) (g : Gateway f P) (l : SourceLedger) (r : SourceResponse)
      (cs : List (Call f))
      → g.store.sinks ≡ ledger l
      → w.libraries.loads (w.libraries.dumps q.payload) ≡ ok q.payload
      → (ingest w d q g).0 ≡ ok r
      → r.accepted ≡ true
      → ReadsBack w.libraries q r (run_calls w cs (ingest w d q g).1).store.sinks
  accepted_found d q g l r cs e j x y =
      let lib : Libraries = w.libraries in
      let a : SourceResponse = answer lib q true none in
      let row : EvidenceRow = evidence_row lib (evidence_of lib d.run_id d.now q) in
      let k = keep_evidence-Writes {0} (λ t. Unit) lib d.run_id d.now q g.store tt in
      let kept : Answers lib (λ s. Stands lib q a row s.sinks) q (ingest w d q g) =
        ingest-Answers w (λ s. Stands lib q a row s.sinks) d q g
          (λ z. rw (k.written z) (
            written-Stands lib d.run_id d.now q a g.store.sinks l (refl, refl, refl) e
              (k.accepted z))) in
      let (n, h) = go (ingest w d q g) kept x in
      let (i, v, p) = n in
      Stands-ReadsBack lib d.run_id d.now q r a (run_calls w cs (ingest w d q g).1).store.sinks n
        (sym i) (sym v) j (run_calls-store (Stands-Steady w q a row) cs (ingest w d q g).1 h)
    where
      go :
          (z : Result Exception SourceResponse × Gateway f P)
          → Answers w.libraries
              (λ s.
                Stands w.libraries q
                  (answer w.libraries q true none)
                  (evidence_row w.libraries (evidence_of w.libraries d.run_id d.now q))
                  s.sinks)
              q
              z
          → z.0 ≡ ok r
          → Names w.libraries q r
            × Stands w.libraries q
                (answer w.libraries q true none)
                (evidence_row w.libraries (evidence_of w.libraries d.run_id d.now q))
                z.1.store.sinks
      go (err x, t) h e = cc
      go (ok s, t) h e =
          let same : s ≡ r = cc in let (i, v, p, u) = h (rw same y) in (rw (sym same) (i, v, p), u)
