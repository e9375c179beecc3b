-- ===== src/Infrastructure/Sources/Gateway/Stored.antt =====
-- The evidence of a gateway (ois/infrastructure/source_gateway/evidence.py, ledger.py and gateway.py): what
-- an attempt to keep evidence stores, and when it is refused.
use niceone_obsidian.Prelude.{
  ℕ, String, ◌≡◌, refl, ◌∙◌, Bool, true, false, ◌&&◌, ◌||◌, Option, none, some, List, [], ◌∷◌, ◌++◌,
  any, str_eq, str_eq_refl, triple_eq, Bool-cases, inl, inr, arith,
}
use niceone_obsidian.Prelude.Exec.{Result, ok, err}
use niceone_obsidian.Kernel.Errors.{Exception}
use niceone_obsidian.Infrastructure.Sources.Ledger.{
  RawEvidence, OutboxEvent, Libraries, EvidenceRow, OutboxRow, SourceLedger, evidence_row,
  mark_published, commit_ingest, append_evidence, canonical_hash, same_evidence,
}
use niceone_obsidian.Infrastructure.Sources.Requests.{SourceRequest, Sinks, ledger, tables, Store}
use niceone_obsidian.Infrastructure.Sources.Keeping.{
  Kept, evidence_id_of, evidence_of, event_of, write, write_event, write_tables, write_evidence,
  both_written, keep_evidence,
}
use niceone_obsidian.Infrastructure.Sources.Gateway.{mark_in}
use niceone_obsidian.Infrastructure.Sources.Gateway.Writing.{was_recorded, keep_evidence-Writes}
use niceone_obsidian.Infrastructure.Sources.Gateway.Committed.{
  was_written, Commits, commit_ingest-Commits,
}
use niceone_obsidian.Infrastructure.Sources.Gateway.Paired.{any-snoc}

-- The evidence of an identifier is stored.
abbrev pub has_id : String → EvidenceRow → Bool
has_id i r = str_eq i r.evidence_id

abbrev pub has_evidence : String → Sinks → Bool
has_evidence i (ledger l) = any (has_id i) l.raw_evidence
has_evidence i (tables none o) = false
has_evidence i (tables (some rows) o) = any (has_id i) rows

-- An evidence writer is configured.
abbrev pub stores_evidence : Sinks → Bool
stores_evidence (ledger l) = true
stores_evidence (tables none o) = false
stores_evidence (tables (some rows) o) = true

-- What an attempt to write does to the evidence.
pub record Storing (i : String) (s : Sinks) (r : Result Exception Bool × Sinks) : Type 0 where
  pub keeps : (j : String) → has_evidence j s ≡ true → has_evidence j r.1 ≡ true
  pub stored : stores_evidence s ≡ true → was_written r.0 ≡ true → has_evidence i r.1 ≡ true
  pub refused : has_evidence i s ≡ true → was_written r.0 ≡ false

or_right : (a b : Bool) → b ≡ true → (a || b) ≡ true
or_right true b h = refl
or_right false b h = h

same_evidence-has_id :
    (r : EvidenceRow) (rows : List EvidenceRow)
    → any (has_id r.evidence_id) rows ≡ true
    → any (same_evidence r) rows ≡ true
same_evidence-has_id r [] h = h
same_evidence-has_id r (q ∷ rows) h = elim (Bool-cases (str_eq r.evidence_id q.evidence_id)) [
  | inl y ↦ rw y refl
  | inr n ↦
      or_right (same_evidence r q) (any (same_evidence r) rows)
        (same_evidence-has_id r rows (ground (arith, h, n)))
]

insert-Storing :
    (r : EvidenceRow) (rows : List EvidenceRow) (s t : Sinks)
    → any (same_evidence r) rows ≡ false
    → ((j : String) → has_evidence j s ≡ any (has_id j) rows)
    → ((j : String) → has_evidence j t ≡ any (has_id j) (rows ++ r ∷ []))
    → Storing r.evidence_id s (ok true, t)
insert-Storing r rows s t n p q = record {
  keeps = λ j h. ground (arith, h, p j, q j, any-snoc (has_id j) rows r);
  stored = λ y w.
      ground
        (arith, q r.evidence_id, any-snoc (has_id r.evidence_id) rows r, str_eq_refl r.evidence_id);
  refused = λ h. ground (arith, h, n, p r.evidence_id, same_evidence-has_id r rows);
}

-- An attempt that does not write leaves the evidence.
unwritten-Storing :
    (i : String) (s t : Sinks) (r : Result Exception Bool)
    → was_written r ≡ false
    → ((j : String) → has_evidence j t ≡ has_evidence j s)
    → Storing i s (r, t)
unwritten-Storing i s t r n p = record {
  keeps = λ j h. p j ∙ h;
  stored = λ y w. ground (arith, n, w);
  refused = λ h. n;
}

module _ (lib : Libraries) where
  Commits-Storing :
      (e : RawEvidence) (v : OutboxEvent) (l : SourceLedger)
      (c : Result Exception Bool × SourceLedger)
      → Commits lib e v l c
      → Storing e.evidence_id (ledger l) (c.0, ledger c.1)
  Commits-Storing e v l (r, m) (inl (n, same)) =
      rw same (unwritten-Storing e.evidence_id (ledger l) (ledger l) r n (λ j. refl))
  Commits-Storing e v l (r, m) (inr (y, n, grown)) =
      rw (y, grown)
        (insert-Storing (evidence_row lib e) l.raw_evidence (ledger l) _ n (λ j. refl) (λ j. refl))

  write_evidence-Storing :
      (e : RawEvidence) (es : Option (List EvidenceRow)) (os : Option (List OutboxRow))
      → Storing e.evidence_id
          (tables es os)
          ((write_evidence lib e es).0, tables ((write_evidence lib e es).1) os)
  unfolding append_evidence
  write_evidence-Storing e none os = record {
    keeps = λ j h. h;
    stored = λ y w. y;
    refused = λ h. ground (arith, h);
  }
  write_evidence-Storing e (some rows) os =
      elim (Bool-cases (str_eq (canonical_hash lib e.payload) e.payload_hash)) [
        | inr bad ↦
            rw bad (unwritten-Storing e.evidence_id (tables (some rows) os) _ _ refl (λ j. refl))
        | inl good ↦ rw good (elim (Bool-cases (any (same_evidence (evidence_row lib e)) rows)) [
          | inl there ↦
              rw there
                (unwritten-Storing e.evidence_id (tables (some rows) os) _ _ refl (λ j. refl))
          | inr new ↦ rw new (
              insert-Storing (evidence_row lib e) rows (tables (some rows) os) _ new (λ j. refl)
                (λ j. refl))
        ])
      ]

  -- The events of a gateway do not matter for its evidence.
  evidence_alone :
      (i : String) (es : Option (List EvidenceRow)) (o p : Option (List OutboxRow))
      → has_evidence i (tables es o) ≡ has_evidence i (tables es p)
  evidence_alone i none o p = refl
  evidence_alone i (some rows) o p = refl

  was_written-both : (a b : Bool) → was_written (both_written lib a b) ≡ (a && b)
  was_written-both true true = refl
  was_written-both true false = refl
  was_written-both false true = refl
  was_written-both false false = refl

  write_tables-Storing :
      (i : String) (s : Sinks) (v : OutboxEvent)
      (r : Result Exception Bool × Option (List EvidenceRow)) (os : Option (List OutboxRow))
      → Storing i s (r.0, tables r.1 os)
      → Storing i s (write_tables lib v r os)
  write_tables-Storing i s v (err x, e) os w = w
  write_tables-Storing i s v (ok a, e) os w =
      let (b, o) = write_event lib v os in
      record {
        keeps = λ j h. evidence_alone j e o os ∙ w.keeps j h;
        stored =
            λ y z. evidence_alone i e o os ∙ w.stored y (ground (arith, z, was_written-both a b));
        refused = λ h. ground (arith, w.refused h, was_written-both a b);
      }

  write-Storing :
      (e : RawEvidence) (v : OutboxEvent) (s : Sinks) → Storing e.evidence_id s (write lib e v s)
  unfolding write
  write-Storing e v (ledger l) =
      Commits-Storing e v l (commit_ingest lib e v l) (commit_ingest-Commits lib e v l)
  write-Storing e v (tables es os) =
      write_tables-Storing e.evidence_id (tables es os) v (write_evidence lib e es) os
        (write_evidence-Storing e es os)

-- What an attempt to keep the evidence of an identifier does to a store.
pub record Keeping (i : String) (s : Sinks) (r : Result Exception Kept × Store) : Type 0 where
  pub keeps : (j : String) → has_evidence j s ≡ true → has_evidence j r.1.sinks ≡ true
  pub stored : stores_evidence s ≡ true → was_recorded r.0 ≡ true → has_evidence i r.1.sinks ≡ true
  pub refused : has_evidence i s ≡ true → was_recorded r.0 ≡ false

module _ (lib : Libraries) where
  pub keep_evidence-Keeping :
      (run_id : String) (now : ℕ) (q : SourceRequest) (s : Store)
      → Keeping (evidence_id_of lib q) s.sinks (keep_evidence lib run_id now q s)
  keep_evidence-Keeping run_id now q s =
      let w : Storing (evidence_id_of lib q) s.sinks
          (write lib (evidence_of lib run_id now q) (event_of lib now q) s.sinks) =
        write-Storing lib (evidence_of lib run_id now q) (event_of lib now q) s.sinks in
      let k : Result Exception Kept × Store = keep_evidence lib run_id now q s in
      let i : String = evidence_id_of lib q in
      let t = keep_evidence-Writes {0} (λ t. Unit) lib run_id now q s tt in
      record {
        keeps = λ j h.
            (keep_evidence-Writes (λ t. has_evidence j t ≡ true) lib run_id now q s h).either
              (w.keeps j h);
        stored = λ y z. rw (t.written z) (w.stored y (rw (t.accepted z) refl));
        refused = λ h. elim (Bool-cases (was_recorded k.0)) [
          | inl z ↦
              let no : was_written
                    (write lib (evidence_of lib run_id now q) (event_of lib now q) s.sinks).0
                  ≡ false =
                w.refused h in
              cc (rw (t.accepted z) at no)
          | inr z ↦ z
        ];
      }

pub mark_in-has_evidence :
    (now : ℕ) (i j : String) (s : Sinks) → has_evidence j (mark_in now i s) ≡ has_evidence j s
unfolding mark_published
mark_in-has_evidence now i j (ledger l) = refl
mark_in-has_evidence now i j (tables none none) = refl
mark_in-has_evidence now i j (tables (some r) none) = refl
mark_in-has_evidence now i j (tables none (some rows)) = refl
mark_in-has_evidence now i j (tables (some r) (some rows)) = refl
