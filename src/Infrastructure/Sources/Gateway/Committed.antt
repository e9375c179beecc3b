-- ===== src/Infrastructure/Sources/Gateway/Committed.antt =====
-- A commit of the ledger (ois/infrastructure/source_gateway/ledger.py): it adds a row to both tables, or to none.
use niceone_obsidian.Prelude.{
  String, ◌≡◌, refl, Bool, true, false, ◌&&◌, ◌||◌, some, List, [], ◌∷◌, ◌++◌, any, str_eq,
  str_eq_refl, Bool-cases, inl, inr, ◌⊎◌, triple_eq, arith,
}
use niceone_obsidian.Prelude.Exec.{Result, ok, err}
use niceone_obsidian.Kernel.Errors.{Exception}
use niceone_obsidian.Infrastructure.Sources.Ledger.{
  RawEvidence, OutboxEvent, Libraries, EvidenceRow, OutboxRow, SourceLedger, is_event, evidence_row,
  outbox_row, commit_ingest, canonical_hash, same_evidence, find_row,
}
use niceone_obsidian.Infrastructure.Sources.Gateway.Paired.{any-snoc}

abbrev pub was_written : Result Exception Bool → Bool
was_written (ok b) = b
was_written (err x) = false

pub find_row-snoc :
    (i : String) (rows : List EvidenceRow) (x r : EvidenceRow)
    → find_row i rows ≡ some r
    → find_row i (rows ++ x ∷ []) ≡ some r
unfolding find_row
find_row-snoc i [] x r h = ground (arith, h)
find_row-snoc i (y ∷ rows) x r h = ground (arith, h, find_row-snoc i rows x r)

left_false : (a b : Bool) → (a || b) ≡ false → (a ≡ false) × (b ≡ false)
left_false true b h = cc
left_false false b h = (refl, h)

pub find_row-new :
    (x : EvidenceRow) (rows : List EvidenceRow)
    → any (same_evidence x) rows ≡ false
    → find_row x.evidence_id (rows ++ x ∷ []) ≡ some x
unfolding find_row
find_row-new x [] h = rw (str_eq_refl x.evidence_id) refl
find_row-new x (y ∷ rows) h =
    let (here, there) = left_false (same_evidence x y) (any (same_evidence x) rows) h in
    rw ((left_false (str_eq x.evidence_id y.evidence_id) _ here).0, find_row-new x rows there) refl

pub any-snoc_true :
    (p : OutboxRow → Bool) (vs : List OutboxRow) (v : OutboxRow)
    → any p vs ≡ true
    → any p (vs ++ v ∷ []) ≡ true
any-snoc_true p vs v h = ground (arith, h, any-snoc p vs v)

module _ (lib : Libraries) where
  -- A commit leaves the ledger and does not return true, or it returns true and adds a row to each table
  -- where there was no evidence in conflict with it.
  abbrev pub Commits :
      RawEvidence → OutboxEvent → SourceLedger → Result Exception Bool × SourceLedger → Type 0
  Commits e v l (r, m) =
      ((was_written r ≡ false) × (m ≡ l))
      ⊎ ((r ≡ ok true)
          × (any (same_evidence (evidence_row lib e)) l.raw_evidence ≡ false)
          × (m ≡ record {
            raw_evidence = l.raw_evidence ++ evidence_row lib e ∷ [];
            outbox = l.outbox ++ outbox_row lib v ∷ [];
          }))

  pub commit_ingest-Commits :
      (e : RawEvidence) (v : OutboxEvent) (l : SourceLedger)
      → Commits e v l (commit_ingest lib e v l)
  unfolding commit_ingest
  commit_ingest-Commits e v l =
      elim (Bool-cases (str_eq (canonical_hash lib e.payload) e.payload_hash)) [
        | inr bad ↦ rw bad (inl (refl, refl))
        | inl good ↦
            rw good
              (elim (Bool-cases
                (str_eq e.tenant_id v.tenant_id && str_eq e.workspace_id v.workspace_id)) [
                  | inr apart ↦ rw apart (inl (refl, refl))
                  | inl same ↦
                      rw same
                        (elim (Bool-cases
                          (any (same_evidence (evidence_row lib e)) l.raw_evidence)) [
                            | inl there ↦ rw there (inl (refl, refl))
                            | inr new ↦
                                rw new (elim (Bool-cases (any (is_event v.event_id) l.outbox)) [
                                  | inl sent ↦ rw sent (inl (refl, refl))
                                  | inr fresh ↦ rw fresh (inr (refl, refl, refl))
                                ])
                          ])
                ])
      ]
