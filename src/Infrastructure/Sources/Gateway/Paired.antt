-- ===== src/Infrastructure/Sources/Gateway/Paired.antt =====
-- The ledger of a gateway (ois/infrastructure/source_gateway/ledger.py and gateway.py): evidence and events
-- stand in pairs.
use niceone_obsidian.Prelude.{
  ℕ, String, ◌≡◌, refl, ◌∙◌, Bool, true, false, not, ◌&&◌, ◌||◌, some, List, [], ◌∷◌, ◌++◌, any,
  str_eq, str_eq_refl, Bool-cases, inl, inr, arith,
}
use niceone_obsidian.Infrastructure.Sources.Ledger.{
  Libraries, EvidenceRow, OutboxRow, SourceLedger, same_evidence, is_event, evidence_row,
  outbox_row, insert_evidence, insert_event, both, accept, published, mark_published,
  canonical_hash, commit_ingest,
}
use niceone_obsidian.Infrastructure.Sources.Limits.{Floats}
use niceone_obsidian.Infrastructure.Sources.Requests.{
  SourceRequest, Sinks, ledger, tables, Store, Gateway, Wiring,
}
use niceone_obsidian.Infrastructure.Sources.Keeping.{
  evidence_of, event_of, evidence_id_of, event_id_of, write, keep_evidence,
}
use niceone_obsidian.Infrastructure.Sources.Gateway.{Call, mark_in, run_calls}
use niceone_obsidian.Infrastructure.Sources.Gateway.Writing.{keep_evidence-Writes}
use niceone_obsidian.Infrastructure.Sources.Gateway.Steps.{run_calls-store}
use Prim.Native.String.{◌++◌ as text_append}

module _ {ℓ} {A : Type ℓ} where
  pub any-snoc : (p : A → Bool) (xs : List A) (y : A) → any p (xs ++ y ∷ []) ≡ (any p xs || p y)
  any-snoc p [] y = ground arith
  any-snoc p (x ∷ xs) y = ground (arith, any-snoc p xs y)

  -- No entry is the same as an earlier one.
  abbrev pub distinct_by : (A → A → Bool) → List A → Bool
  distinct_by same [] = true
  distinct_by same (x ∷ xs) = not (any (λ y. same y x) xs) && distinct_by same xs

  distinct_by-snoc :
      (same : A → A → Bool) (xs : List A) (y : A)
      → distinct_by same xs ≡ true
      → any (same y) xs ≡ false
      → distinct_by same (xs ++ y ∷ []) ≡ true
  distinct_by-snoc same [] y h n = refl
  distinct_by-snoc same (x ∷ xs) y h n =
      ground (arith, h, n, any-snoc (λ z. same z x) xs y, distinct_by-snoc same xs y)

abbrev same_event : OutboxRow → OutboxRow → Bool
same_event q r = is_event q.event_id r

module _ (lib : Libraries) where
  -- The event of a row of evidence.
  abbrev pub is_pair : EvidenceRow → OutboxRow → Bool
  is_pair e v =
      str_eq v.aggregate_id e.evidence_id
      && (str_eq v.event_id (lib.uuid5_url (text_append "source-outbox:" e.evidence_id))
          && (str_eq v.tenant_id e.tenant_id && str_eq v.workspace_id e.workspace_id))

  abbrev pub paired : List EvidenceRow → List OutboxRow → Bool
  paired [] [] = true
  paired [] (v ∷ vs) = false
  paired (e ∷ es) [] = false
  paired (e ∷ es) (v ∷ vs) = is_pair e v && paired es vs

  -- The rows of both tables stand in pairs, in the same order, and no row is there twice.
  pub record SoundLedger (l : SourceLedger) : Type 0 where
    pub pairs : paired l.raw_evidence l.outbox ≡ true
    pub evidence_once : distinct_by same_evidence l.raw_evidence ≡ true
    pub events_once : distinct_by same_event l.outbox ≡ true

  -- The gateway writes to one ledger, which is sound.
  abbrev pub SoundSinks : Sinks → Type 0
  SoundSinks (ledger l) = SoundLedger l
  SoundSinks (tables e o) = false ≡ true

  paired-snoc :
      (es : List EvidenceRow) (vs : List OutboxRow) (e : EvidenceRow) (v : OutboxRow)
      → paired es vs ≡ true
      → is_pair e v ≡ true
      → paired (es ++ e ∷ []) (vs ++ v ∷ []) ≡ true
  paired-snoc [] [] e v h p = ground (arith, p)
  paired-snoc [] (y ∷ vs) e v h p = ground (arith, h)
  paired-snoc (x ∷ es) [] e v h p = ground (arith, h)
  paired-snoc (x ∷ es) (y ∷ vs) e v h p = ground (arith, h, paired-snoc es vs e v)

  accept-SoundLedger :
      (e : EvidenceRow) (v : OutboxRow) (l : SourceLedger)
      → SoundLedger l
      → is_pair e v ≡ true
      → SoundLedger (accept (both (insert_evidence e l.raw_evidence) (insert_event v l.outbox)) l).1
  accept-SoundLedger e v l s p = elim (Bool-cases (any (same_evidence e) l.raw_evidence)) [
    | inl there ↦ rw there s
    | inr new ↦ rw new (elim (Bool-cases (any (is_event v.event_id) l.outbox)) [
      | inl sent ↦ rw sent s
      | inr unsent ↦ rw unsent (record {
        pairs = paired-snoc l.raw_evidence l.outbox e v s.pairs p;
        evidence_once = distinct_by-snoc same_evidence l.raw_evidence e s.evidence_once new;
        events_once = distinct_by-snoc same_event l.outbox v s.events_once unsent;
      })
    ])
  ]

  paired-published :
      (now : ℕ) (i : String) (es : List EvidenceRow) (vs : List OutboxRow)
      → paired es (published now i vs) ≡ paired es vs
  unfolding published
  paired-published now i [] [] = refl
  paired-published now i [] (v ∷ vs) = refl
  paired-published now i (e ∷ es) [] = refl
  paired-published now i (e ∷ es) (v ∷ vs) = elim (Bool-cases (str_eq v.event_id i)) [
    | inl y ↦ rw (y, paired-published now i es vs) refl
    | inr n ↦ rw (n, paired-published now i es vs) refl
  ]

-- A test that does not look at `published_at` finds the same before and after a publication.
pub any-published :
    (p : OutboxRow → Bool) (now : ℕ) (i : String) (vs : List OutboxRow)
    → ((v : OutboxRow) → p (record v { published_at = some now }) ≡ p v)
    → any p (published now i vs) ≡ any p vs
unfolding published
any-published p now i [] same = refl
any-published p now i (v ∷ vs) same = elim (Bool-cases (str_eq v.event_id i)) [
  | inl y ↦ rw (y, same v, any-published p now i vs same) refl
  | inr n ↦ rw (n, any-published p now i vs same) refl
]

distinct_by-published :
    (now : ℕ) (i : String) (vs : List OutboxRow)
    → distinct_by same_event (published now i vs) ≡ distinct_by same_event vs
unfolding published
distinct_by-published now i [] = refl
distinct_by-published now i (v ∷ vs) =
    let found : any (λ y. same_event y v) (published now i vs) ≡ any (λ y. same_event y v) vs =
      any-published (λ y. same_event y v) now i vs (λ y. refl) in
    elim (Bool-cases (str_eq v.event_id i)) [
      | inl y ↦ rw (y, found, distinct_by-published now i vs) refl
      | inr n ↦ rw (n, found, distinct_by-published now i vs) refl
    ]

module _ (lib : Libraries) where
  commit_ingest-SoundLedger :
      (run_id : String) (now : ℕ) (q : SourceRequest) (l : SourceLedger)
      → SoundLedger lib l
      → SoundLedger lib (commit_ingest lib (evidence_of lib run_id now q) (event_of lib now q) l).1
  unfolding commit_ingest event_id_of
  commit_ingest-SoundLedger run_id now q l s =
      rw
        (
          str_eq_refl (canonical_hash lib q.payload),
          str_eq_refl q.tenant_id,
          str_eq_refl q.workspace_id,
        )
        (accept-SoundLedger lib (evidence_row lib (evidence_of lib run_id now q))
          (outbox_row lib (event_of lib now q)) l s
          (rw
            (
              str_eq_refl (evidence_id_of lib q),
              str_eq_refl (event_id_of lib q),
              str_eq_refl q.tenant_id,
              str_eq_refl q.workspace_id,
            )
            refl))

  write-SoundSinks :
      (run_id : String) (now : ℕ) (q : SourceRequest) (s : Sinks)
      → SoundSinks lib s
      → SoundSinks lib (write lib (evidence_of lib run_id now q) (event_of lib now q) s).1
  unfolding write
  write-SoundSinks run_id now q (ledger l) h = commit_ingest-SoundLedger run_id now q l h
  write-SoundSinks run_id now q (tables e o) h = ground (arith, h)

  keep_evidence-SoundSinks :
      (run_id : String) (now : ℕ) (q : SourceRequest) (s : Store)
      → SoundSinks lib s.sinks
      → SoundSinks lib (keep_evidence lib run_id now q s).1.sinks
  keep_evidence-SoundSinks run_id now q s h =
      (keep_evidence-Writes (SoundSinks lib) lib run_id now q s h).either
        (write-SoundSinks run_id now q s.sinks h)

  mark_in-SoundSinks :
      (now : ℕ) (i : String) (s : Sinks) → SoundSinks lib s → SoundSinks lib (mark_in now i s)
  unfolding mark_published
  mark_in-SoundSinks now i (tables e o) h = ground (arith, h)
  mark_in-SoundSinks now i (ledger l) h = record {
    pairs = paired-published lib now i l.raw_evidence l.outbox ∙ h.pairs;
    evidence_once = h.evidence_once;
    events_once = distinct_by-published now i l.outbox ∙ h.events_once;
  }

module _ {f : Floats} {P : Type 0} (w : Wiring P) where
  -- Whatever is called on a gateway that writes to one sound ledger, in any order and with any draws, it
  -- writes to a sound ledger afterwards: each evidence has its event, in the same place and of the same
  -- tenant and workspace, and nothing is there twice.
  pub run_calls-SoundSinks :
      (cs : List (Call f)) (g : Gateway f P)
      → SoundSinks w.libraries g.store.sinks
      → SoundSinks w.libraries (run_calls w cs g).store.sinks
  run_calls-SoundSinks = run_calls-store {w = w} {Q = λ s. SoundSinks w.libraries s.sinks} (record {
    kept = keep_evidence-SoundSinks w.libraries;
    marked = λ now i s h. mark_in-SoundSinks w.libraries now i s.sinks h;
  })
