-- ===== src/Infrastructure/Sources/Gateway/Backed.antt =====
-- The idempotency keys of a gateway (ois/infrastructure/source_gateway/idempotency.py and gateway.py): a key
-- stays claimed only for an event that was written.
use niceone_obsidian.Prelude.{
  ℕ, String, ◌≡◌, refl, sym, ◌∙◌, Bool, true, false, Option, none, some, List, [], ◌∷◌, ◌++◌, any,
  str_eq_refl, triple_eq, triple_beq_iff, Bool-cases, inl, inr, arith,
}
use niceone_obsidian.Prelude.Dict.{get, contains, set, get-set, get-delete}
use niceone_obsidian.Prelude.Exec.{Result, ok, err}
use niceone_obsidian.Kernel.Errors.{Exception}
use niceone_obsidian.Infrastructure.Sources.Ledger.{
  RawEvidence, OutboxEvent, Libraries, EvidenceRow, OutboxRow, SourceLedger, is_event, outbox_row,
  mark_published, commit_ingest, append_event,
}
use niceone_obsidian.Infrastructure.Sources.Idempotency.{Claim, ClaimKey, Claims, claim, release}
use niceone_obsidian.Infrastructure.Sources.Limits.{Floats}
use niceone_obsidian.Infrastructure.Sources.Requests.{
  SourceRequest, Sinks, ledger, tables, Store, Gateway, Wiring,
}
use niceone_obsidian.Infrastructure.Sources.Keeping.{
  evidence_of, event_of, write, write_tables, write_evidence, settle_claim, settle_unclaimed,
  key_of, keep_by_key, keep_evidence,
}
use niceone_obsidian.Infrastructure.Sources.Gateway.{Call, mark_in, run_calls}
use niceone_obsidian.Infrastructure.Sources.Gateway.Steps.{run_calls-store}
use niceone_obsidian.Infrastructure.Sources.Gateway.Committed.{
  Commits, commit_ingest-Commits, any-snoc_true,
}
use niceone_obsidian.Infrastructure.Sources.Gateway.Paired.{any-snoc, any-published}

-- The event of an identifier is written.
abbrev pub has_event : String → Sinks → Bool
has_event i (ledger l) = any (is_event i) l.outbox
has_event i (tables e none) = false
has_event i (tables e (some rows)) = any (is_event i) rows

-- An outbox is configured.
abbrev pub sends_events : Sinks → Bool
sends_events (ledger l) = true
sends_events (tables e none) = false
sends_events (tables e (some rows)) = true

abbrev pub claims_of : Option Claims → Claims
claims_of none = []
claims_of (some c) = c

abbrev pub Backed : Claims → Sinks → Type 0
Backed c s = (k : ClaimKey) (x : Claim) → get c k ≡ some x → has_event x.event_id s ≡ true

-- An outbox is configured, and each claim is for an event in it.
pub record BackedStore (s : Store) : Type 0 where
  pub sends : sends_events s.sinks ≡ true
  pub backed : Backed (claims_of s.idempotency) s.sinks

-- The event is written where the evidence was accepted.
abbrev IsSent : String → Result Exception Bool × Sinks → Type 0
IsSent i (ok true, s) = has_event i s ≡ true
IsSent i (ok false, s) = Unit
IsSent i (err x, s) = Unit

-- What an attempt to write does to the events.
record Sending (i : String) (s : Sinks) (r : Result Exception Bool × Sinks) : Type 0 where
  sends : sends_events s ≡ true → sends_events r.1 ≡ true
  keeps : (j : String) → has_event j s ≡ true → has_event j r.1 ≡ true
  sent : sends_events s ≡ true → IsSent i r

unchanged-Sending : (i : String) (s : Sinks) (x : Exception) → Sending i s (err x, s)
unchanged-Sending i s x = record { sends = λ h. h; keeps = λ j h. h; sent = λ h. tt }

any-inserted :
    (v : OutboxRow) (rows : List OutboxRow) → any (is_event v.event_id) (rows ++ v ∷ []) ≡ true
any-inserted v rows = ground (arith, any-snoc (is_event v.event_id) rows v, str_eq_refl v.event_id)

module _ (lib : Libraries) where
  Commits-Sending :
      (e : RawEvidence) (v : OutboxEvent) (l : SourceLedger)
      (c : Result Exception Bool × SourceLedger)
      → Commits lib e v l c
      → Sending v.event_id (ledger l) (c.0, ledger c.1)
  Commits-Sending e v l (err x, m) (inl (n, same)) =
      rw same (unchanged-Sending v.event_id (ledger l) x)
  Commits-Sending e v l (ok false, m) (inl (n, same)) =
      rw same (record { sends = λ h. h; keeps = λ j h. h; sent = λ h. tt })
  Commits-Sending e v l (ok true, m) (inl (n, same)) = cc
  Commits-Sending e v l (r, m) (inr (y, n, grown)) =
      rw (y, grown)
        (record {
          sends = λ h. h;
          keeps = λ j h. any-snoc_true (is_event j) l.outbox (outbox_row lib v) h;
          sent = λ h. any-inserted (outbox_row lib v) l.outbox;
        })

  write_tables-Sending :
      (v : OutboxEvent) (es : Option (List EvidenceRow))
      (r : Result Exception Bool × Option (List EvidenceRow)) (os : Option (List OutboxRow))
      → Sending v.event_id (tables es os) (write_tables lib v r os)
  unfolding append_event
  write_tables-Sending v es (err x, e) none = record {
    sends = λ h. h;
    keeps = λ j h. h;
    sent = λ h. tt;
  }
  write_tables-Sending v es (err x, e) (some rows) = record {
    sends = λ h. h;
    keeps = λ j h. h;
    sent = λ h. tt;
  }
  write_tables-Sending v es (ok true, e) none = record {
    sends = λ h. h;
    keeps = λ j h. h;
    sent = λ h. h;
  }
  write_tables-Sending v es (ok false, e) none = record {
    sends = λ h. h;
    keeps = λ j h. h;
    sent = λ h. tt;
  }
  write_tables-Sending v es (ok true, e) (some rows) =
      elim (Bool-cases (any (is_event v.event_id) rows)) [
        | inl there ↦ rw there (record { sends = λ h. h; keeps = λ j h. h; sent = λ h. tt })
        | inr fresh ↦ rw fresh (record {
          sends = λ h. h;
          keeps = λ j h. any-snoc_true (is_event j) rows (outbox_row lib v) h;
          sent = λ h. any-inserted (outbox_row lib v) rows;
        })
      ]
  write_tables-Sending v es (ok false, e) (some rows) =
      elim (Bool-cases (any (is_event v.event_id) rows)) [
        | inl there ↦ rw there (record { sends = λ h. h; keeps = λ j h. h; sent = λ h. tt })
        | inr fresh ↦ rw fresh (record {
          sends = λ h. h;
          keeps = λ j h. any-snoc_true (is_event j) rows (outbox_row lib v) h;
          sent = λ h. tt;
        })
      ]

  write-Sending :
      (e : RawEvidence) (v : OutboxEvent) (s : Sinks) → Sending v.event_id s (write lib e v s)
  unfolding write
  write-Sending e v (ledger l) =
      Commits-Sending e v l (commit_ingest lib e v l) (commit_ingest-Commits lib e v l)
  write-Sending e v (tables es os) = write_tables-Sending v es (write_evidence lib e es) os

released-Backed :
    (k : ClaimKey) (x : Claim) (c : Claims) (s : Sinks)
    → contains c k ≡ false
    → Backed c s
    → Backed ((release k x.event_id (set c k x)).1) s
unfolding release contains
released-Backed k x c s n b j y h = b j y (
    ground (
      arith,
      h,
      n,
      get-set c k k x,
      get-set c k j x,
      get-delete (set c k x) k j,
      triple_beq_iff k j,
      triple_beq_iff k k,
      str_eq_refl x.event_id,
    ))

claimed-Backed :
    (k : ClaimKey) (x : Claim) (c : Claims) (s : Sinks)
    → has_event x.event_id s ≡ true
    → Backed c s
    → Backed (set c k x) s
claimed-Backed k x c s i b j y h = elim (Bool-cases (triple_eq.same_key k j)) [
  | inl this ↦ let p : x ≡ y = ground (arith, h, get-set c k j x, this) in rw (sym p) i
  | inr that ↦ b j y (ground (arith, h, get-set c k j x, that))
]

settle_claim-BackedStore :
    (k : ClaimKey) (x : Claim) (c : Claims) (s : Sinks) (r : Result Exception Bool × Sinks)
    → sends_events s ≡ true
    → contains c k ≡ false
    → Backed c s
    → Sending x.event_id s r
    → BackedStore (settle_claim k x.event_id (set c k x) r).1
settle_claim-BackedStore k x c s (err e, t) y n b w = record {
  sends = w.sends y;
  backed = released-Backed k x c t n (λ j z h. w.keeps z.event_id (b j z h));
}
settle_claim-BackedStore k x c s (ok false, t) y n b w = record {
  sends = w.sends y;
  backed = released-Backed k x c t n (λ j z h. w.keeps z.event_id (b j z h));
}
settle_claim-BackedStore k x c s (ok true, t) y n b w = record {
  sends = w.sends y;
  backed = claimed-Backed k x c t (w.sent y) (λ j z h. w.keeps z.event_id (b j z h));
}

settle_unclaimed-BackedStore :
    (i : String) (c : Option Claims) (s : Sinks) (r : Result Exception Bool × Sinks)
    → BackedStore (record { idempotency = c; sinks = s })
    → Sending i s r
    → BackedStore (settle_unclaimed c r).1
settle_unclaimed-BackedStore i c s (err x, t) b w = record {
  sends = w.sends b.sends;
  backed = λ j z h. w.keeps z.event_id (b.backed j z h);
}
settle_unclaimed-BackedStore i c s (ok a, t) b w = record {
  sends = w.sends b.sends;
  backed = λ j z h. w.keeps z.event_id (b.backed j z h);
}

module _ (lib : Libraries) where
  keep_by_key-BackedStore :
      (now : ℕ) (q : SourceRequest) (e : RawEvidence) (v : OutboxEvent) (key : Option String)
      (c : Option Claims) (s : Sinks)
      → BackedStore (record { idempotency = c; sinks = s })
      → BackedStore (keep_by_key lib now q e v key c s).1
  unfolding claim
  keep_by_key-BackedStore now q e v none c s b =
      settle_unclaimed-BackedStore v.event_id c s _ b (write-Sending lib e v s)
  keep_by_key-BackedStore now q e v (some key) none s b =
      settle_unclaimed-BackedStore v.event_id none s _ b (write-Sending lib e v s)
  keep_by_key-BackedStore now q e v (some key) (some c) s b =
      let k : ClaimKey = (q.tenant_id, q.workspace_id, key) in
      elim (Bool-cases (contains c k)) [
        | inl held ↦ rw held b
        | inr free ↦ rw free (
            settle_claim-BackedStore k (record { event_id = v.event_id; created_at = now }) c s
              (write lib e v s) b.sends free b.backed (write-Sending lib e v s))
      ]

  keep_evidence-BackedStore :
      (run_id : String) (now : ℕ) (q : SourceRequest) (s : Store)
      → BackedStore s
      → BackedStore (keep_evidence lib run_id now q s).1
  unfolding keep_evidence
  keep_evidence-BackedStore run_id now q s b =
      keep_by_key-BackedStore now q (evidence_of lib run_id now q) (event_of lib now q)
        (key_of q.idempotency_key) s.idempotency s.sinks b

mark_in-sends : (now : ℕ) (i : String) (s : Sinks) → sends_events (mark_in now i s) ≡ sends_events s
mark_in-sends now i (ledger l) = refl
mark_in-sends now i (tables e none) = refl
mark_in-sends now i (tables e (some rows)) = refl

mark_in-has_event :
    (now : ℕ) (i j : String) (s : Sinks) → has_event j (mark_in now i s) ≡ has_event j s
unfolding mark_published
mark_in-has_event now i j (ledger l) = any-published (is_event j) now i l.outbox (λ v. refl)
mark_in-has_event now i j (tables e none) = refl
mark_in-has_event now i j (tables e (some rows)) = any-published (is_event j) now i rows (λ v. refl)

module _ {f : Floats} {P : Type 0} (w : Wiring P) where
  -- Where an outbox is configured and each claimed key is claimed for an event in it, this is so after
  -- whatever calls: a request that is not kept leaves no claim behind.
  pub run_calls-BackedStore :
      (cs : List (Call f)) (g : Gateway f P)
      → BackedStore g.store
      → BackedStore (run_calls w cs g).store
  run_calls-BackedStore = run_calls-store {w = w} {Q = BackedStore} (record {
    kept = keep_evidence-BackedStore w.libraries;
    marked = λ now i s b. record {
      sends = mark_in-sends now i s.sinks ∙ b.sends;
      backed = λ k x h. mark_in-has_event now i x.event_id s.sinks ∙ b.backed k x h;
    };
  })
