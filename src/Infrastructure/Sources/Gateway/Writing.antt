-- ===== src/Infrastructure/Sources/Gateway/Writing.antt =====
-- The attempt to keep evidence (ois/infrastructure/source_gateway/gateway.py): what it does to the tables is
-- what its one write does, or nothing.
use niceone_obsidian.Prelude.{
  ℕ, String, ◌≡◌, refl, Bool, true, false, Option, none, some, triple_eq, arith,
}
use niceone_obsidian.Prelude.Exec.{Result, ok, err}
use niceone_obsidian.Kernel.Errors.{Exception}
use niceone_obsidian.Infrastructure.Sources.Ledger.{RawEvidence, OutboxEvent, Libraries}
use niceone_obsidian.Infrastructure.Sources.Idempotency.{ClaimKey, Claims, claim}
use niceone_obsidian.Infrastructure.Sources.Requests.{SourceRequest, Sinks, Store}
use niceone_obsidian.Infrastructure.Sources.Keeping.{
  Kept, duplicate_key, duplicate_evidence, recorded, evidence_of, event_of, write, settle_claim,
  settle_unclaimed, key_of, keep_claimed, keep_by_key, keep_evidence,
}

abbrev pub was_recorded : Result Exception Kept → Bool
was_recorded (ok recorded) = true
was_recorded (ok duplicate_evidence) = false
was_recorded (ok (duplicate_key c)) = false
was_recorded (err x) = false

-- The tables are those before or those that the write left, and these if the evidence is recorded: the write
-- then returned true.
pub record Writes {ℓ} (Q : Sinks → Type ℓ) (r : Result Exception Bool × Sinks)
    (k : Result Exception Kept × Store) : Type ℓ where
  pub either : Q r.1 → Q k.1.sinks
  pub accepted : was_recorded k.0 ≡ true → r.0 ≡ ok true
  pub written : was_recorded k.0 ≡ true → k.1.sinks ≡ r.1

module _ {ℓ} (Q : Sinks → Type ℓ) where
  settle_claim-Writes :
      (k : ClaimKey) (i : String) (c : Claims) (r : Result Exception Bool × Sinks)
      → Writes Q r (settle_claim k i c r)
  settle_claim-Writes k i c (err x, s) = record {
    either = λ h. h;
    accepted = λ h. ground (arith, h);
    written = λ h. refl;
  }
  settle_claim-Writes k i c (ok true, s) = record {
    either = λ h. h;
    accepted = λ h. refl;
    written = λ h. refl;
  }
  settle_claim-Writes k i c (ok false, s) = record {
    either = λ h. h;
    accepted = λ h. ground (arith, h);
    written = λ h. refl;
  }

  settle_unclaimed-Writes :
      (c : Option Claims) (r : Result Exception Bool × Sinks) → Writes Q r (settle_unclaimed c r)
  settle_unclaimed-Writes c (err x, s) = record {
    either = λ h. h;
    accepted = λ h. ground (arith, h);
    written = λ h. refl;
  }
  settle_unclaimed-Writes c (ok true, s) = record {
    either = λ h. h;
    accepted = λ h. refl;
    written = λ h. refl;
  }
  settle_unclaimed-Writes c (ok false, s) = record {
    either = λ h. h;
    accepted = λ h. ground (arith, h);
    written = λ h. refl;
  }

  keep_claimed-Writes :
      (lib : Libraries) (e : RawEvidence) (v : OutboxEvent) (k : ClaimKey) (c : Bool × Claims)
      (s : Sinks)
      → Q s
      → Writes Q (write lib e v s) (keep_claimed lib e v k c s)
  keep_claimed-Writes lib e v k (false, c) s q = record {
    either = λ h. q;
    accepted = λ h. ground (arith, h);
    written = λ h. ground (arith, h);
  }
  keep_claimed-Writes lib e v k (true, c) s q = settle_claim-Writes k v.event_id c (write lib e v s)

  keep_by_key-Writes :
      (lib : Libraries) (now : ℕ) (q : SourceRequest) (e : RawEvidence) (v : OutboxEvent)
      (key : Option String) (c : Option Claims) (s : Sinks)
      → Q s
      → Writes Q (write lib e v s) (keep_by_key lib now q e v key c s)
  keep_by_key-Writes lib now q e v none c s h = settle_unclaimed-Writes c (write lib e v s)
  keep_by_key-Writes lib now q e v (some key) none s h =
      settle_unclaimed-Writes none (write lib e v s)
  keep_by_key-Writes lib now q e v (some key) (some c) s h =
      let k : ClaimKey = (q.tenant_id, q.workspace_id, key) in
      keep_claimed-Writes lib e v k (claim now k v.event_id c) s h

  pub keep_evidence-Writes :
      (lib : Libraries) (run_id : String) (now : ℕ) (q : SourceRequest) (s : Store)
      → Q s.sinks
      → Writes Q
          (write lib (evidence_of lib run_id now q) (event_of lib now q) s.sinks)
          (keep_evidence lib run_id now q s)
  unfolding keep_evidence
  keep_evidence-Writes lib run_id now q s h =
      keep_by_key-Writes lib now q (evidence_of lib run_id now q) (event_of lib now q)
        (key_of q.idempotency_key) s.idempotency s.sinks h
