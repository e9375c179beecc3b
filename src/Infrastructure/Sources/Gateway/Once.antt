-- ===== src/Infrastructure/Sources/Gateway/Once.antt =====
-- The evidence of a gateway (ois/infrastructure/source_gateway/evidence.py, ledger.py and gateway.py): an
-- observation is accepted once.
use niceone_obsidian.Prelude.{
  String, ◌≡◌, refl, sym, ◌∙◌, Bool, true, false, Option, none, some, List, triple_eq, arith,
}
use niceone_obsidian.Prelude.Exec.{Result, ok, err}
use niceone_obsidian.Kernel.Errors.{Exception}
use niceone_obsidian.Infrastructure.Sources.Ledger.{Libraries}
use niceone_obsidian.Infrastructure.Sources.Admission.{scope_of, verify_credential, admit}
use niceone_obsidian.Infrastructure.Sources.Limits.{Floats}
use niceone_obsidian.Infrastructure.Sources.Requests.{
  SourceRequest, SourceResponse, Draws, Limiters, Store, Gateway, Wiring,
}
use niceone_obsidian.Infrastructure.Sources.Keeping.{
  Kept, duplicate_key, duplicate_evidence, recorded, evidence_id_of,
}
use niceone_obsidian.Infrastructure.Sources.Gateway.{
  Call, run_calls, ingest_kept, ingest_admitted, ingest_verified, ingest,
}
use niceone_obsidian.Infrastructure.Sources.Gateway.Steps.{
  Steady, run_calls-store, Answers, ingest-Answers,
}
use niceone_obsidian.Infrastructure.Sources.Gateway.Writing.{was_recorded}
use niceone_obsidian.Infrastructure.Sources.Gateway.Stored.{
  has_evidence, stores_evidence, keep_evidence-Keeping, mark_in-has_evidence,
}

abbrev pub is_accepted : Result Exception SourceResponse → Bool
is_accepted (ok r) = r.accepted
is_accepted (err x) = false

-- Two requests with one observation: the source, the record and the payload are the same.
pub record SameObservation (q p : SourceRequest) : Type 0 where
  pub same_tenant : q.tenant_id ≡ p.tenant_id
  pub same_workspace : q.workspace_id ≡ p.workspace_id
  pub same_source : q.source_id ≡ p.source_id
  pub same_record : q.source_record_id ≡ p.source_record_id
  pub same_payload : q.payload ≡ p.payload

module _ (lib : Libraries) where
  evidence_id-SameObservation :
      (q p : SourceRequest) → SameObservation q p → evidence_id_of lib q ≡ evidence_id_of lib p
  unfolding evidence_id_of
  evidence_id-SameObservation q p s =
      rw (s.same_tenant, s.same_workspace, s.same_source, s.same_record, s.same_payload) refl

module _ {P : Type 0} (w : Wiring P) where
  -- What is stored stays, whatever is called.
  stored-Steady : (i : String) → Steady w (λ s. has_evidence i s.sinks ≡ true)
  stored-Steady i = record {
    kept = λ r now q s h. (keep_evidence-Keeping w.libraries r now q s).keeps i h;
    marked = λ now j s h. mark_in-has_evidence now j i s.sinks ∙ h;
  }

module _ {f : Floats} {P : Type 0} (w : Wiring P) (i : String) where
  ingest_kept-refused :
      (q : SourceRequest) (v : Bool) (g : Gateway f P) (r : Result Exception Kept × Store)
      → was_recorded r.0 ≡ false
      → is_accepted (ingest_kept w q v g r).0 ≡ false
  ingest_kept-refused q v g (err x, s) h = refl
  ingest_kept-refused q v g (ok (duplicate_key none), s) h = refl
  ingest_kept-refused q v g (ok (duplicate_key (some c)), s) h = refl
  ingest_kept-refused q v g (ok duplicate_evidence, s) h = refl
  ingest_kept-refused q v g (ok recorded, s) h = ground (arith, h)

module _ {f : Floats} {P : Type 0} (w : Wiring P) where
  ingest_admitted-refused :
      (d : Draws f) (q : SourceRequest) (v : Bool) (g : Gateway f P)
      (r : Result Exception (Option String) × Limiters f)
      → has_evidence (evidence_id_of w.libraries q) g.store.sinks ≡ true
      → is_accepted (ingest_admitted w d q v g r).0 ≡ false
  ingest_admitted-refused d q v g (err x, l) h = refl
  ingest_admitted-refused d q v g (ok (some why), l) h = refl
  ingest_admitted-refused d q v g (ok none, l) h =
      let k = keep_evidence-Keeping w.libraries d.run_id d.now q g.store in
      ingest_kept-refused w (evidence_id_of w.libraries q) q v (record g { limiters = l }) _
        (k.refused h)

  ingest-stored :
      (d : Draws f) (q : SourceRequest) (g : Gateway f P)
      → stores_evidence g.store.sinks ≡ true
      → is_accepted (ingest w d q g).0 ≡ true
      → has_evidence (evidence_id_of w.libraries q) (ingest w d q g).1.store.sinks ≡ true
  ingest-stored d q g s a =
      let i : String = evidence_id_of w.libraries q in
      let k = keep_evidence-Keeping w.libraries d.run_id d.now q g.store in
      go (ingest w d q g) (ingest-Answers w (λ t. has_evidence i t.sinks ≡ true) d q g (k.stored s))
        a
    where
      go :
          (r : Result Exception SourceResponse × Gateway f P)
          → Answers w.libraries
              (λ t. has_evidence (evidence_id_of w.libraries q) t.sinks ≡ true)
              q
              r
          → is_accepted r.0 ≡ true
          → has_evidence (evidence_id_of w.libraries q) r.1.store.sinks ≡ true
      go (ok r, t) h b = let (i, v, p, s) = h b in s
      go (err x, t) h b = ground (arith, b)

  ingest-refused :
      (d : Draws f) (q : SourceRequest) (g : Gateway f P)
      → has_evidence (evidence_id_of w.libraries q) g.store.sinks ≡ true
      → is_accepted (ingest w d q g).0 ≡ false
  unfolding ingest
  ingest-refused d q g h = go (verify_credential d.now (scope_of q) q.credential w.resolver)
    where
      go : (r : Result Exception Bool) → is_accepted (ingest_verified w d q r g).0 ≡ false
      go (err x) = refl
      go (ok v) = ingest_admitted-refused d q v g (admit d q g.limiters) h

  -- Where an evidence writer is configured and a request has been accepted, no later request with the same
  -- observation is accepted, whatever keys it carries and whatever is called in between.
  pub accepted_once :
      (d : Draws f) (q : SourceRequest) (g : Gateway f P) (cs : List (Call f)) (e : Draws f)
      (p : SourceRequest)
      → stores_evidence g.store.sinks ≡ true
      → is_accepted (ingest w d q g).0 ≡ true
      → SameObservation q p
      → is_accepted (ingest w e p (run_calls w cs (ingest w d q g).1)).0 ≡ false
  accepted_once d q g cs e p s a o =
      let i : String = evidence_id_of w.libraries q in
      let g' : Gateway f P = (ingest w d q g).1 in
      let kept : has_evidence i (run_calls w cs g').store.sinks ≡ true =
        run_calls-store (stored-Steady w i) cs g' (ingest-stored d q g s a) in
      ingest-refused e p (run_calls w cs g')
        (rw (sym (evidence_id-SameObservation w.libraries q p o)) kept)
