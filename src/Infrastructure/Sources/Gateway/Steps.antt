-- ===== src/Infrastructure/Sources/Gateway/Steps.antt =====
-- The calls on a gateway and its store (ois/infrastructure/source_gateway/gateway.py): what every attempt to
-- keep evidence and every publication preserves, all calls preserve.
use niceone_obsidian.Prelude.{
  ℕ, String, Bool, true, ◌≡◌, refl, Option, none, some, List, [], ◌∷◌, arith,
}
use niceone_obsidian.Prelude.Exec.{Result, ok, err, Exec}
use niceone_obsidian.Kernel.Errors.{Exception}
use niceone_obsidian.Infrastructure.Sources.Ledger.{Libraries}
use niceone_obsidian.Infrastructure.Sources.Limits.{Floats}
use niceone_obsidian.Infrastructure.Sources.Requests.{
  SourceRequest, SourceResponse, CanonicalSourceEvent, PipelineResult, Store, Limiters, Gateway,
  Wiring, Draws,
}
use niceone_obsidian.Infrastructure.Sources.Admission.{scope_of, verify_credential, admit}
use niceone_obsidian.Infrastructure.Sources.Keeping.{
  Kept, duplicate_key, duplicate_evidence, recorded, keep_evidence, evidence_id_of, event_id_of,
  payload_hash_of,
}
use niceone_obsidian.Infrastructure.Sources.Gateway.Writing.{was_recorded}
use niceone_obsidian.Infrastructure.Sources.Gateway.{
  pass_on, piped, ingest_kept, ingest_admitted, ingest_verified, ingest, Call, ingests, acquires,
  configures, publishes, mark_in, call, run_calls,
}

-- What every step on the store preserves.
pub record Steady {ℓ} {P : Type 0} (w : Wiring P) (Q : Store → Type ℓ) : Type ℓ where
  pub kept :
      (run_id : String) (now : ℕ) (q : SourceRequest) (s : Store)
      → Q s
      → Q (keep_evidence w.libraries run_id now q s).1
  pub marked :
      (now : ℕ) (i : String) (s : Store) → Q s → Q (record s { sinks = mark_in now i s.sinks })

module _ {ℓ} {f : Floats} {P : Type 0} {w : Wiring P} {Q : Store → Type ℓ} (st : Steady w Q) where
  pass_on-store :
      (q : SourceRequest) (v : Bool)
      (p : Option (CanonicalSourceEvent → Bool → Exec P Exception PipelineResult)) (g : Gateway f P)
      → Q g.store
      → Q (pass_on w q v p g).1.store
  pass_on-store q v none g h = h
  pass_on-store q v (some process) g h = go (process _ v g.pipeline)
    where
      go : (r : Result Exception PipelineResult × P) → Q (piped w q g r).1.store
      go (ok r, p) = h
      go (err x, p) = h

  ingest_kept-store :
      (q : SourceRequest) (v : Bool) (g : Gateway f P) (r : Result Exception Kept × Store)
      → Q r.1
      → Q (ingest_kept w q v g r).1.store
  ingest_kept-store q v g (err x, s) h = h
  ingest_kept-store q v g (ok (duplicate_key c), s) h = h
  ingest_kept-store q v g (ok duplicate_evidence, s) h = h
  ingest_kept-store q v g (ok recorded, s) h =
      pass_on-store q v w.process (record g { store = s }) h

  ingest_admitted-store :
      (d : Draws f) (q : SourceRequest) (v : Bool) (g : Gateway f P)
      (r : Result Exception (Option String) × Limiters f)
      → Q g.store
      → Q (ingest_admitted w d q v g r).1.store
  ingest_admitted-store d q v g (err x, l) h = h
  ingest_admitted-store d q v g (ok (some why), l) h = h
  ingest_admitted-store d q v g (ok none, l) h =
      ingest_kept-store q v (record g { limiters = l })
        (keep_evidence w.libraries d.run_id d.now q g.store) (st.kept d.run_id d.now q g.store h)

  ingest_verified-store :
      (d : Draws f) (q : SourceRequest) (r : Result Exception Bool) (g : Gateway f P)
      → Q g.store
      → Q (ingest_verified w d q r g).1.store
  ingest_verified-store d q (err x) g h = h
  ingest_verified-store d q (ok v) g h = ingest_admitted-store d q v g (admit d q g.limiters) h

  pub ingest-store :
      (d : Draws f) (q : SourceRequest) (g : Gateway f P) → Q g.store → Q (ingest w d q g).1.store
  unfolding ingest
  ingest-store d q g h =
      ingest_verified-store d q (verify_credential d.now (scope_of q) q.credential w.resolver) g h

  call-store : (c : Call f) (g : Gateway f P) → Q g.store → Q (call w c g).store
  call-store (ingests d q) g h = ingest-store d q g h
  call-store (acquires d t i) g h = h
  call-store (configures key p) g h = h
  call-store (publishes now i) g h = st.marked now i g.store h

  pub run_calls-store :
      (cs : List (Call f)) (g : Gateway f P) → Q g.store → Q (run_calls w cs g).store
  unfolding run_calls
  run_calls-store [] g h = h
  run_calls-store (c ∷ cs) g h = run_calls-store cs (call w c g) (call-store c g h)

-- If the answer accepts the request, it names the request's evidence and event, and the store is as stated.
abbrev pub Answers {ℓ} :
    {f : Floats} {P : Type 0}
    → Libraries
    → (Store → Type ℓ)
    → SourceRequest
    → Result Exception SourceResponse × Gateway f P
    → Type ℓ
Answers lib Q q (err x, g) = Unit
Answers lib Q q (ok r, g) =
    r.accepted ≡ true
    → (r.evidence_id ≡ evidence_id_of lib q)
      × (r.event_id ≡ event_id_of lib q)
      × (r.payload_hash ≡ payload_hash_of lib q)
      × Q g.store

module _ {ℓ} {f : Floats} {P : Type 0} (w : Wiring P) (Q : Store → Type ℓ) where
  pass_on-Answers :
      (q : SourceRequest) (v : Bool)
      (p : Option (CanonicalSourceEvent → Bool → Exec P Exception PipelineResult)) (g : Gateway f P)
      → Q g.store
      → Answers w.libraries Q q (pass_on w q v p g)
  pass_on-Answers q v none g h = λ a. (refl, refl, refl, h)
  pass_on-Answers q v (some process) g h = go (process _ v g.pipeline)
    where
      go : (r : Result Exception PipelineResult × P) → Answers w.libraries Q q (piped w q g r)
      go (ok r, p) = λ a. (refl, refl, refl, h)
      go (err x, p) = tt

  ingest_kept-Answers :
      (q : SourceRequest) (v : Bool) (g : Gateway f P) (r : Result Exception Kept × Store)
      → (was_recorded r.0 ≡ true → Q r.1)
      → Answers w.libraries Q q (ingest_kept w q v g r)
  ingest_kept-Answers q v g (err x, s) h = tt
  ingest_kept-Answers q v g (ok (duplicate_key none), s) h = λ a. ground (arith, a)
  ingest_kept-Answers q v g (ok (duplicate_key (some c)), s) h = λ a. ground (arith, a)
  ingest_kept-Answers q v g (ok duplicate_evidence, s) h = λ a. ground (arith, a)
  ingest_kept-Answers q v g (ok recorded, s) h =
      pass_on-Answers q v w.process (record g { store = s }) (h refl)

  ingest_admitted-Answers :
      (d : Draws f) (q : SourceRequest) (v : Bool) (g : Gateway f P)
      (r : Result Exception (Option String) × Limiters f)
      → (let k = keep_evidence w.libraries d.run_id d.now q g.store in
          was_recorded k.0 ≡ true → Q k.1)
      → Answers w.libraries Q q (ingest_admitted w d q v g r)
  ingest_admitted-Answers d q v g (err x, l) h = tt
  ingest_admitted-Answers d q v g (ok (some why), l) h = λ a. ground (arith, a)
  ingest_admitted-Answers d q v g (ok none, l) h =
      ingest_kept-Answers q v (record g { limiters = l })
        (keep_evidence w.libraries d.run_id d.now q g.store) h

  ingest_verified-Answers :
      (d : Draws f) (q : SourceRequest) (r : Result Exception Bool) (g : Gateway f P)
      → (let k = keep_evidence w.libraries d.run_id d.now q g.store in
          was_recorded k.0 ≡ true → Q k.1)
      → Answers w.libraries Q q (ingest_verified w d q r g)
  ingest_verified-Answers d q (err x) g h = tt
  ingest_verified-Answers d q (ok v) g h = ingest_admitted-Answers d q v g (admit d q g.limiters) h

  -- What holds of the store where the evidence is recorded holds where the request is accepted.
  pub ingest-Answers :
      (d : Draws f) (q : SourceRequest) (g : Gateway f P)
      → (let k = keep_evidence w.libraries d.run_id d.now q g.store in
          was_recorded k.0 ≡ true → Q k.1)
      → Answers w.libraries Q q (ingest w d q g)
  unfolding ingest
  ingest-Answers d q g h =
      ingest_verified-Answers d q (verify_credential d.now (scope_of q) q.credential w.resolver) g h
