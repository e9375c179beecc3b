-- ===== src/Production/Rollout/Runs.antt =====
-- Runs of the control plane's calls, from a state with unused UUIDs (production/control_plane.py).
use mathlib.Core.Path.{subst}
use mathlib.Core.List.{map-append}
use niceone_obsidian.Prelude.{
  ℕ, suc, ◌≤◌, String, ◌≡◌, refl, sym, ap, ◌∙◌, false, Option, none, List, [], ◌∷◌, ◌++◌, map,
  append_assoc, append-nil, arith, str_eq_iff, string_eq,
}
use niceone_obsidian.Prelude.Dict.{Dict, set}
use niceone_obsidian.Prelude.Values.{Fields}
use niceone_obsidian.Prelude.Exec.{Result, ok, err, lift, pure, gets, ◌>>=◌, continue}
use niceone_obsidian.Kernel.Errors.{Exception}
use niceone_obsidian.Kernel.Policy.{member}
use niceone_obsidian.Production.Access.{Subject, authorize}
use niceone_obsidian.Production.Evidence.{EvidenceEvent, Hashing, append, last_hash, new_event}
use niceone_obsidian.Production.Evidence.Growth.{member_snoc}
use niceone_obsidian.Production.Deployment.{
  ProductionControlPlane, Step, release_policy, draw, deploy, record_evidence, activate, rollback,
}

-- UUIDs are distinct, and those still to be drawn are not used.
pub record IsFresh (p : ProductionControlPlane) : Type 0 where
  pub unused : (n : ℕ) → p.drawn ≤ n → member (p.uuids n) p.evidence.ids ≡ false
  pub apart : (n m : ℕ) → p.uuids n ≡ p.uuids m → n ≡ m

-- The types of the events, in order.
abbrev pub event_types : ProductionControlPlane → List String
event_types p = map (λ (e : EvidenceEvent). e.event_type) p.evidence.events

-- From a state, a call returns a value with a property, appends events of the given types, and leaves
-- the given versions active.
pub record Runs {A : Type 0} (m : Step A) (p : ProductionControlPlane) (ts : List String)
    (d : Dict String String) (Q : A → Type 0) : Type 0 where
  pub value : A
  pub after : ProductionControlPlane
  pub run : m p ≡ (ok value, after)
  pub fresh : IsFresh after
  pub types : event_types after ≡ event_types p ++ ts
  pub active : after.active ≡ d
  pub holds : Q value

pub Runs-bind :
    {A B : Type 0} {m : Step A} {g : A → Step B} {p : ProductionControlPlane} {ts us : List String}
    {c d : Dict String String} {Q : A → Type 0} {R : B → Type 0}
    → Runs m p ts c Q
    → ((a : A) (q : ProductionControlPlane) → IsFresh q → q.active ≡ c → Q a → Runs (g a) q us d R)
    → Runs (m >>= g) p (ts ++ us) d R
unfolding ◌>>=◌
Runs-bind {A} {g = g} {p = p} {ts = ts} {us = us} r k =
    let s = k r.value r.after r.fresh r.active r.holds in
    record {
      value = s.value;
      after = s.after;
      run =
          ap (λ (o : Result Exception A × ProductionControlPlane). continue o.0 o.1 g) r.run
          ∙ s.run;
      fresh = s.fresh;
      types = s.types ∙ ap (λ l. l ++ us) r.types ∙ append_assoc (event_types p) ts us;
      active = s.active;
      holds = s.holds;
    }

module _ {p : ProductionControlPlane} {d : Dict String String} (fr : IsFresh p)
    (a : p.active ≡ d) where
  pub Runs-pure : {A : Type 0} {Q : A → Type 0} (x : A) → Q x → Runs (pure x) p [] d Q
  unfolding pure
  Runs-pure x q = record {
    value = x;
    after = p;
    run = refl;
    fresh = fr;
    types = sym (append-nil (event_types p));
    active = a;
    holds = q;
  }

  pub Runs-gets :
      {A : Type 0} {Q : A → Type 0} (g : ProductionControlPlane → A)
      → Q (g p)
      → Runs (gets g) p [] d Q
  unfolding gets
  Runs-gets g q = record {
    value = g p;
    after = p;
    run = refl;
    fresh = fr;
    types = sym (append-nil (event_types p));
    active = a;
    holds = q;
  }

  pub Runs-lift :
      {A : Type 0} (r : Result Exception A) (x : A) → r ≡ ok x → Runs (lift r) p [] d (λ y. y ≡ x)
  unfolding lift
  Runs-lift r x e = record {
    value = x;
    after = p;
    run = rw e;
    fresh = fr;
    types = sym (append-nil (event_types p));
    active = a;
    holds = refl;
  }

  pub Runs-draw : Runs draw p [] d (λ _. Unit)
  unfolding draw
  Runs-draw = record {
    value = p.uuids p.drawn;
    after = record p { drawn = suc p.drawn };
    run = refl;
    fresh = record { unused = λ n h. fr.unused n (omega arith); apart = fr.apart };
    types = sym (append-nil (event_types p));
    active = a;
    holds = tt;
  }

  pub Runs-deploy : (v e : String) → Runs (deploy v e) p [] (set d e v) (λ _. Unit)
  unfolding deploy
  Runs-deploy v e = record {
    value = v;
    after = record p { active = set p.active e v };
    run = refl;
    fresh = record { unused = fr.unused; apart = fr.apart };
    types = sym (append-nil (event_types p));
    active = ap (λ x. set x e v) a;
    holds = tt;
  }

  pub Runs-record_evidence :
      (h : Hashing) (x t : String) (f : Fields)
      → Runs (record_evidence h x t f) p (t ∷ []) d (λ _. Unit)
  unfolding record_evidence append
  Runs-record_evidence h x t f =
      let e : EvidenceEvent =
        new_event h (p.uuids p.drawn) p.now x t f (last_hash none p.evidence.events) in
      record {
        value = e;
        after = record p {
          evidence = record {
            events = p.evidence.events ++ e ∷ [];
            ids = p.evidence.ids ++ p.uuids p.drawn ∷ [];
          };
          drawn = suc p.drawn;
        };
        run = rw (fr.unused p.drawn (omega arith)) refl;
        fresh = record {
          unused = λ n l. ground (
            arith,
            fr.unused n (omega arith),
            member_snoc (p.uuids n) (p.uuids p.drawn) p.evidence.ids,
            str_eq_iff (p.uuids n) (p.uuids p.drawn),
            fr.apart n p.drawn,
            l,
          );
          apart = fr.apart;
        };
        types = simp map-append;
        active = a;
        holds = tt;
      }

module _ (h : Hashing) {p : ProductionControlPlane} {d : Dict String String} (fr : IsFresh p)
    (a : p.active ≡ d) where
  pub Runs-activate :
      (s : Subject) (c e : String) (previous : Option String) (x : Unit {0})
      → authorize s (release_policy "deployment.activate" e) ≡ ok x
      → Runs
          (activate h s c e previous)
          p
          ("deployment.approval" ∷ "deployment.activated" ∷ [])
          (set d e c)
          (λ _. Unit)
  unfolding activate
  Runs-activate s c e previous x g = Runs-bind (Runs-lift fr a _ x g) (λ _ q fr a _.
      Runs-bind (Runs-draw fr a) (λ i q fr a _.
        Runs-bind (Runs-record_evidence fr a h i _ _) (λ _ q fr a _.
          Runs-bind (Runs-deploy fr a c e) (λ _ q fr a _.
            Runs-bind (Runs-record_evidence fr a h i _ _) (λ _ q fr a _.
              Runs-bind (Runs-draw fr a) (λ _ q fr a _.
                Runs-bind (Runs-gets fr a {Q = λ _. Unit} _ tt)
                  (λ _ q fr a _. Runs-pure fr a _ tt)))))))

  pub Runs-rollback :
      (s : Subject) (t e : String) (x : Unit {0})
      → authorize s (release_policy "deployment.rollback" e) ≡ ok x
      → Runs
          (rollback h s t e)
          p
          ("deployment.rollback.approved" ∷ "deployment.rollback.verified" ∷ [])
          (set d e t)
          (λ _. Unit)
  unfolding rollback
  Runs-rollback s t e x g = Runs-bind (Runs-lift fr a _ x g) (λ _ q fr a _.
      Runs-bind (Runs-draw fr a) (λ i q fr a _.
        Runs-bind (Runs-record_evidence fr a h i _ _) (λ _ q fr a _.
          Runs-bind (Runs-deploy fr a t e) (λ _ q fr a _.
            Runs-bind (Runs-record_evidence fr a h i _ _) (λ _ q fr a _.
              Runs-bind (Runs-draw fr a) (λ _ q fr a _.
                Runs-bind (Runs-gets fr a {Q = λ _. Unit} _ tt)
                  (λ _ q fr a _. Runs-pure fr a _ tt)))))))

pub Runs-same :
    {A : Type 0} {m n : Step A} {p : ProductionControlPlane} {ts : List String}
    {d : Dict String String} {Q : A → Type 0}
    → m ≡ n
    → Runs n p ts d Q
    → Runs m p ts d Q
Runs-same {p = p} {ts = ts} {d = d} {Q = Q} e r = subst (λ k. Runs k p ts d Q) (sym e) r

-- A call raises an exception, appends events of the given types, and changes no version.
pub record Fails {A : Type 0} (m : Step A) (p : ProductionControlPlane) (ts : List String)
    (d : Dict String String) (e : Exception) : Type 0 where
  pub after : ProductionControlPlane
  pub run : m p ≡ (err e, after)
  pub types : event_types after ≡ event_types p ++ ts
  pub active : after.active ≡ d

pub Fails-after :
    {A B : Type 0} {m : Step A} {g : A → Step B} {p : ProductionControlPlane} {ts us : List String}
    {c d : Dict String String} {Q : A → Type 0} {e : Exception}
    → Runs m p ts c Q
    → ((a : A) (q : ProductionControlPlane) → IsFresh q → q.active ≡ c → Q a → Fails (g a) q us d e)
    → Fails (m >>= g) p (ts ++ us) d e
unfolding ◌>>=◌
Fails-after {A} {g = g} {p = p} {ts = ts} {us = us} r k =
    let s = k r.value r.after r.fresh r.active r.holds in
    record {
      after = s.after;
      run =
          ap (λ (o : Result Exception A × ProductionControlPlane). continue o.0 o.1 g) r.run
          ∙ s.run;
      types = s.types ∙ ap (λ l. l ++ us) r.types ∙ append_assoc (event_types p) ts us;
      active = s.active;
    }

pub Fails-bind :
    {A B : Type 0} {m : Step A} (g : A → Step B) {p : ProductionControlPlane} {ts : List String}
    {d : Dict String String} {e : Exception}
    → Fails m p ts d e
    → Fails (m >>= g) p ts d e
unfolding ◌>>=◌
Fails-bind {A} g r = record {
  after = r.after;
  run = ap (λ (o : Result Exception A × ProductionControlPlane). continue o.0 o.1 g) r.run;
  types = r.types;
  active = r.active;
}

pub Fails-lift :
    {A : Type 0} {p : ProductionControlPlane} {d : Dict String String} {e : Exception}
    → p.active ≡ d
    → (r : Result Exception A) → r ≡ err e
    → Fails (lift r) p [] d e
unfolding lift
Fails-lift {p = p} a r q = record {
  after = p;
  run = rw q;
  types = sym (append-nil (event_types p));
  active = a;
}

pub Fails-same :
    {A : Type 0} {m n : Step A} {p : ProductionControlPlane} {ts : List String}
    {d : Dict String String} {x : Exception}
    → m ≡ n
    → Fails n p ts d x
    → Fails m p ts d x
Fails-same {p = p} {ts = ts} {d = d} {x = x} e r = subst (λ k. Fails k p ts d x) (sym e) r
