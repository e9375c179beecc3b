-- ===== src/Production/Rollout/Authorized.antt =====
-- Which versions become active (production/control_plane.py, production/rollout.py).
use mathlib.Core.Path.{subst₂}
use niceone_obsidian.Prelude.{
  String, ◌≡◌, ◌⊎◌, refl, inl, inr, sym, ◌∙◌, if◌then◌else◌, Bool, true, false, Option, some, List,
  [], ◌∷◌, arith, Extends, Extends-refl, Extends-trans, str_eq, str_eq_iff, string_eq, Bool-cases,
}
use niceone_obsidian.Prelude.Dict.{get, set, get-set}
use niceone_obsidian.Prelude.Values.{Fields}
use niceone_obsidian.Prelude.Exec.{
  Result, ok, err, lift, pure, gets, ◌>>=◌, Keeps, IsPreorder, Keeps-pure, Keeps-gets, Keeps-bind,
}
use niceone_obsidian.Kernel.Errors.{Exception}
use niceone_obsidian.Production.Access.{Subject, AuthorizationPolicy, authorize}
use niceone_obsidian.Production.Access.Grants.{Granted, authorize_iff_Granted}
use niceone_obsidian.Production.Evidence.{Hashing}
use niceone_obsidian.Production.Evidence.Growth.{SoundLedger, append-SoundLedger, append-Extends}
use niceone_obsidian.Production.Evolution.{Rates, CanaryController, CanaryDecision, passes, decide}
use niceone_obsidian.Production.Deployment.{
  ProductionControlPlane, Step, release_policy, draw, deploy, record_evidence, activate, rollback,
}
use niceone_obsidian.Production.Rollout.{RolloutRequest, promote, roll_back, evaluate_and_rollout}

-- A call that may change which versions are active.
pub data Operation (f : Rates) : Type 0 where
  activating : Subject → String → String → Option String → Operation f
  rolling_back : Subject → String → String → Operation f
  rolling_out : CanaryController f → RolloutRequest f → Operation f

module _ {f : Rates} where
  unfoldable pub perform : Hashing → Operation f → ProductionControlPlane → ProductionControlPlane
  perform h (activating s c e previous) p = (activate h s c e previous p).1
  perform h (rolling_back s t e) p = (rollback h s t e p).1
  perform h (rolling_out c q) p = (evaluate_and_rollout h c q p).1

  unfoldable pub perform_all :
      Hashing → List (Operation f) → ProductionControlPlane → ProductionControlPlane
  perform_all h [] p = p
  perform_all h (o ∷ more) p = perform_all h more (perform h o p)

  abbrev pub passed : CanaryController f → RolloutRequest f → Bool
  passed c q = passes c q.successes q.total q.latency_ms

  -- The operation is allowed to make a version active in an environment: its subject is granted the
  -- permission there, and a rollout takes the candidate of a canary that passed, and the previous
  -- version of one that did not.
  abbrev pub MayActivate : String → String → Operation f → Type 0
  MayActivate e v (activating s c e' previous) =
      (e' ≡ e) × (c ≡ v) × Granted s (release_policy "deployment.activate" e)
  MayActivate e v (rolling_back s t e') =
      (e' ≡ e) × (t ≡ v) × Granted s (release_policy "deployment.rollback" e)
  MayActivate e v (rolling_out c q) =
      (q.environment ≡ e)
      × (((passed c q ≡ true)
            × (q.candidate ≡ v)
            × Granted q.subject (release_policy "deployment.activate" e))
          ⊎ ((passed c q ≡ false)
              × (q.previous ≡ v)
              × Granted q.subject (release_policy "deployment.rollback" e)))

  decided_passed :
      (c : CanaryController f) (q : RolloutRequest f) (d : CanaryDecision f)
      → decide c q.candidate q.traffic_percent q.successes q.total q.latency_ms ≡ ok d
      → d.passed ≡ passed c q
  unfolding decide
  decided_passed c q d e = ground (arith, e)

authorize-Granted :
    (s : Subject) (k : AuthorizationPolicy) (a : Unit {0}) → authorize s k ≡ ok a → Granted s k
authorize-Granted s k a g = (authorize_iff_Granted s k).0 g

-- What a step leaves: a version that is active was so before or is allowed, and a sound ledger stays
-- sound and keeps its events.
pub record Governs (h : Hashing) (P : String → String → Type 0) (p q : ProductionControlPlane)
    : Type 0 where
  pub versions : (e v : String) → get q.active e ≡ some v → (get p.active e ≡ some v) ⊎ P e v
  pub ledger :
      SoundLedger h p.evidence
      → SoundLedger h q.evidence × Extends p.evidence.events q.evidence.events

module _ (h : Hashing) (P : String → String → Type 0) where
  Governs-preorder : IsPreorder (Governs h P)
  Governs-preorder = record {
    refl_at = λ p. record { versions = λ e v a. inl a; ledger = λ s. (s, Extends-refl _) };
    trans_at = λ p q r a b. record {
      versions = λ e v g. elim (b.versions e v g) [ inl old ↦ a.versions e v old | inr n ↦ inr n ];
      ledger = λ s.
          let (t, x) = a.ledger s in
          let (u, y) = b.ledger t in
          (u, Extends-trans p.evidence.events q.evidence.events r.evidence.events x y);
    };
  }

  Keeps-draw : Keeps (Governs h P) draw
  unfolding draw
  Keeps-draw = record {
    at = λ p. record { versions = λ e v a. inl a; ledger = λ s. (s, Extends-refl _) };
  }

  Keeps-record_evidence :
      (x t : String) (d : Fields) → Keeps (Governs h P) (record_evidence h x t d)
  unfolding record_evidence
  Keeps-record_evidence x t d = record {
    at = λ p. record {
      versions = λ e v a. inl a;
      ledger = λ s. (
        append-SoundLedger h (p.uuids p.drawn) p.now x t d p.evidence s,
        append-Extends h (p.uuids p.drawn) p.now x t d p.evidence,
      );
    };
  }

  Keeps-deploy : (v e : String) → P e v → Keeps (Governs h P) (deploy v e)
  unfolding deploy
  Keeps-deploy v e y = record {
    at =
        λ p. record { versions = λ e' v' a. deployed p e' v' a; ledger = λ s. (s, Extends-refl _) };
  }
    where
      deployed :
          (p : ProductionControlPlane) (e' v' : String)
          → get (set p.active e v) e' ≡ some v'
          → (get p.active e' ≡ some v') ⊎ P e' v'
      deployed p e' v' a = elim (Bool-cases (str_eq e e')) [
        | inr n ↦ inl (ground (arith, get-set p.active e e' v, n, a))
        | inl q ↦
            inr (subst₂ P ((str_eq_iff e e').0 q) (ground (arith, get-set p.active e e' v, q, a)) y)
      ]

  -- A check by `authorize` or `decide` comes first: what follows may rest on it.
  Keeps-after :
      {A B : Type 0} (r : Result Exception A) (g : A → Step B)
      → ((a : A) → r ≡ ok a → Keeps (Governs h P) (g a))
      → Keeps (Governs h P) (lift r >>= g)
  unfolding ◌>>=◌
  Keeps-after (ok a) g k = record { at = λ p. (k a refl).at p }
  Keeps-after (err e) g k = record { at = λ p. Governs-preorder.refl_at p }

  Keeps-branch :
      {A : Type 0} (b : Bool) (m n : Step A)
      → (b ≡ true → Keeps (Governs h P) m)
      → (b ≡ false → Keeps (Governs h P) n)
      → Keeps (Governs h P) (if b then m else n)
  Keeps-branch true m n k l = k refl
  Keeps-branch false m n k l = l refl

  pure-Governs : {A : Type 0} (a : A) → Keeps (Governs h P) (pure {E = Exception} a)
  pure-Governs a = Keeps-pure Governs-preorder a

  gets-Governs :
      {A : Type 0} (g : ProductionControlPlane → A) → Keeps (Governs h P) (gets {E = Exception} g)
  gets-Governs g = Keeps-gets Governs-preorder g

  bind-Governs :
      {A B : Type 0} (m : Step A) (g : A → Step B)
      → Keeps (Governs h P) m
      → ((a : A) → Keeps (Governs h P) (g a))
      → Keeps (Governs h P) (m >>= g)
  bind-Governs m g km kg = Keeps-bind Governs-preorder m g km kg

  ruleset governs =
      (Keeps-draw, Keeps-record_evidence, Keeps-deploy, pure-Governs, gets-Governs, bind-Governs)

  Keeps-activate :
      (s : Subject) (c e : String) (previous : Option String)
      → (Granted s (release_policy "deployment.activate" e) → P e c)
      → Keeps (Governs h P) (activate h s c e previous)
  unfolding activate
  Keeps-activate s c e previous y =
      Keeps-after (authorize s (release_policy "deployment.activate" e)) _
        (λ a g. let allowed : P e c = y (authorize-Granted s _ a g) in search governs depth 20)

  Keeps-rollback :
      (s : Subject) (t e : String)
      → (Granted s (release_policy "deployment.rollback" e) → P e t)
      → Keeps (Governs h P) (rollback h s t e)
  unfolding rollback
  Keeps-rollback s t e y =
      Keeps-after (authorize s (release_policy "deployment.rollback" e)) _
        (λ a g. let allowed : P e t = y (authorize-Granted s _ a g) in search governs depth 20)

  module _ {f : Rates} where
    Keeps-promote :
        (q : RolloutRequest f) (d : CanaryDecision f)
        → (Granted q.subject (release_policy "deployment.activate" q.environment)
            → P q.environment q.candidate)
        → Keeps (Governs h P) (promote h q d)
    unfolding promote
    Keeps-promote q d y = search (governs, Keeps-activate) depth 20

    Keeps-roll_back :
        (q : RolloutRequest f) (d : CanaryDecision f)
        → (Granted q.subject (release_policy "deployment.rollback" q.environment)
            → P q.environment q.previous)
        → Keeps (Governs h P) (roll_back h q d)
    unfolding roll_back
    Keeps-roll_back q d y = search (governs, Keeps-rollback) depth 20

    Keeps-decided :
        (c : CanaryController f) (q : RolloutRequest f) (d : CanaryDecision f)
        → d.passed ≡ passed c q
        → ((v : String) → MayActivate q.environment v (rolling_out c q) → P q.environment v)
        → Keeps (Governs h P) (if d.passed then promote h q d else roll_back h q d)
    Keeps-decided c q d e y =
        Keeps-branch d.passed _ _
          (λ t. Keeps-promote q d (λ g. y q.candidate (refl, inl (sym e ∙ t, refl, g))))
          (λ t. Keeps-roll_back q d (λ g. y q.previous (refl, inr (sym e ∙ t, refl, g))))

    Keeps-rollout :
        (c : CanaryController f) (q : RolloutRequest f)
        → ((v : String) → MayActivate q.environment v (rolling_out c q) → P q.environment v)
        → Keeps (Governs h P) (evaluate_and_rollout h c q)
    unfolding evaluate_and_rollout
    Keeps-rollout c q y = bind-Governs _ _ (Keeps-record_evidence _ _ _) (λ a.
        Keeps-after (decide c q.candidate q.traffic_percent q.successes q.total q.latency_ms) _
          (λ d g. Keeps-decided c q d (decided_passed c q d g) y))

    Keeps-perform :
        (o : Operation f)
        → ((e v : String) → MayActivate e v o → P e v)
        → (p : ProductionControlPlane) → Governs h P p (perform h o p)
    unfolding perform
    Keeps-perform (activating s c e previous) y p =
        (Keeps-activate s c e previous (λ g. y e c (refl, refl, g))).at p
    Keeps-perform (rolling_back s t e) y p =
        (Keeps-rollback s t e (λ g. y e t (refl, refl, g))).at p
    Keeps-perform (rolling_out c q) y p = (Keeps-rollout c q (λ v g. y q.environment v g)).at p

-- Some of the operations allows a version in an environment.
abbrev pub AnyMayActivate : {f : Rates} → String → String → List (Operation f) → Type 0
AnyMayActivate e v [] = ⊥
AnyMayActivate e v (o ∷ os) = MayActivate e v o ⊎ AnyMayActivate e v os

perform_all-Governs :
    {f : Rates} (h : Hashing) (os : List (Operation f)) (p : ProductionControlPlane)
    → Governs h (λ e v. AnyMayActivate e v os) p (perform_all h os p)
unfolding perform_all
perform_all-Governs h [] p = (Governs-preorder h _).refl_at p
perform_all-Governs h (o ∷ os) p =
    let first = Keeps-perform h (λ e v. AnyMayActivate e v (o ∷ os)) o (λ e v m. inl m) p in
    let rest = perform_all-Governs h os (perform h o p) in
    (Governs-preorder h _).trans_at p (perform h o p) (perform_all h os (perform h o p)) first
      (record {
        versions = λ e v a. elim (rest.versions e v a) [ inl old ↦ inl old | inr n ↦ inr (inr n) ];
        ledger = rest.ledger;
      })

-- Whatever activations, rollbacks and rollouts are asked for by anybody, a version that is active in an
-- environment was active there at first, or one of them was allowed to make it so: its subject is
-- granted the permission for that environment, and a rollout takes its candidate only after the canary
-- passed, and the previous version only after it did not. A ledger that was sound stays sound and keeps
-- its events.
pub active_authorized :
    {f : Rates} (h : Hashing) (os : List (Operation f)) (p : ProductionControlPlane)
    → ((e v : String)
        → get (perform_all h os p).active e ≡ some v
        → (get p.active e ≡ some v) ⊎ AnyMayActivate e v os)
      × (SoundLedger h p.evidence
          → SoundLedger h (perform_all h os p).evidence
            × Extends p.evidence.events (perform_all h os p).evidence.events)
active_authorized h os p = let g = perform_all-Governs h os p in (g.versions, g.ledger)
