-- ===== src/Production/Rollout/Outcome.antt =====
-- What a rollout comes to (production/rollout.py).
use mathlib.Core.Path.{subst}
use niceone_obsidian.Prelude.{
  ◌≤◌, String, ◌≡◌, refl, sym, ap, ◌∙◌, Bool, true, false, List, [], ◌∷◌, ◌++◌, arith, string_eq,
  if◌then◌else◌,
}
use niceone_obsidian.Prelude.Dict.{Dict, set}
use niceone_obsidian.Prelude.Exec.{Result, ok, err}
use niceone_obsidian.Kernel.Errors.{Exception}
use niceone_obsidian.Production.Access.{authorize}
use niceone_obsidian.Production.Evidence.{Hashing}
use niceone_obsidian.Production.Evolution.{
  Rates, CanaryController, CanaryDecision, success_rate_of, decide,
}
use niceone_obsidian.Production.Deployment.{
  ProductionControlPlane, Step, release_policy, activate, rollback,
}
use niceone_obsidian.Production.Rollout.{
  RolloutResult, RolloutRequest, promote, roll_back, evaluate_and_rollout,
}
use niceone_obsidian.Production.Rollout.Authorized.{passed}
use niceone_obsidian.Production.Rollout.Runs.{
  IsFresh, event_types, Runs, Runs-bind, Runs-pure, Runs-gets, Runs-lift, Runs-record_evidence,
  Runs-activate, Runs-rollback, Runs-same, Fails, Fails-after, Fails-bind, Fails-lift, Fails-same,
}

module _ (h : Hashing) {p : ProductionControlPlane} {d : Dict String String} (fr : IsFresh p)
    (a : p.active ≡ d) {f : Rates} where
  Runs-promote :
      (q : RolloutRequest f) (k : CanaryDecision f) (x : Unit {0})
      → authorize q.subject (release_policy "deployment.activate" q.environment) ≡ ok x
      → k.passed ≡ true
      → Runs
          (promote h q k)
          p
          ("rollout.canary.passed" ∷ "deployment.approval" ∷ "deployment.activated"
            ∷ "rollout.promoted" ∷ [])
          (set d q.environment q.candidate)
          (λ r. (r.state ≡ "PROMOTED") × (r.canary.passed ≡ true))
  unfolding promote
  Runs-promote q k x g t = Runs-bind (Runs-record_evidence fr a h _ _ _) (λ _ s fr a _.
      Runs-bind (Runs-activate h fr a q.subject q.candidate q.environment _ x g) (λ _ s fr a _.
        Runs-bind (Runs-record_evidence fr a h _ _ _) (λ _ s fr a _.
          Runs-bind (Runs-gets fr a {Q = λ _. Unit} _ tt)
            (λ _ s fr a _. Runs-pure fr a _ (refl, t)))))

  Runs-roll_back :
      (q : RolloutRequest f) (k : CanaryDecision f) (x : Unit {0})
      → authorize q.subject (release_policy "deployment.rollback" q.environment) ≡ ok x
      → k.passed ≡ false
      → Runs
          (roll_back h q k)
          p
          ("rollout.canary.failed" ∷ "deployment.rollback.approved" ∷ "deployment.rollback.verified"
            ∷ [])
          (set d q.environment q.previous)
          (λ r. (r.state ≡ "ROLLED_BACK") × (r.canary.passed ≡ false))
  unfolding roll_back
  Runs-roll_back q k x g t = Runs-bind (Runs-record_evidence fr a h _ _ _) (λ _ s fr a _.
      Runs-bind (Runs-rollback h fr a q.subject q.previous q.environment x g) (λ _ s fr a _.
        Runs-bind (Runs-gets fr a {Q = λ _. Unit} _ tt) (λ _ s fr a _. Runs-pure fr a _ (refl, t))))

abbrev pub permission_for : Bool → String
permission_for true = "deployment.activate"
permission_for false = "deployment.rollback"

abbrev pub final_state : Bool → String
final_state true = "PROMOTED"
final_state false = "ROLLED_BACK"

abbrev pub verdict_event : Bool → String
verdict_event true = "rollout.canary.passed"
verdict_event false = "rollout.canary.failed"

-- The events of a rollout that returns, after the first one.
abbrev pub branch_events : Bool → List String
branch_events true =
    "rollout.canary.passed" ∷ "deployment.approval" ∷ "deployment.activated" ∷ "rollout.promoted"
    ∷ []
branch_events false =
    "rollout.canary.failed" ∷ "deployment.rollback.approved" ∷ "deployment.rollback.verified" ∷ []

module _ {f : Rates} where
  abbrev pub final_version : Bool → RolloutRequest f → String
  final_version true q = q.candidate
  final_version false q = q.previous

  -- What a rollout comes to, by the answer of `authorize` and whether the canary passed.
  abbrev pub Settles :
      RolloutRequest f
      → ProductionControlPlane
      → Bool
      → Result Exception (Unit {0})
      → Result Exception (RolloutResult f) × ProductionControlPlane
      → Type 0
  Settles q p b (ok x) (out, p') =
      (r : RolloutResult f) × (out ≡ ok r)
      × (r.state ≡ final_state b)
      × (r.canary.passed ≡ b)
      × (p'.active ≡ set p.active q.environment (final_version b q))
      × (event_types p' ≡ event_types p ++ "rollout.canary.started" ∷ branch_events b)
  Settles q p b (err e) (out, p') =
      (out ≡ err e)
      × (p'.active ≡ p.active)
      × (event_types p' ≡ event_types p ++ "rollout.canary.started" ∷ verdict_event b ∷ [])

  abbrev Checked : CanaryController f → RolloutRequest f → CanaryDecision f → Type 0
  Checked c q k =
      (decide c q.candidate q.traffic_percent q.successes q.total q.latency_ms ≡ ok k)
      × (k.passed ≡ passed c q)

  decides :
      (c : CanaryController f) (q : RolloutRequest f)
      → 1 ≤ q.traffic_percent
      → q.traffic_percent ≤ 100
      → (k : CanaryDecision f) × Checked c q k
  unfolding decide
  decides c q l u = (
    record {
      candidate = q.candidate;
      traffic_percent = q.traffic_percent;
      success_rate = success_rate_of f q.successes q.total;
      latency_ms = q.latency_ms;
      passed = passed c q;
    },
    (ground arith, refl),
  )

  module _ (h : Hashing) (c : CanaryController f) (q : RolloutRequest f) where
    abbrev branch : CanaryDecision f → Step (RolloutResult f)
    branch k = if k.passed then promote h q k else roll_back h q k

    branch_same :
        (k : CanaryDecision f) {b : Bool}
        → k.passed ≡ b
        → branch k ≡ (if b then promote h q k else roll_back h q k)
    branch_same k t = ap (λ (b : Bool). if b then promote h q k else roll_back h q k) t

    Runs-branch :
        {p : ProductionControlPlane} {d : Dict String String} (fr : IsFresh p) (a : p.active ≡ d)
        (k : CanaryDecision f) (b : Bool) (x : Unit {0})
        → k.passed ≡ b
        → authorize q.subject (release_policy (permission_for b) q.environment) ≡ ok x
        → Runs
            (branch k)
            p
            (branch_events b)
            (set d q.environment (final_version b q))
            (λ r. (r.state ≡ final_state b) × (r.canary.passed ≡ b))
    Runs-branch fr a k true x t g = Runs-same (branch_same k t) (Runs-promote h fr a q k x g t)
    Runs-branch fr a k false x t g = Runs-same (branch_same k t) (Runs-roll_back h fr a q k x g t)

    Fails-branch :
        {p : ProductionControlPlane} {d : Dict String String} (fr : IsFresh p) (a : p.active ≡ d)
        (k : CanaryDecision f) (b : Bool) (e : Exception)
        → k.passed ≡ b
        → authorize q.subject (release_policy (permission_for b) q.environment) ≡ err e
        → Fails (branch k) p (verdict_event b ∷ []) d e
    unfolding promote roll_back activate rollback
    Fails-branch fr a k true e t g = Fails-same (branch_same k t) (
        Fails-after (Runs-record_evidence fr a h _ _ _)
          (λ _ s fr a _. Fails-bind _ (Fails-bind _ (Fails-lift a _ g))))
    Fails-branch fr a k false e t g = Fails-same (branch_same k t) (
        Fails-after (Runs-record_evidence fr a h _ _ _)
          (λ _ s fr a _. Fails-bind _ (Fails-bind _ (Fails-lift a _ g))))

    settles :
        (p : ProductionControlPlane) (k : CanaryDecision f) (x : Result Exception (Unit {0}))
        → IsFresh p
        → Checked c q k
        → authorize q.subject (release_policy (permission_for (passed c q)) q.environment) ≡ x
        → Settles q p (passed c q) x (evaluate_and_rollout h c q p)
    unfolding evaluate_and_rollout
    settles p k (ok x) fr (dec, t) g =
        let r : Runs (evaluate_and_rollout h c q) p
            ("rollout.canary.started" ∷ branch_events (passed c q))
            (set p.active q.environment (final_version (passed c q) q))
            (λ r. (r.state ≡ final_state (passed c q)) × (r.canary.passed ≡ passed c q)) =
          Runs-bind (Runs-record_evidence fr refl h _ _ _) (λ _ s fr a _.
            Runs-bind (Runs-lift fr a _ k dec) (λ d s fr a e.
              Runs-branch fr a d (passed c q) x (ap (λ (d : CanaryDecision f). d.passed) e ∙ t)
                g)) in
        subst (Settles q p (passed c q) (ok x)) (sym r.run)
          (r.value, refl, r.holds.0, r.holds.1, r.active, r.types)
    settles p k (err e) fr (dec, t) g =
        let r : Fails (evaluate_and_rollout h c q) p
            ("rollout.canary.started" ∷ verdict_event (passed c q) ∷ []) p.active e =
          Fails-after (Runs-record_evidence fr refl h _ _ _) (λ _ s fr a _.
            Fails-after (Runs-lift fr a _ k dec) (λ d s fr a y.
              Fails-branch fr a d (passed c q) e (ap (λ (d : CanaryDecision f). d.passed) y ∙ t)
                g)) in
        subst (Settles q p (passed c q) (err e)) (sym r.run) (refl, r.active, r.types)

-- A rollout with a percentage from 1 to 100 and unused UUIDs is decided by the canary and by whether its
-- subject may activate (the canary passed) or roll back (it did not) in the environment. Where it may,
-- the rollout returns PROMOTED, with the candidate active, or ROLLED_BACK, with the previous version
-- active, and the events of either are recorded in order. Where it may not, the rollout raises what
-- `authorize` raises, has recorded the start and the verdict of the canary, and changes no version.
pub rollout-Settles :
    {f : Rates} (h : Hashing) (c : CanaryController f) (q : RolloutRequest f)
    (p : ProductionControlPlane)
    → IsFresh p
    → 1 ≤ q.traffic_percent
    → q.traffic_percent ≤ 100
    → Settles q p
        (passed c q)
        (authorize q.subject (release_policy (permission_for (passed c q)) q.environment))
        (evaluate_and_rollout h c q p)
rollout-Settles h c q p fr l u =
    let (k, checked) = decides c q l u in settles h c q p k _ fr checked refl
