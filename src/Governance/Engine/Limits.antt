-- ===== src/Governance/Engine/Limits.antt =====
-- What the governance engine counts and records (engine.py, stores.py).
use mathlib.Core.Path.{subst}
use niceone_obsidian.Prelude.{
  ℕ, suc, ◌+◌, ◌≤◌, String, Bool, true, false, ◌≡◌, inl, inr, refl, ap, ◌∙◌, some, List, [], ◌∷◌,
  ◌++◌, arith, pair_eq, triple_eq, Bool-cases, if◌then◌else◌,
}
use niceone_obsidian.Prelude.Int.{pos, int_ltb}
use niceone_obsidian.Prelude.Dict.{get, get-set}
use niceone_obsidian.Prelude.Values.{Fields}
use niceone_obsidian.Prelude.Exec.{Result, ok, err}
use niceone_obsidian.Kernel.Errors.{Exception}
use niceone_obsidian.Governance.Stores.{
  Floats, ActionLimit, GovernanceStore, DecisionProvenance, AuditEvent, action_count, count_action,
  record_decision, record_audit,
}
use niceone_obsidian.Governance.Engine.{
  GovernanceDecision, GovernanceEngine, ActionRequest, Verdict, provenance, audit_event, count_if,
  judge, decide, authorize,
}
use niceone_obsidian.Governance.Engine.Permits.{judge_iff_Permits}

module _ {f : Floats} where
  -- The count of an action after a verdict on another or the same.
  counted :
      (b : Bool) (q : ActionRequest f) (s : GovernanceStore f) (tenant action : String)
      → action_count (count_if b q s) tenant action
        ≡ (if b
            then (if pair_eq.same_key (q.tenant_id, q.action) (tenant, action) then 1 else 0)
            else 0)
          + action_count s tenant action
  unfolding action_count count_action
  counted false q s tenant action = omega arith
  counted true q s tenant action = ground (
    arith,
    get-set s.action_counts (q.tenant_id, q.action) (tenant, action)
        (suc (action_count s q.tenant_id q.action)),
    pair_eq.same_key_iff (q.tenant_id, q.action) (tenant, action),
  )

  limits_same :
      (b : Bool) (q : ActionRequest f) (s : GovernanceStore f) → (count_if b q s).limits ≡ s.limits
  unfolding count_action
  limits_same true q s = refl
  limits_same false q s = refl

  -- An allowed request was within the limit on its action.
  within_limit :
      (now : ℕ) (s : GovernanceStore f) (q : ActionRequest f) (l : ActionLimit) (m : ℕ)
      → get s.limits (q.tenant_id, q.action) ≡ some l
      → l.max_count ≡ pos m
      → (judge now s q).0 ≡ true
      → suc (action_count s q.tenant_id q.action) ≤ m
  within_limit now s q l m g e h = elim ((judge_iff_Permits now s q).0 h).limited [
    | inl n ↦ absurd (ground (arith, n, g))
    | inr (k, x, y) ↦
        let same : k ≡ l = ground (arith, x, g) in
        below (
          subst (λ z. int_ltb (pos (action_count s q.tenant_id q.action)) z ≡ true)
            (ap ActionLimit.max_count same ∙ e) y)
  ]
    where
      below :
          int_ltb (pos (action_count s q.tenant_id q.action)) (pos m) ≡ true
          → suc (action_count s q.tenant_id q.action) ≤ m
      below y = ground (arith, y)

  -- The count of an action with a limit, and the limit, after one request.
  abbrev Limited : String → String → ActionLimit → ℕ → GovernanceStore f → Type 0
  Limited tenant action l m s =
      (get s.limits (tenant, action) ≡ some l) × (action_count s tenant action ≤ m)

  judged-Limited :
      (tenant action : String) (l : ActionLimit) (m : ℕ) (b : Bool) (q : ActionRequest f)
      (s : GovernanceStore f)
      → l.max_count ≡ pos m
      → (b ≡ true
          → get s.limits (q.tenant_id, q.action) ≡ some l
          → suc (action_count s q.tenant_id q.action) ≤ m)
      → Limited tenant action l m s
      → Limited tenant action l m (count_if b q s)
  judged-Limited tenant action l m false q s e h u = u
  judged-Limited tenant action l m true q s e h (g, c) =
      elim (Bool-cases (pair_eq.same_key (q.tenant_id, q.action) (tenant, action))) [
        | inl y ↦ (
          rw (limits_same true q s) g,
          rw (counted true q s tenant action, y) (omega (arith, room y)),
        )
        | inr n ↦
            (rw (limits_same true q s) g, rw (counted true q s tenant action, n) (omega (arith, c)))
      ]
    where
      room :
          pair_eq.same_key (q.tenant_id, q.action) (tenant, action) ≡ true
          → suc (action_count s tenant action) ≤ m
      room y =
          let k = (pair_eq.same_key_iff (q.tenant_id, q.action) (tenant, action)).0 y in
          subst (λ (z : String × String). suc (action_count s z.0 z.1) ≤ m) k (h refl (rw k g))

  -- Requests one after another.
  unfoldable pub authorize_all :
      (Fields → Result Exception String)
      → List (ActionRequest f)
      → GovernanceEngine f
      → GovernanceEngine f
  unfolding authorize
  authorize_all digest [] e = e
  authorize_all digest (q ∷ qs) e = authorize_all digest qs (authorize digest q e).1

  authorized-Limited :
      (digest : Fields → Result Exception String) (tenant action : String) (l : ActionLimit) (m : ℕ)
      (q : ActionRequest f) (e : GovernanceEngine f)
      → l.max_count ≡ pos m
      → Limited tenant action l m e.store
      → Limited tenant action l m (authorize digest q e).1.store
  unfolding authorize record_audit record_decision action_count
  authorized-Limited digest tenant action l m q e h u = go (digest q.inputs)
    where
      go :
          (r : Result Exception String)
          → Limited tenant action l m (decide e q (judge e.now e.store q) r).1.store
      go (err x) = u
      go (ok x) =
          judged-Limited tenant action l m (judge e.now e.store q).0 q
            (record_audit (audit_event e q (judge e.now e.store q))
              (record_decision (provenance e q (judge e.now e.store q) x) e.store))
            h (λ b g. within_limit e.now e.store q l m g h b) u

-- However many actions are asked for, the count of an action with a limit stays within the limit if it
-- is within it at first.
pub limit_kept :
    (f : Floats) (digest : Fields → Result Exception String) (qs : List (ActionRequest f))
    (e : GovernanceEngine f) (tenant action : String) (l : ActionLimit) (m : ℕ)
    → get e.store.limits (tenant, action) ≡ some l
    → l.max_count ≡ pos m
    → action_count e.store tenant action ≤ m
    → action_count (authorize_all digest qs e).store tenant action ≤ m
unfolding authorize_all
limit_kept f digest [] e tenant action l m g h c = c
limit_kept f digest (q ∷ qs) e tenant action l m g h c =
    let (g', c') = authorized-Limited digest tenant action l m q e h (g, c) in
    limit_kept f digest qs (authorize digest q e).1 tenant action l m g' h c'

module _ {f : Floats} where
  -- What a call of `authorize` that returned `d` leaves in the store `s`, seen from the engine before it.
  pub record Recorded (q : ActionRequest f) (e : GovernanceEngine f) (d : GovernanceDecision)
      (s : GovernanceStore f) : Type 0 where
    pub decision : DecisionProvenance
    pub decided : s.decisions ≡ e.store.decisions ++ decision ∷ []
    pub identified : decision.decision_id ≡ d.decision_id
    pub explained : decision.rationale ≡ d.reason
    pub outcome : decision.outcome ≡ (if d.allowed then "allow" else "deny")
    pub event : AuditEvent
    pub audited : s.audit ≡ e.store.audit ++ event ∷ []
    pub audit_outcome : event.outcome ≡ (if d.allowed then "allowed" else "denied")
    pub counts :
        (tenant action : String)
        → action_count s tenant action
          ≡ (if d.allowed
              then (if pair_eq.same_key (q.tenant_id, q.action) (tenant, action) then 1 else 0)
              else 0)
            + action_count e.store tenant action

  decisions_same :
      (b : Bool) (q : ActionRequest f) (s : GovernanceStore f)
      → (count_if b q s).decisions ≡ s.decisions
  unfolding count_action
  decisions_same true q s = refl
  decisions_same false q s = refl

  audit_same :
      (b : Bool) (q : ActionRequest f) (s : GovernanceStore f) → (count_if b q s).audit ≡ s.audit
  unfolding count_action
  audit_same true q s = refl
  audit_same false q s = refl

  decide-Recorded :
      (q : ActionRequest f) (e : GovernanceEngine f) (v : Verdict) (x : String)
      → Recorded q e
          (record { allowed = v.0; reason = v.1; decision_id = e.uuids e.drawn })
          (decide e q v (ok x)).1.store
  unfolding record_audit record_decision action_count
  decide-Recorded q e (b, why) x = record {
    decision = provenance e q (b, why) x;
    decided = decisions_same b q _;
    identified = refl;
    explained = refl;
    outcome = refl;
    event = audit_event e q (b, why);
    audited = audit_same b q _;
    audit_outcome = refl;
    counts = λ tenant action. counted b q _ tenant action;
  }

-- Whatever `authorize` returns, it has recorded one decision with its identifier, its reason and its
-- outcome and one audit event with the outcome, and has counted the action once if it allowed it, and
-- no other action.
pub authorize-Recorded :
    (f : Floats) (digest : Fields → Result Exception String) (q : ActionRequest f)
    (e : GovernanceEngine f) (d : GovernanceDecision)
    → (authorize digest q e).0 ≡ ok d
    → Recorded q e d (authorize digest q e).1.store
unfolding authorize
authorize-Recorded f digest q e d h = go (digest q.inputs) h
  where
    go :
        (r : Result Exception String)
        → (decide e q (judge e.now e.store q) r).0 ≡ ok d
        → Recorded q e d (decide e q (judge e.now e.store q) r).1.store
    go (err x) h = absurd (ground (arith, h))
    go (ok x) h =
        let v : Verdict = judge e.now e.store q in
        let same : record { allowed = v.0; reason = v.1; decision_id = e.uuids e.drawn } ≡ d =
          ground (arith, h) in
        subst (λ z. Recorded q e z (decide e q v (ok x)).1.store) same (decide-Recorded q e v x)
