-- ===== src/Governance/Engine/Permits.antt =====
-- When the governance engine allows an action (engine.py).
use mathlib.Core.Path.{subst}
use niceone_obsidian.Prelude.{
  ℕ, String, true, false, ◌≡◌, ◌<◌, sym, ◌↔◌, ◌⊎◌, inl, inr, refl, Option, none, some, List, [],
  ◌∷◌, arith, str_eq, str_eq_iff, pair_eq, triple_eq, any, Bool-cases,
}
use niceone_obsidian.Prelude.Int.{pos, int_ltb}
use niceone_obsidian.Prelude.Dict.{Dict, get}
use niceone_obsidian.Prelude.Values.{Fields}
use niceone_obsidian.Prelude.Exec.{Result, ok, err}
use niceone_obsidian.Kernel.Errors.{Exception}
use niceone_obsidian.Governance.Stores.{
  Floats, AgentIdentity, CapabilityGrant, PolicyVersion, ActionLimit, ActionBudget, GovernanceStore,
  is_active, can_spend, action_count,
}
use niceone_obsidian.Governance.Engine.{
  GovernanceDecision, GovernanceEngine, ActionRequest, Verdict, judge_agent, judge_policy,
  judge_grant, judge_limit, judge_cost, budgets_of, can_fund, find_policy, is_granted, judge,
  decide, authorize,
}

-- A grant is in force: it does not expire, or later than now.
abbrev pub InForce : ℕ → Option ℕ → Type 0
InForce now o = (o ≡ none) ⊎ ((t : ℕ) × (o ≡ some t) × (now < t))

-- The actions of a grant are not limited, or the action is one of them.
abbrev pub Covers : String → List String → Type 0
Covers action actions = (actions ≡ []) ⊎ (any (str_eq action) actions ≡ true)

InForce-is_active : (now : ℕ) (o : Option ℕ) → (is_active now o ≡ true) ↔ InForce now o
unfolding is_active
InForce-is_active now none = (λ h. inl refl, λ h. refl)
InForce-is_active now (some t) = (
  λ h. inr (t, refl, ground (arith, h)),
  λ h. elim h [ inl e ↦ absurd (ground (arith, e)) | inr (u, e, l) ↦ ground (arith, e, l) ],
)

Covers-is_granted :
    (action : String) (xs : List String) → (is_granted action xs ≡ true) ↔ Covers action xs
Covers-is_granted action [] = (λ h. inl refl, λ h. refl)
Covers-is_granted action (x ∷ xs) = (
  λ h. inr (ground (arith, h)),
  λ h. elim h [ inl e ↦ absurd (ground (arith, e)) | inr m ↦ ground (arith, m) ],
)

module _ {f : Floats} where
  -- One of the tenant's budgets has room for a cost.
  pub data IsFunded (tenant : String) (cost : f.Float)
      : Dict (String × String) (ActionBudget f) → Type 0 where
    funded_here :
        (t i : String) (b : ActionBudget f) (rest : Dict (String × String) (ActionBudget f))
        → t ≡ tenant
        → can_spend cost b ≡ true
        → IsFunded tenant cost (((t, i), b) ∷ rest)
    funded_later :
        (t i : String) (b : ActionBudget f) (rest : Dict (String × String) (ActionBudget f))
        → IsFunded tenant cost rest
        → IsFunded tenant cost (((t, i), b) ∷ rest)

  -- What the store has to hold for a request at a time.
  pub record Permits (now : ℕ) (s : GovernanceStore f) (q : ActionRequest f) : Type 0 where
    pub agent :
        (a : AgentIdentity) × (get s.agents (q.tenant_id, q.agent_id) ≡ some a) × (a.enabled ≡ true)
    pub policy :
        (q.policy_id ≡ none)
        ⊎ ((p : PolicyVersion) × (find_policy s q q.policy_id ≡ some p) × (p.active ≡ true))
    pub granted :
        (g : CapabilityGrant) × (get s.grants (q.tenant_id, q.agent_id, q.capability_id) ≡ some g)
        × InForce now g.expires_at
        × Covers q.action g.allowed_actions
    pub limited :
        (get s.limits (q.tenant_id, q.action) ≡ none)
        ⊎ ((l : ActionLimit) × (get s.limits (q.tenant_id, q.action) ≡ some l)
            × (int_ltb (pos (action_count s q.tenant_id q.action)) l.max_count ≡ true))
    pub funded :
        (f.is_zero q.estimated_cost ≡ true) ⊎ IsFunded q.tenant_id q.estimated_cost s.budgets

  any-IsFunded :
      (tenant : String) (cost : f.Float) (d : Dict (String × String) (ActionBudget f))
      → (any (can_spend cost) (budgets_of tenant d) ≡ true) ↔ IsFunded tenant cost d
  any-IsFunded tenant cost d = (there d, back d)
    where
      there :
          (d : Dict (String × String) (ActionBudget f))
          → any (can_spend cost) (budgets_of tenant d) ≡ true
          → IsFunded tenant cost d
      there [] h = absurd (ground (arith, h))
      there (((t, i), b) ∷ rest) h = elim (Bool-cases (str_eq t tenant)) [
        | inl y ↦ elim (Bool-cases (can_spend cost b)) [
          | inl z ↦ funded_here t i b rest ((str_eq_iff t tenant).0 y) z
          | inr n ↦ funded_later t i b rest (there rest (ground (arith, h, y, n)))
        ]
        | inr n ↦ funded_later t i b rest (there rest (ground (arith, h, n)))
      ]

      back :
          (d : Dict (String × String) (ActionBudget f))
          → IsFunded tenant cost d
          → any (can_spend cost) (budgets_of tenant d) ≡ true
      back _ (funded_here t i b rest e c) = ground (arith, (str_eq_iff t tenant).1 e, c)
      back _ (funded_later t i b rest x) = ground (arith, back rest x)

  can_fund-any :
      (cost : f.Float) (bs : List (ActionBudget f)) → can_fund cost bs ≡ any (can_spend cost) bs
  unfolding can_fund
  can_fund-any cost [] = refl
  can_fund-any cost (b ∷ bs) = ground arith

agent_allows :
    (o : Option AgentIdentity) (v : Verdict)
    → ((judge_agent o v).0 ≡ true)
      ↔ (((a : AgentIdentity) × (o ≡ some a) × (a.enabled ≡ true)) × (v.0 ≡ true))
agent_allows none v =
    (λ h. absurd (ground (arith, h)), λ ((a, e, x), y). absurd (ground (arith, e)))
agent_allows (some a) v = (
  λ h. ((a, refl, ground (arith, h)), ground (arith, h)),
  λ ((b, e, x), y). ground (arith, e, x, y),
)

policy_allows :
    (i : Option String) (o : Option PolicyVersion)
    → ((judge_policy i o).0 ≡ true)
      ↔ ((i ≡ none) ⊎ ((p : PolicyVersion) × (o ≡ some p) × (p.active ≡ true)))
policy_allows none o = (λ h. inl refl, λ h. refl)
policy_allows (some i) none = (
  λ h. absurd (ground (arith, h)),
  λ h. elim h [ inl e ↦ absurd (ground (arith, e)) | inr (p, e, x) ↦ absurd (ground (arith, e)) ],
)
policy_allows (some i) (some p) = (
  λ h. inr (p, refl, ground (arith, h)),
  λ h. elim h [ inl e ↦ absurd (ground (arith, e)) | inr (q, e, x) ↦ ground (arith, e, x) ],
)

grant_allows :
    (now : ℕ) (action : String) (o : Option CapabilityGrant) (v : Verdict)
    → ((judge_grant now action o v).0 ≡ true) ↔ (
        ((g : CapabilityGrant) × (o ≡ some g)
          × InForce now g.expires_at
          × Covers action g.allowed_actions)
        × (v.0 ≡ true))
grant_allows now action none v =
    (λ h. absurd (ground (arith, h)), λ ((g, e, x, y), z). absurd (ground (arith, e)))
grant_allows now action (some g) v = (
  λ h. elim (Bool-cases (is_active now g.expires_at)) [
    | inl a ↦ elim (Bool-cases (is_granted action g.allowed_actions)) [
      | inl b ↦ (
        (
          g,
          refl,
          (InForce-is_active now g.expires_at).0 a,
          (Covers-is_granted action g.allowed_actions).0 b,
        ),
        ground (arith, h, a, b),
      )
      | inr b ↦ absurd (ground (arith, h, a, b))
    ]
    | inr a ↦ absurd (ground (arith, h, a))
  ],
  λ ((k, e, x, y), z).
      let same : g ≡ k = ground (arith, e) in
      let a : is_active now g.expires_at ≡ true =
        (InForce-is_active now g.expires_at).1
          (subst (λ u. InForce now u.expires_at) (sym same) x) in
      let b : is_granted action g.allowed_actions ≡ true =
        (Covers-is_granted action g.allowed_actions).1
          (subst (λ u. Covers action u.allowed_actions) (sym same) y) in
      rw (a, b) z,
)

limit_allows :
    (n : ℕ) (o : Option ActionLimit) (v : Verdict)
    → ((judge_limit n o v).0 ≡ true) ↔ (
        ((o ≡ none) ⊎ ((l : ActionLimit) × (o ≡ some l) × (int_ltb (pos n) l.max_count ≡ true)))
        × (v.0 ≡ true))
limit_allows n none v = (λ h. (inl refl, h), λ (x, h). h)
limit_allows n (some l) v = (
  λ h. elim (Bool-cases (int_ltb (pos n) l.max_count)) [
    | inl a ↦ (inr (l, refl, a), ground (arith, h, a))
    | inr a ↦ absurd (ground (arith, h, a))
  ],
  λ (h, y). elim h [ inl e ↦ absurd (ground (arith, e)) | inr (k, e, x) ↦ ground (arith, e, x, y) ],
)

module _ {f : Floats} where
  cost_allows :
      (cost : f.Float) (bs : List (ActionBudget f)) (v : Verdict)
      → ((judge_cost cost bs v).0 ≡ true)
        ↔ (((f.is_zero cost ≡ true) ⊎ (any (can_spend cost) bs ≡ true)) × (v.0 ≡ true))
  cost_allows cost bs (false, why) =
      (λ h. absurd (ground (arith, h)), λ (x, h). absurd (ground (arith, h)))
  cost_allows cost bs (true, why) = (
    λ h. elim (Bool-cases (f.is_zero cost)) [
      | inl a ↦ (inl a, refl)
      | inr a ↦ (inr (ground (arith, h, a, can_fund-any cost bs)), refl)
    ],
    λ (h, y). elim h [
      | inl a ↦ ground (arith, a)
      | inr a ↦ ground (arith, a, can_fund-any cost bs)
    ],
  )

  pub judge_iff_Permits :
      (now : ℕ) (s : GovernanceStore f) (q : ActionRequest f)
      → ((judge now s q).0 ≡ true) ↔ Permits now s q
  unfolding judge
  judge_iff_Permits now s q = (
    λ h.
        let (a, u) = (agent_allows _ _).0 h in
        let (g, v) = (grant_allows _ _ _ _).0 u in
        let (c, w) = (cost_allows _ _ _).0 v in
        let (l, x) = (limit_allows _ _ _).0 w in
        record {
          agent = a;
          policy = (policy_allows _ _).0 x;
          granted = g;
          limited = l;
          funded = elim c [
            | inl z ↦ inl z
            | inr z ↦ inr ((any-IsFunded q.tenant_id q.estimated_cost s.budgets).0 z)
          ];
        },
    λ p. (agent_allows _ _).1 (
      p.agent,
      (grant_allows _ _ _ _).1 (
        p.granted,
        (cost_allows _ _ _).1 (
          elim p.funded [
            | inl z ↦ inl z
            | inr z ↦ inr ((any-IsFunded q.tenant_id q.estimated_cost s.budgets).1 z)
          ],
          (limit_allows _ _ _).1 (p.limited, (policy_allows _ _).1 p.policy),
        ),
      ),
    ),
  )

-- A call of `authorize` that returns allows the action exactly when the agent is known and enabled, the
-- policy version, if one is named, is known and active, the grant is known, active and covers the action,
-- the limit on the action, if there is one, is not reached, and a cost, if there is one, fits a budget of
-- the tenant.
pub allowed_iff_Permits :
    (f : Floats) (digest : Fields → Result Exception String) (q : ActionRequest f)
    (e : GovernanceEngine f) (d : GovernanceDecision)
    → (authorize digest q e).0 ≡ ok d
    → (d.allowed ≡ true) ↔ Permits e.now e.store q
unfolding authorize
allowed_iff_Permits f digest q e d h = go (digest q.inputs) h
  where
    go :
        (r : Result Exception String)
        → (decide e q (judge e.now e.store q) r).0 ≡ ok d
        → (d.allowed ≡ true) ↔ Permits e.now e.store q
    go (err x) h = absurd (ground (arith, h))
    go (ok x) h =
        let same : (judge e.now e.store q).0 ≡ d.allowed = ground (arith, h) in
        subst (λ b. (b ≡ true) ↔ Permits e.now e.store q) same (judge_iff_Permits e.now e.store q)
