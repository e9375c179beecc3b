-- ===== src/Governance/Stores.antt =====
-- ois/governance/models.py and stores.py: what the governance engine knows, and what it records. A
-- cost and a target are Python floats, whose arithmetic is a parameter; a time is a number, as elsewhere.
use niceone_obsidian.Prelude.{
  ℕ, suc, String, Bool, true, ◌&&◌, Option, none, some, List, [], ◌∷◌, ◌++◌, str_eq, pair_eq,
  triple_eq, ltb, or_else, if◌then◌else◌,
}
use niceone_obsidian.Prelude.Int.{ℤ, is_negative}
use niceone_obsidian.Prelude.Dict.{Dict, get, set}
use niceone_obsidian.Prelude.Values.{Fields}
use niceone_obsidian.Prelude.Exec.{Result, ok, err}
use niceone_obsidian.Kernel.Errors.{Exception, exception, value_error, key_error, permission_error}
use Prim.Native.String.{◌++◌ as text_append}

-- The operations on floats that the code uses.
pub record Floats : Type 1 where
  pub Float : Type 0
  pub zero_float : Float
  pub one_float : Float
  pub plus : Float → Float → Float
  pub at_most : Float → Float → Bool
  pub below_zero : Float → Bool
  pub is_zero : Float → Bool

pub record AgentIdentity : Type 0 where
  pub agent_id : String
  pub tenant_id : String
  pub role : String
  pub trust_level : String
  pub enabled : Bool

pub record CapabilityGrant : Type 0 where
  pub capability_id : String
  pub tenant_id : String
  pub agent_id : String
  pub allowed_actions : List String
  pub expires_at : Option ℕ

-- CapabilityGrant.active
unfoldable pub is_active : ℕ → Option ℕ → Bool
is_active now none = true
is_active now (some t) = ltb now t

pub record PolicyVersion : Type 0 where
  pub policy_id : String
  pub version : String
  pub tenant_id : String
  pub rules : Fields
  pub content_hash : String
  pub active : Bool

pub record DecisionProvenance : Type 0 where
  pub decision_id : String
  pub tenant_id : String
  pub workspace_id : String
  pub execution_id : String
  pub actor_id : String
  pub action : String
  pub outcome : String
  pub policy_id : Option String
  pub policy_version : Option String
  pub capability_id : Option String
  pub inputs_digest : String
  pub rationale : String
  pub created_at : ℕ

pub record AuditEvent : Type 0 where
  pub event_id : String
  pub tenant_id : String
  pub actor_id : String
  pub action : String
  pub resource : String
  pub outcome : String
  pub execution_id : Option String
  pub metadata : Fields
  pub created_at : ℕ

pub record ActionLimit : Type 0 where
  pub tenant_id : String
  pub action : String
  pub max_count : ℤ
  pub window_seconds : ℤ

pub record ComplianceEvidence : Type 0 where
  pub evidence_id : String
  pub tenant_id : String
  pub control_id : String
  pub subject : String
  pub evidence_type : String
  pub digest : String
  pub source : String
  pub created_at : ℕ

module _ (f : Floats) where
  pub record ActionBudget : Type 0 where
    pub tenant_id : String
    pub budget_id : String
    pub max_cost : f.Float
    pub spent_cost : f.Float

  pub record Slo : Type 0 where
    pub name : String
    pub tenant_id : String
    pub target : f.Float
    pub metric : String
    pub window_seconds : ℤ

  pub record GovernanceStore : Type 0 where
    pub agents : Dict (String × String) AgentIdentity
    pub grants : Dict (String × String × String) CapabilityGrant
    pub policies : Dict (String × String × String) PolicyVersion
    pub decisions : List DecisionProvenance
    pub audit : List AuditEvent
    pub evidence : List ComplianceEvidence
    pub budgets : Dict (String × String) ActionBudget
    pub limits : Dict (String × String) ActionLimit
    pub action_counts : Dict (String × String) ℕ
    pub slos : Dict (String × String) Slo

module _ {f : Floats} where
  -- ActionBudget.can_spend
  unfoldable pub can_spend : f.Float → ActionBudget f → Bool
  can_spend amount b =
      f.at_most f.zero_float amount && f.at_most (f.plus b.spent_cost amount) b.max_cost

  unfoldable pub put_agent :
      AgentIdentity → GovernanceStore f → Result Exception (GovernanceStore f)
  unfolding set
  put_agent a s =
      if str_eq a.tenant_id ""
      then err (exception value_error "tenant_id is required")
      else ok (record s { agents = set s.agents (a.tenant_id, a.agent_id) a })

  unfoldable pub grant : CapabilityGrant → GovernanceStore f → GovernanceStore f
  unfolding set
  grant g s = record s { grants = set s.grants (g.tenant_id, g.agent_id, g.capability_id) g }

  unfoldable pub put_policy : PolicyVersion → GovernanceStore f → GovernanceStore f
  unfolding set
  put_policy p s = record s { policies = set s.policies (p.tenant_id, p.policy_id, p.version) p }

  unfoldable pub put_budget :
      ActionBudget f → GovernanceStore f → Result Exception (GovernanceStore f)
  unfolding set
  put_budget b s =
      if f.below_zero b.max_cost
      then err (exception value_error "max_cost must be non-negative")
      else ok (record s { budgets = set s.budgets (b.tenant_id, b.budget_id) b })

  unfoldable pub put_limit : ActionLimit → GovernanceStore f → Result Exception (GovernanceStore f)
  unfolding set
  put_limit l s =
      if is_negative l.max_count
      then err (exception value_error "max_count must be non-negative")
      else ok (record s { limits = set s.limits (l.tenant_id, l.action) l })

  unfoldable pub record_decision : DecisionProvenance → GovernanceStore f → GovernanceStore f
  record_decision d s = record s { decisions = s.decisions ++ d ∷ [] }

  unfoldable pub record_audit : AuditEvent → GovernanceStore f → GovernanceStore f
  record_audit e s = record s { audit = s.audit ++ e ∷ [] }

  unfoldable pub record_evidence : ComplianceEvidence → GovernanceStore f → GovernanceStore f
  record_evidence e s = record s { evidence = s.evidence ++ e ∷ [] }

  unfoldable pub set_slo : Slo f → GovernanceStore f → Result Exception (GovernanceStore f)
  unfolding set
  set_slo o s =
      if f.at_most f.zero_float o.target && f.at_most o.target f.one_float
      then ok (record s { slos = set s.slos (o.tenant_id, o.name) o })
      else err (exception value_error "SLO target must be between 0 and 1")

  abbrev pub spend_from :
      String × String
      → String
      → f.Float
      → Option (ActionBudget f)
      → GovernanceStore f
      → Result Exception (GovernanceStore f)
  spend_from key i amount none s = err (exception key_error (text_append "budget not found: " i))
  spend_from key i amount (some b) s =
      if can_spend amount b
      then ok (record s {
        budgets = set s.budgets key (record b { spent_cost = f.plus b.spent_cost amount });
      })
      else err (exception permission_error "action budget exceeded")

  unfoldable pub spend :
      String → String → f.Float → GovernanceStore f → Result Exception (GovernanceStore f)
  unfolding can_spend get set
  spend tenant i amount s = spend_from (tenant, i) i amount (get s.budgets (tenant, i)) s

  -- `self.action_counts[key]` of a defaultdict
  unfoldable pub action_count : GovernanceStore f → String → String → ℕ
  unfolding get
  action_count s tenant action = or_else (get s.action_counts (tenant, action)) 0

  unfoldable pub count_action : String → String → GovernanceStore f → ℕ × GovernanceStore f
  unfolding set action_count
  count_action tenant action s =
      let n = suc (action_count s tenant action) in
      (n, record s { action_counts = set s.action_counts (tenant, action) n })
