-- ===== src/Examples/Authority.antt =====
-- The properties of the governance engine on one agent that may search twice, with whole numbers as costs.
use niceone_obsidian.Prelude.{
  ℕ, ◌+◌, ◌≤◌, String, ◌≡◌, ◌↔◌, refl, true, false, none, some, [], ◌∷◌, arith, pair_eq, triple_eq,
  leb, nat_eq,
}
use niceone_obsidian.Prelude.Int.{pos}
use niceone_obsidian.Prelude.Dict.{get}
use niceone_obsidian.Prelude.Values.{Fields, end}
use niceone_obsidian.Prelude.Exec.{Result, ok}
use niceone_obsidian.Kernel.Errors.{Exception}
use niceone_obsidian.Governance.Stores.{
  Floats, GovernanceStore, ActionLimit, action_count, is_active, can_spend,
}
use niceone_obsidian.Governance.Engine.{
  GovernanceDecision, GovernanceEngine, ActionRequest, authorize, judge, can_fund,
}
use niceone_obsidian.Governance.Engine.Permits.{Permits, allowed_iff_Permits}
use niceone_obsidian.Governance.Engine.Limits.{
  authorize_all, limit_kept, Recorded, authorize-Recorded,
}

abbrev floats : Floats
floats = record {
  Float = ℕ;
  zero_float = 0;
  one_float = 1;
  plus = λ a b. a + b;
  at_most = leb;
  below_zero = λ a. false;
  is_zero = λ a. nat_eq a 0;
}

abbrev twice : ActionLimit
twice = record {
  tenant_id = "tenant-1";
  action = "read";
  max_count = pos 2;
  window_seconds = pos 3600;
}

abbrev store : GovernanceStore floats
store = record {
  agents =
      (
        ("tenant-1", "agent-1"),
        record {
          agent_id = "agent-1";
          tenant_id = "tenant-1";
          role = "analyst";
          trust_level = "standard";
          enabled = true;
        },
      )
      ∷ [];
  grants =
      (
        ("tenant-1", "agent-1", "search"),
        record {
          capability_id = "search";
          tenant_id = "tenant-1";
          agent_id = "agent-1";
          allowed_actions = "read" ∷ [];
          expires_at = some 200;
        },
      )
      ∷ [];
  policies = [];
  decisions = [];
  audit = [];
  evidence = [];
  budgets =
      (
        ("tenant-1", "daily"),
        record { tenant_id = "tenant-1"; budget_id = "daily"; max_cost = 10; spent_cost = 7 },
      )
      ∷ [];
  limits = (("tenant-1", "read"), twice) ∷ [];
  action_counts = [];
  slos = [];
}

abbrev engine : GovernanceEngine floats
engine = record { store = store; now = 100; uuids = λ n. "decision-1"; drawn = 0 }

abbrev request : ActionRequest floats
request = record {
  tenant_id = "tenant-1";
  workspace_id = "workspace-1";
  execution_id = "exec-1";
  agent_id = "agent-1";
  action = "read";
  capability_id = "search";
  inputs = end;
  estimated_cost = 3;
  policy_id = none;
  policy_version = none;
}

abbrev digest : Fields → Result Exception String
digest inputs = ok "digest"

abbrev allowed : GovernanceDecision
allowed = record { allowed = true; reason = "authorized"; decision_id = "decision-1" }

allows : (authorize digest request engine).0 ≡ ok allowed
unfolding authorize judge get is_active can_fund can_spend action_count
allows = refl

allowed_iff_Permits_example : (true ≡ true) ↔ Permits 100 store request
allowed_iff_Permits_example = allowed_iff_Permits floats digest request engine allowed allows

authorize-Recorded_example :
    Recorded request engine allowed (authorize digest request engine).1.store
authorize-Recorded_example = authorize-Recorded floats digest request engine allowed allows

none_yet : action_count store "tenant-1" "read" ≤ 2
unfolding action_count get
none_yet = omega arith

-- The third request is refused.
limit_kept_example :
    action_count
      (authorize_all digest (request ∷ request ∷ request ∷ []) engine).store
      "tenant-1"
      "read"
    ≤ 2
unfolding get
limit_kept_example =
    limit_kept floats digest (request ∷ request ∷ request ∷ []) engine "tenant-1" "read" twice 2
      refl refl none_yet
