-- ===== src/Production/Deployment.antt =====
-- production/control_plane.py: ProductionControlPlane over InMemoryDeploymentAdapter. The evidence ledger,
-- the active versions, the clock and the supply of UUIDs are the state.
use niceone_obsidian.Prelude.{ℕ, suc, String, Option, none, some, List, [], ◌∷◌, map, string_eq}
use niceone_obsidian.Prelude.Dict.{Dict, set}
use niceone_obsidian.Prelude.Values.{Fields, text, end, field}
use niceone_obsidian.Prelude.Exec.{Exec, ok, lift, pure, gets, ◌>>=◌, ◌>>◌}
use niceone_obsidian.Kernel.Errors.{Exception}
use niceone_obsidian.Production.Access.{Subject, AuthorizationPolicy, authorize}
use niceone_obsidian.Production.Evidence.{EvidenceEvent, EvidenceLedger, Hashing, append, events_of}

pub record ProductionControlPlane : Type 0 where
  pub evidence : EvidenceLedger
  pub active : Dict String String
  pub now : ℕ
  pub uuids : ℕ → String
  pub drawn : ℕ

abbrev pub Step : Type 0 → Type 0
Step A = Exec ProductionControlPlane Exception A

pub record DeploymentRecord : Type 0 where
  pub deployment_id : String
  pub candidate_version : String
  pub previous_version : Option String
  pub environment : String
  pub state : String
  pub evidence_ids : List String

-- `str(uuid4())`
unfoldable pub draw : Step String
draw p = (ok (p.uuids p.drawn), record p { drawn = suc p.drawn })

-- InMemoryDeploymentAdapter.deploy, and `rollback`, which does the same.
unfoldable pub deploy : String → String → Step String
unfolding set
deploy version environment p = (ok version, record p { active = set p.active environment version })

-- The policy that `activate` and `rollback` ask for.
abbrev pub release_policy : String → String → AuthorizationPolicy
release_policy permission environment = record {
  permission = permission;
  required_role = some "release-manager";
  required_attributes = ("environment", environment) ∷ [];
}

abbrev pub details : String → String → String → Fields
details key version environment =
    field key (text version) (field "environment" (text environment) end)

-- `tuple(e.event_id for e in self.evidence.events(execution_id))`
abbrev pub evidence_ids : String → ProductionControlPlane → List String
evidence_ids execution_id p =
    map (λ (e : EvidenceEvent). e.event_id) (events_of (some execution_id) p.evidence)

module _ (h : Hashing) where
  -- A call of EvidenceLedger.append, which draws the identifier itself.
  unfoldable pub record_evidence : String → String → Fields → Step EvidenceEvent
  unfolding append
  record_evidence execution_id event_type payload p =
      let (r, l) = append h (p.uuids p.drawn) p.now execution_id event_type payload p.evidence in
      (r, record p { evidence = l; drawn = suc p.drawn })

  -- ProductionControlPlane.activate. An event is never false.
  unfoldable pub activate : Subject → String → String → Option String → Step DeploymentRecord
  activate s candidate environment previous = do
    lift (authorize s (release_policy "deployment.activate" environment))
    execution_id ← draw
    record_evidence execution_id "deployment.approval" (details "candidate" candidate environment)
    deploy candidate environment
    record_evidence execution_id "deployment.activated" (details "candidate" candidate environment)
    deployment_id ← draw
    ids ← gets (evidence_ids execution_id)
    pure (record {
      deployment_id = deployment_id;
      candidate_version = candidate;
      previous_version = previous;
      environment = environment;
      state = "ACTIVE";
      evidence_ids = ids;
    })

  -- ProductionControlPlane.rollback
  unfoldable pub rollback : Subject → String → String → Step DeploymentRecord
  rollback s target environment = do
    lift (authorize s (release_policy "deployment.rollback" environment))
    execution_id ← draw
    record_evidence execution_id "deployment.rollback.approved"
        (details "target" target environment)
    deploy target environment
    record_evidence execution_id "deployment.rollback.verified"
        (details "target" target environment)
    deployment_id ← draw
    ids ← gets (evidence_ids execution_id)
    pure (record {
      deployment_id = deployment_id;
      candidate_version = target;
      previous_version = none;
      environment = environment;
      state = "ROLLED_BACK";
      evidence_ids = ids;
    })
