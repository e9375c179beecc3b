-- ===== src/Lib.antt =====
-- The OIS kernel (ois/kernel), with its registries, worker leases, gates, approvals and lease queue, the
-- release control plane (production), the autonomous loop (ois/autonomy) and the source gateway
-- (ois/infrastructure/source_gateway).
--
-- The program. `ExecutionRuntime.execute` runs one capability for one execution: it looks the
-- capability up in a registry, validates the input against the contract, asks the policy engine,
-- answers from the idempotency store if the key has a result, and else invokes the capability and
-- settles its answer, recording evidence and saving checkpoints on the way. Around it stand recovery
-- (what to do about a failure), the supervisor (what to do next), the outbox of external effects, the
-- leases that fence off replaced workers, the gates of promotion and activation, and the store of human
-- approvals. `PlanOrchestrator.execute` runs a plan of tasks with dependencies through the runtime, batch
-- by batch, and writes the plan into the execution's checkpoint; `resume` restores it.
-- Three parts stand beside the kernel: the gateway, which ingests an observation of an outside source at
-- most once and keeps its evidence together with the event that announces it; the rollout of a version, which a canary and an authorization decide
-- and a hash-linked ledger records, and the autonomous loop, which runs a workflow on an event as far as
-- its policy, a human's approval and its limits allow.
--
-- Files and code:
--   Prelude            lists, dictionaries in insertion order, Python values, texts, and the monad
--                      of methods that mutate a state and may raise (Prelude/Exec). What was written
--                      before a raise stays written.
--   Kernel/Types, Errors, State, Contracts    ois/kernel/types.py, state.py, contracts.py: the
--                      enumerations, exceptions, execution context with set_status, and contracts.
--   Kernel/World       the objects that one execution shares: context, evidence.py (EvidenceLedger),
--                      checkpoint.py (InMemoryCheckpointStore), idempotency.py
--                      (InMemoryIdempotencyStore) and cancellation.py. The request of a capability holds
--                      the context itself in the source: here a capability is an action on the whole
--                      world, so that it may mutate all of these.
--   Kernel/Invocation, Kernel/Runtime    ois/kernel/runtime.py: `execute` cut into its phases (launch,
--                      attempt, settle = absorb_failure, observe, conclude), `complete`, and the private
--                      methods. Each guard and early return stands where the source has it.
--   Kernel/Recovery    ois/kernel/recovery.py: RecoveryPolicy and RecoveryBackoff.
--   Kernel/Policy      ois/kernel/policy.py: DefaultPolicyEngine.
--   Kernel/Validation  ois/kernel/validation.py: ContractValidator.
--   Kernel/Planning    ois/kernel/planning.py and planner.py: ExecutionPlan and PlanBuilder. A plan's
--                      tasks are a dictionary; the children Records and Records/Roundtrip hold to_dict and
--                      from_dict.
--   Kernel/Orchestrator    ois/kernel/orchestrator.py: PlanOrchestrator, over Kernel/Runtime. Its children
--                      are on the tasks that a run changes (Within, Kept), the answers that ask for a retry
--                      (Retries) and the end of the loops (Batches).
--   Kernel/Durable     ois/kernel/idempotency.py: SQLiteIdempotencyStore, over a table.
--   Kernel/Supervision ois/kernel/supervisor.py: Supervisor.decide and Supervisor.inspect.
--   Kernel/SideEffects ois/kernel/side_effects.py: TransactionalSideEffectBoundary. Each method is one
--                      transaction on the table.
--   Infrastructure/Fencing    ois/infrastructure/postgres_fencing.py: PostgresWorkerLeaseStore, with
--                      the database's clock and the worker's clock apart.
--   Infrastructure/Sources    ois/infrastructure/source_gateway: SourceGateway.ingest (gateway.py), cut into
--                      Admission, Keeping and Gateway, over ledger.py, evidence.py and outbox.py (Ledger),
--                      idempotency.py, limits.py and rate_limits.py (Limits), credentials.py and manager.py
--                      (Credentials). The evidence writer and the outbox are one SQLite ledger or a
--                      table each; each rate limiter stands under one key.
--   Registries         ois/registries/core.py: Registry, and in the children CapabilityRegistry,
--                      AgentRegistry with its routing, and ToolRegistry.
--   Governance         ois/governance/promotion.py and activation.py; in Stores and Engine, models.py,
--                      stores.py (InMemoryGovernanceStore) and engine.py (GovernanceEngine.authorize).
--   Autonomy/Approvals ois/autonomy/approvals.py: InMemoryApprovalStore and ApprovalGate.
--   Autonomy/Policy, Workflows, Recovery, Loops    ois/autonomy/policy.py, workflows.py, recovery.py and
--                      loops.py: AutonomousLoop.run, over the approval gate; what it executes is any action
--                      on the loop's state.
--   Production/Access, Evidence, Deployment    production/control_plane.py: RBACABAC, EvidenceLedger and
--                      ProductionControlPlane over InMemoryDeploymentAdapter.
--   Production/Evolution, Rollout    production/evolution.py and production/rollout.py: CanaryController,
--                      LearningLoop and RolloutController. The controller and the control plane take
--                      their evidence ledger as separate arguments: here it is one ledger, shared.
--   Production/Workers production/workers.py: LeaseQueue and Worker.
--   Examples           the properties at concrete inputs.
-- The other files hold theorems, named for what they are about.
--
-- Parameters. What a capability does, the policy, validator and fencing check that a runtime was
-- constructed with, the availability test of the routing, the arithmetic of floats in governance, in
-- canaries and in rate limits, the digest of an action's inputs, `repr`, SHA-256 and `uuid5`, `str` of a
-- value that is no text, the json library, and the resolver of credentials and the pipeline of a source
-- gateway are arguments. Clock readings and the supply of UUIDs are part of the state, or arguments of the
-- operation that takes them.
--
-- Bounds. Most loops of the source run over lists and over the nesting of a schema. Three take fuel, with
-- `none` when it runs out: the depth-first search of `validate` has the number of tasks and one as its
-- fuel, more than the length of a path without a cycle; the rounds of `execute_plan` have the same, since
-- each marks a PENDING task; and the calls of one task have a fuel that the caller gives, of which one
-- more than the limit on retries is enough. The decimal form of a number takes the number itself as fuel,
-- of which each round needs one unit for a division by ten. Numbers are unbounded as in Python; a backoff
-- counts multiples of the smallest double, and the conversion of 2 ** k to a float fails from k = 1024 on,
-- as in the source. The lease and the limit on attempts of a lease queue are natural numbers.
--
-- Not modelled: the authenticators, cursors, sockets and PostgreSQL stores of the source gateway, the
-- checkpoint stores on SQLite and JSON files, the PostgreSQL stores, serialisation of
-- the context, the supervisor's delegation, and the parts of the repository outside the kernel that are
-- I/O, data or applications of it (domains, integrations, control plane, design
-- intelligence, the durable engine of ois/autonomy, and the other modules of production).
pub mod Prelude
pub mod Kernel
pub mod Registries
pub mod Infrastructure
pub mod Governance
pub mod Autonomy
pub mod Production
pub mod Examples
