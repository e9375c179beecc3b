-- ===== src/Production.antt =====
-- Components of production.
pub mod Access
pub mod Evidence
pub mod Evolution
pub mod Deployment
pub mod Rollout
pub mod Workers
