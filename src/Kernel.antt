-- ===== src/Kernel.antt =====
-- The kernel: ois/kernel.
pub mod Types
pub mod Errors
pub mod State
pub mod Contracts
pub mod Recovery
pub mod Policy
pub mod World
pub mod Invocation
pub mod Runtime
pub mod SideEffects
pub mod Validation
pub mod Supervision
pub mod Planning
pub mod Orchestrator
pub mod Durable
