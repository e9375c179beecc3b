-- ===== src/Autonomy.antt =====
-- Components of ois/autonomy.
pub mod Approvals
pub mod Policy
pub mod Workflows
pub mod Recovery
pub mod Loops
