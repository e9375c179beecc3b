-- ===== src/Governance.antt =====
-- ois/governance: the gates that ask for evidence, and the engine that authorizes agents' actions.
pub mod Promotion
pub mod Activation
pub mod Stores
pub mod Engine
