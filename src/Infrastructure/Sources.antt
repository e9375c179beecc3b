-- ===== src/Infrastructure/Sources.antt =====
-- ois/infrastructure/source_gateway: the boundary through which observations of outside sources are
-- ingested.
pub mod Ledger
pub mod Idempotency
pub mod Limits
pub mod Credentials
pub mod Requests
pub mod Admission
pub mod Keeping
pub mod Gateway
