-- ===== src/Examples.antt =====
-- Each property at a concrete input.
mod Executions
mod Plans
mod Delivery
mod Stores
mod Queues
mod Authority
mod Gates
mod Rollouts
mod Loops
mod Ingestion
