-- ===== src/Kernel/Orchestrator/Retries.antt =====
-- The retry loop round a task's call (orchestrator.py, with runtime.py and recovery.py).
pub mod Steady
pub mod Answers
pub mod Settled
pub mod Counted
