-- ===== src/Orchestration.antt =====
-- src/genesis/orchestration: what a run may hand on to a child run.
pub mod Delegation
