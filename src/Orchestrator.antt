-- ===== src/Orchestrator.antt =====
-- The orchestrators of lib/, and the agents as they see them.
pub mod Worker
pub mod Sequential
pub mod Hierarchical
pub mod Thinking
pub mod Registry
mod Tests
