-- ===== src/Agent.antt =====
-- The agent's control loop: internal/agent.
pub mod Machine
pub mod Commands
pub mod Answers
pub mod Applies
pub mod Session
