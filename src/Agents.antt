-- ===== src/Agents.antt =====
-- aor/agents/: the specialized agents.
pub mod Base
pub mod Plan
pub mod FileAgent
mod Tests
