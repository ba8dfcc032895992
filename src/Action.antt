-- ===== src/Action.antt =====
-- agent-core/agents/action_agent.py: the write operations behind the inner safety gate.
pub mod Tools
pub mod Step
pub mod Subgraph
pub mod Agent
