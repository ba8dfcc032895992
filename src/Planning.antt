-- ===== src/Planning.antt =====
-- agent-core/agents/planning_agent.py, agent-core/schemas/plan.py and the query steps of
-- agent-core/agents/query_agent.py: typed plans and their execution.
pub mod Plan
pub mod Outputs
pub mod Sources
pub mod Params
pub mod Syllabus
pub mod Query
pub mod Steps
pub mod Node
pub mod Run
pub mod Agent
