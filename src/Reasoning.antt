-- ===== src/Reasoning.antt =====
-- agent-core/reasoning: what a student still needs, computed without a model.
pub mod Schemas
pub mod GapAnalysis
pub mod Solver
