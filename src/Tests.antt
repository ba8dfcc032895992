-- ===== src/Tests.antt =====
-- Sample data, and the theorems at concrete inputs.
pub mod Samples
mod Inner
mod Outer
mod Action
mod Service
mod Reasoning
mod Solver
mod Orchestrator
mod Degradation
mod Planning
