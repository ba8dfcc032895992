-- ===== src/Preprocessing.antt =====
-- agent-core/preprocessing: pronouns of a follow-up question, resolved in front of the execution.
pub mod Schemas
pub mod CorefGate
pub mod CorefResolver
