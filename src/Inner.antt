-- ===== src/Inner.antt =====
-- agent-core/safety/inner: the gate in front of every action.
pub mod Schemas
pub mod Pattern
pub mod ToolAuthorization
pub mod ParameterValidation
pub mod LiveState
pub mod Audit
pub mod Node
pub mod Grants
