-- ===== src/Outer.antt =====
-- agent-core/safety/outer: the gate in front of every request.
pub mod Schemas
pub mod Rbac
pub mod StaticRules
pub mod InjectionGuard
pub mod Node
