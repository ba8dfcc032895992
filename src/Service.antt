-- ===== src/Service.antt =====
-- The caches and limits of agent-core and api-gateway.
pub mod Cache
pub mod RateLimit
