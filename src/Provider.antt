-- ===== src/Provider.antt =====
-- `websearch/internal/provider`: the chain of providers, the planned provider and the registry.
pub mod Chain
pub mod Fallback
pub mod Building
pub mod Breaker
pub mod Planned
pub mod Registry
