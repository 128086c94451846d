-- ===== src/Cache.antt =====
-- `websearch/internal/cache`.
pub mod Memory
pub mod Bounds
pub mod Eviction
pub mod Reads
pub mod Refinement
