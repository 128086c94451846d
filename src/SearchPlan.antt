-- ===== src/SearchPlan.antt =====
-- `websearch/internal/searchplan`: provider-neutral search options, their compilation for one
-- provider, and the guarantees on the results.
pub mod Normalize
pub mod Compiler
pub mod Canonical
pub mod Finalize
pub mod Guarantees
pub mod Coverage
pub mod Values
pub mod Compatibility
