-- ===== src/Routing.antt =====
-- `websearch/internal/routing`: the choice among the pools of several providers.
pub mod Router
pub mod Priority
pub mod World
pub mod Waiting
pub mod Rounds
pub mod Search
pub mod Providers
pub mod Fresh
pub mod Leasing
pub mod Termination
pub mod Budget
pub mod Endings
pub mod RoundEnds
pub mod Building
