-- ===== src/Examples.antt =====
-- Concrete inputs: the theorems at inputs that meet their hypotheses, and tests.
pub mod Pool
pub mod Profiles
pub mod Requests
pub mod Search
pub mod Answers
pub mod Caching
pub mod Service
pub mod Routes
pub mod Cursors
pub mod Fetching
pub mod Flow
pub mod Strategies
