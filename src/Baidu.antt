-- ===== src/Baidu.antt =====
-- `websearch/internal/provider/baidu` (`provider.go`, `strategy.go`) and `detector/baidu.go`.
pub mod Detector
pub mod Types
pub mod Failures
pub mod Attempts
pub mod Judging
pub mod Search
pub mod Outcomes
pub mod Turns
pub mod Explained
pub mod Building
