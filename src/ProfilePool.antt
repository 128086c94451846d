-- ===== src/ProfilePool.antt =====
-- `websearch/internal/profilepool`: the leases of one provider's profiles.
pub mod Floats
pub mod Types
pub mod Manifests
pub mod Hash
pub mod Select
pub mod Acquire
pub mod Control
pub mod Build
pub mod Release
pub mod Validity
pub mod LoadOrder
pub mod Selection
pub mod Grants
pub mod Histories
pub mod Preserve
pub mod Upkeep
pub mod StepValid
pub mod Founding
pub mod Balance
pub mod BalanceUpkeep
pub mod BalanceStep
pub mod Ledger
pub mod Lifecycle
pub mod Fairness
pub mod Snapshots
pub mod Trust
