-- ===== src/Reconciliation.antt =====
-- packages/reconciliation: the versioned configuration of a run, and what the engine detects.
pub mod Breaks
pub mod Config
pub mod Context
pub mod Decimal
pub mod Duplicates
pub mod Economic
pub mod Fields
pub mod Lifecycle
pub mod Linkage
pub mod PostAction
pub mod Run
pub mod Sources
pub mod Tests
