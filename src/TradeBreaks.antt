-- ===== src/TradeBreaks.antt =====
-- packages/contracts/models.py: the taxonomy of trade breaks, their life cycle and their validator.
pub mod Policy
pub mod Transitions
pub mod Agreement
pub mod Break
pub mod Comparisons
pub mod Detection
pub mod Proven
pub mod Resolution
pub mod Resolved
mod Tests
