-- ===== src/Oracle.antt =====
-- packages/oracle: an independent evaluation of the same inputs, for tests of parity.
pub mod Policy
pub mod Facts
pub mod Comparisons
pub mod Actions
pub mod Evaluate
pub mod Parity
mod Tests
