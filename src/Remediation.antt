-- ===== src/Remediation.antt =====
-- packages/remediation: controlled correction of one booking field, and its endpoints in
-- apps/api/main.py.
pub mod Models
pub mod Result
pub mod Retrieval
pub mod Policy
pub mod Envelope
pub mod Tables
pub mod Exec
pub mod Store
pub mod Deterministic
pub mod Executor
pub mod Triage
pub mod Evidence
pub mod Api
pub mod System
mod Tests
