-- ===== src/Persistence.antt =====
-- packages/persistence: the inbox of source observations and the adapter that fills it.
pub mod Identity
pub mod Inbox
pub mod Adapter
pub mod Assembler
pub mod Tests
