-- ===== src/Audit.antt =====
-- The auditor: packages/core/src/core/services/audit.ts.
pub mod Report
pub mod Service
pub mod Ids
pub mod Polling
pub mod Verdicts
mod Tests
