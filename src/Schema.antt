-- ===== src/Schema.antt =====
-- The domain types of packages/core/src/core/schema and the tables of packages/core/src/db/schema.ts.
pub mod Org
pub mod Task
pub mod Event
pub mod Json
pub mod Memory
pub mod Print
pub mod Reasons
