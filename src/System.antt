-- ===== src/System.antt =====
-- The whole organization, as packages/core/src/index.ts puts its components together.
mod Frame
mod Roster
pub mod Steps
pub mod Order
mod Tests
