-- ===== src/Prompts.antt =====
-- packages/core/src/core/services/prompt.ts.
pub mod Repository
pub mod Cache
pub mod Service
pub mod Roster
mod Tests
