-- ===== src/Memory.antt =====
-- packages/core/src/repositories/memory and packages/core/src/core/services/memory.ts.
pub mod Repository
pub mod Transcript
pub mod Recall
pub mod Service
pub mod Frame
pub mod Closing
pub mod Appending
pub mod Context
mod Tests
