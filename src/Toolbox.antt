-- ===== src/Toolbox.antt =====
-- The agents' tools: packages/core/src/core/services/tool.
pub mod Results
pub mod Handlers
pub mod Service
pub mod Parity
pub mod Observed
mod Tests
