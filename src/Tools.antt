-- ===== src/Tools.antt =====
-- packages/core/src/core/services/tool: the tools that work on files
-- and run commands in the sandbox.
pub mod Pieces
pub mod Edit
pub mod Splice
pub mod Commands
pub mod Separators
mod Tests
