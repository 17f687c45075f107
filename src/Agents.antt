-- ===== src/Agents.antt =====
-- packages/core/src/repositories/agent and packages/core/src/core/services/agent.ts.
pub mod Repository
pub mod Roles
pub mod Service
pub mod Ladder
pub mod Orderly
pub mod Seed
pub mod Loop
pub mod Turns
pub mod Policy
pub mod Depth
pub mod Hiring
mod Tests
mod LoopTests
