-- ===== src/Pool.antt =====
-- packages/core/src/core/utils.ts: the pool of rate-limited keys and the limit of calls in flight.
pub mod Keys
pub mod Spacing
pub mod Slots
mod Tests
