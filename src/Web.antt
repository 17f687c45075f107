-- ===== src/Web.antt =====
-- The state of the web client: apps/web/lib/use-xevos-stream.ts.
pub mod Keys
pub mod Stream
pub mod Views
mod Tests
