-- ===== src/Bus.antt =====
-- packages/core/src/core/event-bus: mailboxes, the durable store, and the bus.
pub mod Mailbox
pub mod Fifo
pub mod Store
pub mod Core
pub mod Pending
pub mod Deliver
pub mod Durable
pub mod Publish
pub mod Take
pub mod Recovery
pub mod Startup
pub mod History
pub mod Lives
pub mod Frame
mod Tests
