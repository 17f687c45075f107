-- ===== src/Observer.antt =====
-- What the principal's UI is shown: packages/core/src/observer.
pub mod Page
pub mod Queries
pub mod Server
pub mod Paging
pub mod History
pub mod Live
mod Tests
