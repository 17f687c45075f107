-- ===== src/Tasks.antt =====
-- Tasks: the repository of repositories/task.repository.ts and the service of core/services/task.ts.
pub mod Repository
pub mod Service
pub mod Transitions
pub mod Creation
pub mod Lifecycle
mod Tests
