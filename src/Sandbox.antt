-- ===== src/Sandbox.antt =====
-- packages/core/src/core/sandbox/docker-sandbox.ts. `dockerRun`, which runs the docker client, is the
-- parameter `Docker`.
pub mod Container
pub mod Running
pub mod Files
mod Tests
