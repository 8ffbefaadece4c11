-- ===== src/Core.antt =====
-- src/shyam/core: readiness and the lifecycle of the runtime.
pub mod Models
pub mod Readiness
pub mod Evaluation
pub mod Meaning
pub mod Polls
mod Tests
pub mod Lifecycle
