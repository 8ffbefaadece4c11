-- ===== src/Context.antt =====
-- src/shyam/context: the ecosystem state that is aggregated from discovery and workflow events.
pub mod Models
pub mod Store
pub mod Service
pub mod Mirror
pub mod Runs
pub mod Targets
pub mod Activity
mod Tests
