-- ===== src/Trust.antt =====
-- src/shyam/trust: local trust records, their persistence and the service over them.
pub mod Models
pub mod Store
pub mod Json
pub mod Service
pub mod Persistence
pub mod Restart
pub mod Decisions
mod Tests
