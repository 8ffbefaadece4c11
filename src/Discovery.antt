-- ===== src/Discovery.antt =====
-- src/shyam/discovery: the discovered ecosystem.
pub mod Models
pub mod Registry
pub mod Sources
pub mod Service
pub mod Peers
pub mod History
pub mod Memory
pub mod Occurrences
pub mod Tests
