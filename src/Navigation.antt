-- ===== src/Navigation.antt =====
-- src/shyam/navigation: from a capability and a snapshot of the ecosystem to an execution target.
pub mod Models
pub mod Candidates
pub mod Policy
pub mod Navigator
pub mod Sorting
pub mod Eligible
pub mod Partition
pub mod Selection
pub mod Soundness
pub mod Freshness
pub mod Lost
pub mod Tests
pub mod Determinism
pub mod Completeness
