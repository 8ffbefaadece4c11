-- ===== src/Bootstrap.antt =====
-- src/shyam/bootstrap: the enrollment of a device with an authority, and its recovery.
pub mod Models
pub mod Authority
pub mod Client
pub mod Sessions
pub mod Admission
pub mod Takeover
pub mod Mutual
mod Tests
