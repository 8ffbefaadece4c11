-- ===== src/Sync.antt =====
-- src/shyam/sync: version vectors, authenticated envelopes and the merge of peers' facts.
pub mod Versions
pub mod Causality
pub mod Models
pub mod Authenticator
pub mod Service
pub mod Ingest
pub mod Gate
pub mod Progress
pub mod Convergence
pub mod Divergence
mod Tests
