-- ===== src/Continuity.antt =====
-- src/shyam/continuity: continuing a work on another node.
pub mod State
pub mod Models
pub mod Stages
pub mod Pipeline
pub mod Reaches
pub mod Progress
pub mod Ends
pub mod Service
pub mod Guard
mod Tests
