-- ===== src/Composite.antt =====
-- src/shyam/composite.
pub mod Models
pub mod Bindings
pub mod Engine
pub mod Declared
pub mod Bound
mod Tests
