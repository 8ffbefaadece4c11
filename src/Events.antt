-- ===== src/Events.antt =====
-- src/shyam/events.
pub mod Bus
pub mod Calls
pub mod Lists
pub mod Delivery
mod Tests
