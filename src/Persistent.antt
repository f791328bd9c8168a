-- ===== src/Persistent.antt =====
-- The bank with a database behind it, banking_system_persistent.cpp.
pub mod Store
pub mod Saving
pub mod Operations
pub mod Memory
pub mod Startup
mod Tests
