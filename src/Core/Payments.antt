-- ===== src/Core/Payments.antt =====
-- What is proved of the scheduled payments.
pub mod Pending
pub mod Fresh
pub mod Queue
pub mod Draining
pub mod Settling
pub mod Paying
pub mod Cancel
