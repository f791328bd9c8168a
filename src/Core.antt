-- ===== src/Core.antt =====
-- The in-memory bank, banking_core_impl.hpp and banking_core_impl.cpp: its state, the processing of
-- due payments, the operations, and in the other modules what is proved of them.
pub mod State
pub mod Due
pub mod Operations
pub mod History
pub mod Forest
pub mod Merges
pub mod Totals
pub mod Conservation
pub mod Payments
pub mod Solvency
pub mod Queries
pub mod Spenders
pub mod Instance
mod Tests
pub mod Keeps
pub mod Runs
