-- ===== src/Product/Soundness.antt =====
-- The invariant of the jobs, the credits and the provider calls, kept by every transaction.
pub mod Invariant
pub mod Rows
pub mod Statements
pub mod Ledger
pub mod Calls
pub mod Settled
pub mod Settlement
pub mod JobsFrame
pub mod Operations
pub mod Dispatched
pub mod Recovered
pub mod Conserved
pub mod Reach
