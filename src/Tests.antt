-- ===== src/Tests.antt =====
-- Runs of the modelled code on concrete data, and the theorems at them.
pub mod Flags
pub mod Purchases
pub mod Points
pub mod Decisions
pub mod Locking
pub mod Money
pub mod Settlements
pub mod Users
pub mod Lower
pub mod Emails
pub mod Finance
pub mod Repeats
