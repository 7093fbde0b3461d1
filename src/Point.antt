-- ===== src/Point.antt =====
-- The point module, src/modules/point: the data, the decisions, the tables and the use-cases.
pub mod Data
pub mod Ids
pub mod States
pub mod Spend
pub mod Balance
pub mod Tables
pub mod Client
pub mod Repo
pub mod Expiry
pub mod Service
pub mod Sound
