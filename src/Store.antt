-- ===== src/Store.antt =====
-- internal/store: the queries of the program over the tables of migrations/*.up.sql.
pub mod Opening
pub mod Schema
pub mod Driver
pub mod Users
pub mod Teams
pub mod Tasks
pub mod Comments
pub mod Stats
pub mod Steady
