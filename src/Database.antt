-- ===== src/Database.antt =====
-- The database layer of the coordinator (database/mod.rs). `Tables` has the schema; `Requests`,
-- `Orderbook`, `Taken`, `Trade` and `Payout` the methods of `CoordinatorDB`, by the table and the
-- stage of a trade that they serve; the other children prove what the methods do.
pub mod Tables
pub mod Requests
pub mod Orderbook
pub mod Taken
pub mod Trade
pub mod Payout
pub mod Pending
pub mod Suitable
pub mod Moves
pub mod Once
pub mod Confirmed
pub mod Processing
pub mod Amounts
pub mod Invariant
pub mod Steps
pub mod Writes
pub mod Bounds
pub mod Bounded
