-- ===== src/Coordinator.antt =====
-- The coordinator (coordinator/mod.rs and its children): the state that its tasks share, the
-- request handlers and the background tasks.
pub mod State
pub mod Offers
pub mod Trades
pub mod Gates
pub mod Disputes
pub mod Broadcasts
pub mod Orders
pub mod Payouts
pub mod Progress
pub mod Signed
pub mod Bonds
