-- ===== src/System.antt =====
-- The whole coordinator: the requests that its HTTP server serves and the rounds of its background
-- tasks, in any order (main.rs starts them side by side on one database).
pub mod Events
pub mod Stable
pub mod Guards
pub mod Offers
pub mod Trades
pub mod Rounds
pub mod Verdicts
pub mod Punishments
pub mod Runs
pub mod Sizes
pub mod Refinement
pub mod SellOffers
