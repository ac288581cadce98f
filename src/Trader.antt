-- ===== src/Trader.antt =====
-- The trader's program (taptrade-cli-demo/trader/src): what it asks the coordinator, and in which
-- order, what it selects from its wallet, and how it treats its nonces.
pub mod Session
pub mod Settings
pub mod Nonce
pub mod Inputs
pub mod Csv
pub mod Requests
pub mod Offers
pub mod Flows
pub mod Cli
pub mod Typed
pub mod Taking
pub mod Polling
pub mod Silent
pub mod Consent
pub mod Selection
pub mod Funds
pub mod Buyers
pub mod Sharing
