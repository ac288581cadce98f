-- ===== src/Wallet.antt =====
-- The coordinator's wallet (wallet/): inputs of the traders, the escrow transaction, the payout
-- transaction and the validation of bonds.
pub mod Inputs
pub mod Escrow
pub mod Payout
pub mod Bonds
pub mod Balance
pub mod Accepted
pub mod Standing
pub mod Completeness
pub mod Offences
