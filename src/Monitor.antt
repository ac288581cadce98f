-- ===== src/Monitor.antt =====
-- The coordinator's background tasks: the bonds of the orderbook, the confirmations of the escrow
-- transactions, the operator's verdicts in disputes, and the mempool's spent outputs. Each loop is
-- modelled by one round; the pauses between rounds are left out.
pub mod Bonds
pub mod Confirmations
pub mod EscrowCli
pub mod Verdicts
pub mod Mempool
pub mod Soundness
pub mod Known
pub mod Exact
pub mod Punishment
pub mod Offenders
