-- ===== src/Tests.antt =====
-- The theorems at concrete inputs: `Data` has a small trade, the other children apply the theorems.
mod Inputs
mod Prompts
mod Takers
pub mod Protocols
mod Data
mod Databases
mod Coordinators
mod Systems
mod Traders
mod Wallets
mod Monitors
