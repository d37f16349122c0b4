-- ===== src/Tests.antt =====
-- Runs of the model on small inputs, and the theorems at inputs that meet their hypotheses.
pub mod World
mod Hashes
mod Keys
mod Logs
mod Transactions
mod Blocks
mod Chains
mod Validators
mod Contracts
mod Pools
mod Races
mod Caches
mod Wallets
mod Json
mod Messages
mod Networks
mod Nodes
mod Threads
mod Errors
