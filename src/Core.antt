-- ===== src/Core.antt =====
-- src/core: transactions, blocks, the chain and the contract engine.
pub mod Transaction
pub mod Block
pub mod Blockchain
pub mod SmartContractEngine
