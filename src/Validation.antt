-- ===== src/Validation.antt =====
-- src/validation: validators and the consensus manager.
pub mod Validator
pub mod Consensus
