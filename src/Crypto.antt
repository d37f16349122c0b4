-- ===== src/Crypto.antt =====
-- src/crypto: hash functions and the Merkle root of hash.cpp, and the keys and ciphers of encryption.cpp.
pub mod Hash
pub mod Merkle
pub mod Encryption
