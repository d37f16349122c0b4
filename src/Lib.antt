-- ===== src/Lib.antt =====
-- Verification of the blockchain messaging node.
--
-- The program is a chain of blocks of transactions that carry payments or encrypted messages. A
-- transaction is hashed, signed and given a message (src/core/transaction.cpp) with the digests
-- and ciphers of src/crypto. Blocks hold transactions, are mined (src/core/block.cpp), and are
-- added to the chain (src/core/blockchain.cpp) if the chain's check passes and three quarters of
-- a pool of validators (src/validation/validator.cpp) approve. A contract engine
-- (src/core/smart_contract_engine.cpp) deploys and calls contracts, a consensus manager
-- (src/validation/consensus.cpp) runs rounds of votes, and a memory pool
-- (src/utils/memory_pool.cpp) orders waiting transactions; caches (src/utils/cache_manager.hpp)
-- keep recent blocks and transactions. A wallet (src/wallet/wallet.cpp) makes
-- and receives transactions, and a logger (src/utils/logger.cpp) queues lines for a thread that
-- writes them, among them what the error handler (src/utils/error_handler.hpp) reports. A node
-- (src/network/node.cpp) owns a chain, a wallet and a network of peers
-- (src/network/p2p_network.cpp); it takes transactions and blocks, adds the blocks to its chain,
-- and passes both on. The protocol (src/network/protocol.cpp) makes, writes, reads and verifies
-- messages; what would carry them between two networks is not in the repository.
--
-- Which file models what:
--   Base                  byte strings, C++ exceptions, doubles, maps, whole numbers, lists
--   Crypto.Hash           SHA256::hash, doubleHash, hashWithSalt, HashUtils::hash160
--   Crypto.Merkle         HashUtils::calculateMerkleRoot
--   Crypto.Encryption     Encryption::generatePrivateKey, generatePublicKey, encrypt
--   Core.Transaction      class Transaction, its inputs and outputs
--   Core.Block            class Block
--   Core.Blockchain       class Blockchain
--   Core.Blockchain.Races Blockchain::addBlock, as steps of the threads that call it
--   Core.SmartContractEngine   class SmartContractEngine with its virtual machine
--   Validation.Validator  class Validator
--   Validation.Consensus  class ConsensusManager
--   Utils.MemoryPool      class MemoryPool
--   Utils.CacheManager    class LRUCache, and below it class BlockCache
--   Utils.Logger          class Logger, as steps of its callers and its thread
--   Utils.Logger.Singleton     Logger::getInstance, as steps of the threads that call it
--   Utils.ErrorHandler    class BlockchainException and class ErrorHandler
--   Utils.PerformanceMonitor   the timer of class PerformanceMonitor
--   Wallet                class Wallet with its message box and history
--   Network.Protocol      struct ProtocolMessage and class NetworkProtocol
--   Network.P2pNetwork    class P2PNetwork
--   Network.Node          class Node, on the chain, the wallet and the network
--   Tests                 the definitions and the theorems at concrete inputs
-- The modules below each of these are named for what they prove.
--
-- How the code is read. A class is a record, a method a function from the record (and the clock
-- or random bytes, where the method reads them) to its result and the new record. An exception is
-- `throws`, undefined behaviour `undefined`, an ordinary return `ok`. A string is the list of its
-- bytes. A uint32_t that is counted up wraps at 2^32 (nonce, reputation, vote counts, round
-- number). An unordered_map is an association list in which an insertion replaces the entry of the
-- key. A `double` is an interface of operations without laws; a theorem that needs arithmetic
-- takes the IEEE facts that it uses (`IsIeee`, or exactness of the sums at hand) as a hypothesis.
-- Times are native numbers: the clock is taken to be at or after the epoch.
--
-- Parameters. OpenSSL's digests, cipher and curve (`OpenSsl`, `Libcrypto`), std::sort (`IsSort`),
-- and the methods that the repository declares or calls and nowhere defines: Transaction::isValid
-- and the accessors of type, sender, recipient and amount, the hash and the check of an input, the
-- hash of an output, Encryption::decrypt, sign and verify, Blockchain::getBalance, the start and
-- the stop of the logging (`AsyncLogging`), SmartContractEngine::isContractActive,
-- validateMethodCall and parseOpcodes, and the methods that a wallet calls on a transaction and for the import of a key (`WalletExternals`), what a network
-- calls on peers, messages and itself (`NetworkExternals`), and what a node calls (`NodeExternals`);
-- the laws that a theorem takes of these say what their names promise. JsonCpp is a parameter
-- with its documented round trip (`IsJsonCpp`). The values of the enumeration TransactionType, which
-- no file declares, are those that the sources name.
--
-- Fuel. `mine_block` runs on fuel and gives `none` where it runs out; the results on mining say
-- when fuel is enough. `handle_incoming_messages` runs on fuel in the same way, and needs one more
-- than the messages that wait, as long as handling one adds none. `merkle_rounds` gets the number
-- of entries as fuel: each round of more than one entry leaves fewer.
--
-- Two readings. Block::getTransactions returns a copy, and reachConsensus takes the begin of one
-- copy and the end of another. A search that finds a financial transaction reads the first copy only,
-- and the model returns what it finds; one that finds none runs past the end of that copy, and the
-- model is `undefined` there. The futures of collectValidatorVotes run const methods and are all waited
-- for, so the model asks the validators in order.
--
-- Threads. Of the logger each step is what one thread does while it holds the mutex of the queue,
-- or between two such parts, or a start or a stop of the logging, and a run is any sequence of
-- steps. Of getInstance each step is one
-- access to the shared pointer or the mutex, and a schedule is any sequence of threads; the steps
-- are sequentially consistent, so the data race of the unlocked read is outside the model. Of
-- addBlock, which takes no lock, the steps are the validation, the vote, the push_back and the
-- processing of one transaction, and a schedule is any sequence of threads (Core.Blockchain.Races);
-- each of these steps is taken whole. The methods of the other classes are functions, so each call
-- is taken whole, whether the class holds a mutex for it or not. The loops of the node and the
-- network run on a list of what the other threads do between two rounds, as long as the list is,
-- and give `none` where they would go on; a round itself is taken whole, and a sleep takes no time.
--
-- Specifications. Utils.CacheManager.Recency describes a cache as a list of entries by recency,
-- Core.SmartContractEngine.Specification the engine as a function from addresses to values, and
-- Utils.MemoryPool.Contents the pool as a bag of entries, which is a quotient of lists.
--
-- Not modelled: methods without a body that no modelled code calls, the destructors, which only
-- stop threads, and the classes of which there is only a header without bodies (smart_contract.hpp,
-- hash_tree.hpp, key_derivation.hpp). The threads of a node and of its network are otherwise not
-- interleaved. Shared validators are values, since the modelled code calls their const methods only.
pub mod Base
pub mod Crypto
pub mod Core
pub mod Validation
pub mod Utils
pub mod Wallet
pub mod Network
mod Tests
