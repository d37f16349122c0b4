-- ===== src/Core/Block.antt =====
-- src/core/block.hpp and block.cpp: class Block. The nonce is a uint32_t and wraps.
pub mod Mining
pub mod Contents
pub mod Headers
use blockchain_messaging.Base.{
  ℕ, zero, suc, ◌+◌, ◌%◌, List, ◌∷◌, [], ◌++◌, Bool, true, false, not, Option, none, some, Str,
  decimal, str_eq, take, replicate, all, if◌then◌else◌,
}
use blockchain_messaging.Crypto.Hash.{hash}
use blockchain_messaging.Core.Transaction.{Transaction, Externals, Double, Tx, write_all}

pub record Block (D : Type 0) : Type 0 where
  pub index : ℕ
  pub timestamp : ℕ
  pub previous_hash : Str
  pub hash : Str
  pub transactions : List (Transaction D)
  pub nonce : ℕ

abbrev pub uint32_mod : ℕ
uint32_mod = 4_294_967_296

module _ (x : Externals) where
  abbrev pub Blk : Type 0
  Blk = Block (Double x)

  -- The text that `calculateHash` writes: of each transaction the stored hash.
  unfoldable pub block_text : Blk → Str
  block_text b =
      decimal b.index
      ++ (decimal b.timestamp
          ++ (b.previous_hash
              ++ (write_all (λ (t : Tx x). t.hash) b.transactions ++ decimal b.nonce)))

  unfoldable pub calculate_hash : Blk → Str
  calculate_hash b = hash x.ssl (block_text b)

  unfoldable pub new_block : ℕ → ℕ → List (Tx x) → Str → Blk
  new_block now index transactions previous_hash = record b { hash = calculate_hash b }
    where
      b : Blk
      b = record {
        index = index;
        timestamp = now;
        previous_hash = previous_hash;
        hash = [];
        transactions = transactions;
        nonce = 0;
      }

  -- `nonce++; hash = calculateHash();`
  unfoldable pub next_nonce : Blk → Blk
  next_nonce b = record b' { hash = calculate_hash b' }
    where
      b' : Blk
      b' = record b { nonce = (b.nonce + 1) % uint32_mod }

  -- `hash.substr(0, difficulty) == target`.
  unfoldable pub meets : ℕ → Str → Bool
  meets difficulty h = str_eq (take difficulty h) (replicate difficulty 48)

  -- The loop of `mineBlock` on fuel; `none` where the fuel runs out.
  unfoldable pub mine_block : ℕ → ℕ → Blk → Option Blk
  mine_block zero difficulty b = none
  mine_block (suc fuel) difficulty b = elim (meets difficulty b.hash) [
    | true ↦ some b
    | false ↦ mine_block fuel difficulty (next_nonce b)
  ]

  unfoldable pub is_valid : Blk → Bool
  is_valid b =
      if not (str_eq (calculate_hash b) b.hash) then false else all x.is_valid b.transactions
