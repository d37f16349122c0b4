-- ===== src/Tests/Chains.antt =====
-- src/core/blockchain.cpp at small inputs.
use blockchain_messaging.Base.{
  ℕ, ◌≡◌, refl, ◌⊎◌, inr, List, [], ◌∷◌, length, Str, bytes, decimal, ok, undefined, arith,
}
use blockchain_messaging.Base.Integers.{pos, negsuc, ◌+ℤ◌, ◌-ℤ◌, ◌≤ℤ◌}
use blockchain_messaging.Base.Maps.{Map, lookup, insert, get_or}
use blockchain_messaging.Core.Transaction.{Transaction}
use blockchain_messaging.Core.Block.{Block, new_block, is_valid, calculate_hash, block_text}
use blockchain_messaging.Core.Blockchain.{
  Chain, new_blockchain, move_balance, process_transaction, process_all, get_latest_block,
  has_financial_tx, pool, collect_votes, is_enough, reach_consensus, transaction_ok, validate_block,
  add_block,
}
use blockchain_messaging.Core.Blockchain.Links.{IsChain, offer_all, offer_all-IsChain}
use blockchain_messaging.Core.Blockchain.Balances.{balance, total, process_all-total}
use blockchain_messaging.Core.Blockchain.Tampering.{AllSame, AnyCollides, Linked-AllSame}
use blockchain_messaging.Core.Blockchain.Links.{Linked}
use blockchain_messaging.Core.Blockchain.Overdraft.{funds, add_block-overdraft}
use blockchain_messaging.Validation.Validator.{
  Validator, ValidatorType, validate_block as approves, validate_transaction, validate_type,
}
use blockchain_messaging.Crypto.Hash.{hash, to_hex, hex_byte, hex_digit}
use blockchain_messaging.Tests.World.{Number, whole, value, world, sample}

unfoldable pub program : Unit {0}
unfolding ◌+ℤ◌ ◌-ℤ◌ lookup insert get_or move_balance process_transaction get_latest_block
    has_financial_tx pool collect_votes is_enough reach_consensus transaction_ok validate_block
    add_block is_valid approves validate_transaction validate_type new_blockchain new_block
    calculate_hash block_text hash to_hex hex_byte hex_digit decimal
program = tt

abbrev pub get_balance : Chain world → Str → Number
get_balance c a = balance world c.account_balances a

abbrev checker : Validator Number
checker = record {
  address = bytes "v";
  type = ValidatorType.financial;
  staking_amount = whole (pos 0);
  reputation = 100;
  validated_blocks = [];
  specs = record { cpu_power = 8000; memory = 16384; bandwidth = 100 };
}

abbrev messenger : Validator Number
messenger = record checker { type = ValidatorType.message }

abbrev pub pay : Str → ℕ → Transaction Number
pay to amount = sample (bytes "f") (bytes "alice") to amount

abbrev pub genesis : Block Number
genesis = new_block world 10 0 [] (bytes "0")

-- Alice owns 10.
abbrev pub chain : Chain world
chain = record {
  chain = genesis ∷ [];
  pending_transactions = [];
  account_balances = (bytes "alice", whole (pos 10)) ∷ [];
  difficulty = 4;
  mining_reward = whole (pos 100);
  message_validators = [];
  financial_validators = checker ∷ [];
  consensus_threshold = 75;
}

abbrev pub spends : List (Transaction Number)
spends = pay (bytes "bob") 8 ∷ pay (bytes "eve") 7 ∷ []

abbrev pub double_spend : Block Number
double_spend = new_block world 11 1 spends genesis.hash

abbrev after_spends : Map Number
after_spends =
    (bytes "alice", whole (negsuc 4))
    ∷ (bytes "bob", whole (pos 8))
    ∷ (bytes "eve", whole (pos 7))
    ∷ []

double_spend_run :
    add_block world get_balance chain double_spend
    ≡ ok (record chain { chain = genesis ∷ double_spend ∷ []; account_balances = after_spends })
unfolding program
double_spend_run = refl

new_chain_length : length (new_blockchain world 10).chain ≡ 1
unfolding program
new_chain_length = refl

pub chain-IsChain : IsChain world get_balance chain
unfolding program
chain-IsChain = record { last = genesis; has_last = refl; links = refl }

offer_all-IsChain_example :
    IsChain world get_balance (offer_all world get_balance chain (double_spend ∷ double_spend ∷ []))
offer_all-IsChain_example =
    offer_all-IsChain world get_balance chain (double_spend ∷ double_spend ∷ []) chain-IsChain

-- A block without a financial transaction.
abbrev plain_block : Block Number
plain_block = new_block world 11 1 (sample [] (bytes "alice") (bytes "bob") 1 ∷ []) genesis.hash

plain_block_run : add_block world get_balance chain plain_block ≡ undefined
unfolding program
plain_block_run = refl

abbrev misfiled : Chain world
misfiled = record chain { financial_validators = messenger ∷ [] }

process_all-total_example :
    total world value (process_all world chain spends).account_balances
    ≡ total world value chain.account_balances
unfolding program
process_all-total_example = process_all-total world value chain spends refl (
  inr (record { charge = refl; credit = refl }),
  (inr (record { charge = refl; credit = refl }), tt),
)

add_block-overdraft_example :
    (c : Chain world) × (add_block world get_balance chain double_spend ≡ ok c)
    × ¬ (pos 0 ≤ℤ value (funds world c (bytes "alice")))
unfolding program
add_block-overdraft_example =
    add_block-overdraft world get_balance value chain double_spend genesis (bytes "alice")
      (pay (bytes "bob") 8) (pay (bytes "eve") 7) (λ c a. refl) refl refl refl refl refl
      (record { valid = refl; money = refl; from = refl; to_other = λ e. cc })
      (record { valid = refl; money = refl; from = refl; to_other = λ e. cc }) refl refl refl refl
      (omega arith)

-- The chain before and after the block.
abbrev two_blocks : List (Block Number)
two_blocks = genesis ∷ double_spend ∷ []

two_blocks-Linked : Linked world two_blocks
unfolding program
two_blocks-Linked = (refl, refl, refl)

Linked-AllSame_example :
    AllSame world two_blocks two_blocks ⊎ AnyCollides world two_blocks two_blocks
Linked-AllSame_example =
    Linked-AllSame world two_blocks two_blocks double_spend double_spend two_blocks-Linked
      two_blocks-Linked
      (
        record { index = refl; timestamp = refl; previous = refl; hash_lengths = refl },
        (record { index = refl; timestamp = refl; previous = refl; hash_lengths = refl }, tt),
      )
      refl refl refl
