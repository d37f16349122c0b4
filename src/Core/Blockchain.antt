-- ===== src/Core/Blockchain.antt =====
-- src/core/blockchain.hpp and blockchain.cpp: class Blockchain. Its map of balances is an
-- association list, its validators are values: the chain only calls their const methods.
pub mod Consensus
pub mod Links
pub mod Balances
pub mod Overdraft
pub mod Tampering
pub mod Acceptance
pub mod Races
use blockchain_messaging.Base.{
  ℕ, suc, ◌+◌, List, [], ◌∷◌, ◌++◌, Bool, true, false, not, none, some, Str, bytes, str_eq, last?,
  length, any, all, if◌then◌else◌, Result, ok, throws, undefined, ◌>>=◌, ◌>>◌, guard, runtime_error,
}
use blockchain_messaging.Base.Maps.{Map, insert, get_or}
use blockchain_messaging.Core.Transaction.{Transaction, TransactionType, Externals, Double, Tx}
use blockchain_messaging.Core.Block.{Block, Blk, new_block, is_valid}
use blockchain_messaging.Validation.Validator.{Validator, validate_block as approves}

pub record Blockchain (D : Type 0) : Type 0 where
  pub chain : List (Block D)
  pub pending_transactions : List (Transaction D)
  pub account_balances : Map D
  pub difficulty : ℕ
  pub mining_reward : D
  pub message_validators : List (Validator D)
  pub financial_validators : List (Validator D)
  pub consensus_threshold : ℕ

-- `type == TransactionType::FINANCIAL`.
abbrev pub is_financial : TransactionType → Bool
is_financial TransactionType.financial = true
is_financial _ = false

module _ (x : Externals) where
  abbrev pub Chain : Type 0
  Chain = Blockchain (Double x)

  unfoldable pub new_blockchain : ℕ → Chain
  new_blockchain now = record {
    chain = new_block x now 0 [] (bytes "0") ∷ [];
    pending_transactions = [];
    account_balances = [];
    difficulty = 4;
    mining_reward = x.floats.of_nat 100;
    message_validators = [];
    financial_validators = [];
    consensus_threshold = 75;
  }

  -- `accountBalances[sender] -= amount; accountBalances[recipient] += amount;`
  unfoldable pub move_balance : Map (Double x) → Str → Str → Double x → Map (Double x)
  move_balance m sender recipient amount =
      insert recipient (x.floats.add (get_or (x.floats.of_nat 0) recipient m') amount) m'
    where
      m' : Map (Double x)
      m' = insert sender (x.floats.sub (get_or (x.floats.of_nat 0) sender m) amount) m

  unfoldable pub process_transaction : Chain → Tx x → Chain
  process_transaction c t =
      if is_financial (x.get_type t)
      then record c {
        account_balances =
            move_balance c.account_balances (x.get_sender t) (x.get_recipient t) (x.get_amount t);
      }
      else c

  abbrev pub process_all : Chain → List (Tx x) → Chain
  process_all c [] = c
  process_all c (t ∷ ts) = process_all (process_transaction c t) ts

  -- `chain.back()`.
  unfoldable pub get_latest_block : Chain → Result (Blk x)
  get_latest_block c = elim (last? c.chain) [ none ↦ undefined | some b ↦ ok b ]

  abbrev pub get_chain_length : Chain → ℕ
  get_chain_length c = length c.chain

  -- `any_of` from the begin of one copy of the transactions to the end of another. A search that
  -- finds nothing in the first copy runs past its end.
  unfoldable pub has_financial_tx : List (Tx x) → Result Bool
  has_financial_tx [] = undefined
  has_financial_tx (t ∷ ts) =
      let rest = has_financial_tx ts in if is_financial (x.get_type t) then ok true else rest

  -- The pool that votes on a block.
  unfoldable pub pool : Chain → Blk x → Result (List (Validator (Double x)))
  pool c b = do
    has_financial ← has_financial_tx b.transactions
    ok (if has_financial then c.financial_validators else c.message_validators)

  -- The loop of `reachConsensus`: approvals and validators counted so far.
  unfoldable pub collect_votes : Blk x → ℕ → ℕ → List (Validator (Double x)) → ℕ × ℕ
  collect_votes b approvals count [] = (approvals, count)
  collect_votes b approvals count (v ∷ vs) =
      collect_votes b (if approves x v b then approvals + 1 else approvals) (count + 1) vs

  -- The votes of a pool against `consensusThreshold`.
  unfoldable pub is_enough : Chain → Blk x → List (Validator (Double x)) → Bool
  is_enough c b validators =
      let (approvals, count) = collect_votes b 0 0 validators in
      x.floats.le (x.floats.of_nat c.consensus_threshold) (
        x.floats.div (x.floats.mul (x.floats.of_nat approvals) (x.floats.of_nat 100))
          (x.floats.of_nat count))

  unfoldable pub reach_consensus : Chain → Blk x → Result Bool
  reach_consensus c b = pool c b >>= λ validators. ok (is_enough c b validators)

  -- `getBalance` is declared and not defined: a parameter.
  module _ (get_balance : Chain → Str → Double x) where
    unfoldable pub transaction_ok : Chain → Tx x → Bool
    transaction_ok c t =
        if not (x.is_valid t)
        then false
        else if is_financial (x.get_type t)
        then (if x.floats.lt (get_balance c (x.get_sender t)) (x.get_amount t) then false else true)
        else true

    unfoldable pub validate_block : Chain → Blk x → Result Bool
    validate_block c b = if not (is_valid x b) then ok false else do
      latest ← get_latest_block c
      ok (
          if not (str_eq b.previous_hash latest.hash)
          then false
          else all (transaction_ok c) b.transactions)

    unfoldable pub add_block : Chain → Blk x → Result Chain
    add_block c b = do
      valid ← validate_block c b
      guard valid (runtime_error "Invalid block")
      consensus ← reach_consensus c b
      guard consensus (runtime_error "Consensus not reached")
      ok (process_all (record c { chain = c.chain ++ b ∷ [] }) b.transactions)
