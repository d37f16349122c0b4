-- ===== src/Core/Blockchain/Races.antt =====
-- Calls of Blockchain::addBlock by several threads. Class Blockchain has no mutex, and a node shares
-- its chain between its threads. A step is the validation, the vote, the push_back, or the
-- processing of one transaction.
pub mod Interleaved
use blockchain_messaging.Base.{
  ℕ, zero, suc, ◌+◌, ◌≡◌, ◌≢◌, refl, List, [], ◌∷◌, ◌++◌, Bool, true, false, Result, ok, throws,
  undefined, Error, runtime_error, Str, if◌then◌else◌,
}
use blockchain_messaging.Base.Families.{set_at}
use blockchain_messaging.Core.Transaction.{Externals, Double, Tx}
use blockchain_messaging.Core.Block.{Blk}
use blockchain_messaging.Core.Blockchain.{
  Chain, process_transaction, reach_consensus, validate_block,
}

-- Where a call is: before each of its steps, with the transactions that are still to be processed, or
-- at its end.
pub data Call (T : Type 0) : Type 0 where
  validating voting pushing : Call T
  processing : List T → Call T
  returned : Call T
  failed : Error → Call T
  crashed : Call T

module _ (x : Externals) where
  -- The chain, and the call of each thread.
  pub record Callers : Type 0 where
    pub chain : Chain x
    pub calls : ℕ → Call (Tx x)

  unfoldable pub all_calling : Chain x → Callers
  all_calling c = record { chain = c; calls = λ i. validating }

module _ (x : Externals) (get_balance : Chain x → Str → Double x) where
  unfoldable pub advance : Blk x → Chain x → Call (Tx x) → Chain x × Call (Tx x)
  advance b c validating = elim (validate_block x get_balance c b) [
    | ok valid ↦ (c, if valid then voting else failed (runtime_error "Invalid block"))
    | throws e ↦ (c, failed e)
    | undefined ↦ (c, crashed)
  ]
  advance b c voting = elim (reach_consensus x c b) [
    | ok won ↦ (c, if won then pushing else failed (runtime_error "Consensus not reached"))
    | throws e ↦ (c, failed e)
    | undefined ↦ (c, crashed)
  ]
  advance b c pushing = (record c { chain = c.chain ++ b ∷ [] }, processing b.transactions)
  advance b c (processing []) = (c, returned)
  advance b c (processing (t ∷ ts)) = (process_transaction x c t, processing ts)
  advance b c returned = (c, returned)
  advance b c (failed e) = (c, failed e)
  advance b c crashed = (c, crashed)

  -- Each thread adds a block of its own.
  module _ (blocks : ℕ → Blk x) where
    unfoldable pub advance_at : ℕ → Callers x → Callers x
    advance_at i s =
        let r = advance (blocks i) s.chain (s.calls i) in
        record { chain = r.0; calls = set_at i (r.1) s.calls }

    unfoldable pub advance_all : List ℕ → Callers x → Callers x
    advance_all [] s = s
    advance_all (i ∷ is) s = advance_all is (advance_at i s)
