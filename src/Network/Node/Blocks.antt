-- ===== src/Network/Node/Blocks.antt =====
-- Node::validateAndAddBlock: its outcomes.
use blockchain_messaging.Base.{
  ◌≡◌, ◌≢◌, refl, sym, ap, ◌∙◌, inl, inr, List, [], ◌∷◌, ◌++◌, Bool, true, false, not, some, last?,
  length, any, filter, filter-filter, filter_cong, filter_keeps, Str, str_eq, ok, throws, undefined,
  Result-cases, runtime_error, arith,
}
use blockchain_messaging.Core.Transaction.{Externals, Double, Tx}
use blockchain_messaging.Core.Block.{Blk}
use blockchain_messaging.Core.Blockchain.{Chain, validate_block, add_block, reach_consensus}
use blockchain_messaging.Core.Blockchain.Consensus.{has_money}
use blockchain_messaging.Core.Blockchain.Links.{Accepts, add_block-Outcome}
use blockchain_messaging.Core.Blockchain.Links as Links
use blockchain_messaging.Network.Node.{
  NodeState, NodeExternals, Nod, Effect, swallow, remove_processed, record_block,
  validate_and_add_block,
}

module _ (x : Externals) (P M : Type 0) (e : NodeExternals (Double x) P M) where
  -- What the methods without a definition are expected to do. removePendingTransaction removes
  -- the pending transactions with the hash, returns, and touches neither the chain nor the state; to
  -- broadcast a block may throw, and changes none of them.
  pub record IsNodeExternals : Type 0 where
    pub removes :
        (h : Str) (n : Nod x P M)
        → (e.remove_pending_transaction h n).0.pending_transactions
          ≡ filter (λ t. not (str_eq t.hash h)) n.pending_transactions
    pub remove_returns : (h : Str) (n : Nod x P M) → (e.remove_pending_transaction h n).1 ≡ ok tt
    pub remove-blockchain :
        (h : Str) (n : Nod x P M) → (e.remove_pending_transaction h n).0.blockchain ≡ n.blockchain
    pub remove-state :
        (h : Str) (n : Nod x P M) → (e.remove_pending_transaction h n).0.state ≡ n.state
    pub broadcast_defined : (b : Blk x) (n : Nod x P M) → (e.broadcast_block b n).1 ≢ undefined
    pub broadcast-blockchain :
        (b : Blk x) (n : Nod x P M) → (e.broadcast_block b n).0.blockchain ≡ n.blockchain
    pub broadcast-state : (b : Blk x) (n : Nod x P M) → (e.broadcast_block b n).0.state ≡ n.state
    pub broadcast-pending_transactions :
        (b : Blk x) (n : Nod x P M)
        → (e.broadcast_block b n).0.pending_transactions ≡ n.pending_transactions

  -- No transaction of the list has the hash.
  abbrev pub is_unprocessed : List (Tx x) → Tx x → Bool
  is_unprocessed ts t = not (any (λ s. str_eq t.hash s.hash) ts)

  -- The node with a chain, a height and a list of pending transactions: all that adding a block is
  -- to change, other than what broadcasting does.
  pub record Holds (n : Nod x P M) (c : Chain x) (s : NodeState) (pending : List (Tx x))
      : Type 0 where
    pub blockchain : n.blockchain ≡ c
    pub state : n.state ≡ s
    pub pending_transactions : n.pending_transactions ≡ pending

  module _ (get_balance : Chain x → Str → Double x) where
    -- The ways in which the node can take a block.
    pub data Outcome (b last : Blk x) (n : Nod x P M) (r : Effect (Nod x P M)) : Type 0 where
      invalid :
          validate_block x get_balance n.blockchain b ≡ ok false
          → r ≡ (n, throws (runtime_error "Invalid block"))
          → Outcome b last n r
      refused :
          validate_block x get_balance n.blockchain b ≡ ok true
          → reach_consensus x n.blockchain b ≡ ok false
          → r ≡ (n, ok tt)
          → Outcome b last n r
      unsearched :
          validate_block x get_balance n.blockchain b ≡ ok true
          → has_money x b ≡ false
          → r ≡ (n, undefined)
          → Outcome b last n r
      added :
          (c : Chain x)
          → Accepts x get_balance n.blockchain b last
          → reach_consensus x n.blockchain b ≡ ok true
          → add_block x get_balance n.blockchain b ≡ ok c
          → c.chain ≡ n.blockchain.chain ++ b ∷ []
          → r.1 ≡ ok tt
          → Holds
              (r.0)
              c
              (record n.state { last_block_height = length c.chain })
              (filter (is_unprocessed b.transactions) n.pending_transactions)
          → Outcome b last n r

  module _ (laws : IsNodeExternals) where
    remove_processed_returns :
        (ts : List (Tx x)) (n : Nod x P M) → (remove_processed x P M e ts n).1 ≡ ok tt
    unfolding remove_processed
    remove_processed_returns [] n = refl
    remove_processed_returns (t ∷ ts) n =
        rw (laws.remove_returns t.hash n, remove_processed)
          (remove_processed_returns ts ((e.remove_pending_transaction t.hash n).0))

    remove_processed-Holds :
        (ts : List (Tx x)) (n : Nod x P M)
        → Holds
            ((remove_processed x P M e ts n).0)
            n.blockchain
            n.state
            (filter (is_unprocessed ts) n.pending_transactions)
    unfolding remove_processed
    remove_processed-Holds [] n = record {
      blockchain = refl;
      state = refl;
      pending_transactions = sym (filter_keeps _ (λ t. refl) n.pending_transactions);
    }
    remove_processed-Holds (t ∷ ts) n =
        let n' = (e.remove_pending_transaction t.hash n).0 in
        let rest = remove_processed-Holds ts n' in
        rw (laws.remove_returns t.hash n, remove_processed)
          (record {
            blockchain = rest.blockchain ∙ laws.remove-blockchain t.hash n;
            state = rest.state ∙ laws.remove-state t.hash n;
            pending_transactions =
                rest.pending_transactions
                ∙ ap (filter (is_unprocessed ts)) (laws.removes t.hash n)
                ∙ filter-filter (is_unprocessed ts) (λ s. not (str_eq s.hash t.hash))
                    n.pending_transactions
                ∙ filter_cong _ _ (λ s. ground arith) n.pending_transactions;
          })

    record_block-Holds :
        (get_balance : Chain x → Str → Double x) (b : Blk x) (c : Chain x) (n : Nod x P M)
        → Holds
            ((swallow (record_block x P M e get_balance b c n)).0)
            c
            (record n.state { last_block_height = length c.chain })
            (filter (is_unprocessed b.transactions) n.pending_transactions)
    unfolding record_block
    record_block-Holds get_balance b c n =
        let n0 : Nod x P M = record n {
          blockchain = c;
          state = record n.state { last_block_height = length c.chain };
        } in
        let n1 = (remove_processed x P M e b.transactions n0).0 in
        let held = remove_processed-Holds b.transactions n0 in
        rw (remove_processed_returns b.transactions n0, swallow-keeps (e.broadcast_block b n1))
          (record {
            blockchain = laws.broadcast-blockchain b n1 ∙ held.blockchain;
            state = laws.broadcast-state b n1 ∙ held.state;
            pending_transactions =
                laws.broadcast-pending_transactions b n1 ∙ held.pending_transactions;
          })
      where
        swallow-keeps : {N : Type 0} (r : Effect N) → (swallow r).0 ≡ r.0
        swallow-keeps r = elim (Result-cases (r.1)) [
          | inl (_, d) ↦ ground arith
          | inr (inl (f, d)) ↦ ground arith
          | inr (inr d) ↦ ground arith
        ]

    record_block_returns :
        (get_balance : Chain x → Str → Double x) (b : Blk x) (c : Chain x) (n : Nod x P M)
        → (swallow (record_block x P M e get_balance b c n)).1 ≡ ok tt
    unfolding record_block
    record_block_returns get_balance b c n =
        let n0 : Nod x P M = record n {
          blockchain = c;
          state = record n.state { last_block_height = length c.chain };
        } in
        let n1 = (remove_processed x P M e b.transactions n0).0 in
        rw (remove_processed_returns b.transactions n0)
          (elim (Result-cases ((e.broadcast_block b n1).1)) [
            | inl (_, d) ↦ rw (d, swallow) refl
            | inr (inl (f, d)) ↦ rw (d, swallow) refl
            | inr (inr d) ↦ absurd (laws.broadcast_defined b n1 d)
          ])

    module _ (get_balance : Chain x → Str → Double x) where
      add_block_validated :
          (c c' : Chain x) (b : Blk x)
          → add_block x get_balance c b ≡ ok c'
          → validate_block x get_balance c b ≡ ok true
      unfolding add_block
      add_block_validated c c' b h = ground arith

      -- Where the chain has a last block and the undefined methods do what they are expected to: an
      -- invalid block is thrown back and changes nothing; a valid block that the validators refuse
      -- changes nothing either, and the call returns as if it had been added; the behaviour is
      -- undefined where a valid block has no financial transaction; and a valid block with a
      -- consensus is appended, the height is the new length, and the pending transactions that
      -- are left are in order those whose hash no transaction of the block has, whether the
      -- broadcast of the block throws or not.
      pub validate_and_add_block-Outcome :
          (b last : Blk x) (n : Nod x P M)
          → last? n.blockchain.chain ≡ some last
          → Outcome get_balance b last n (validate_and_add_block x P M e get_balance b n)
      unfolding validate_and_add_block
      validate_and_add_block-Outcome b last n h =
          elim (add_block-Outcome x get_balance n.blockchain b last h) [
            | Links.Outcome.invalid v t ↦ invalid v (rw (v, validate_and_add_block) refl)
            | Links.Outcome.refused v r t ↦ refused v r (rw (v, t, validate_and_add_block) refl)
            | Links.Outcome.unsearched v p t ↦
                unsearched v p (rw (v, t, validate_and_add_block) refl)
            | Links.Outcome.added c a r t k ↦
                let v = add_block_validated n.blockchain c b t in
                rw (v, t, validate_and_add_block)
                  (added c a r t k (record_block_returns get_balance b c n)
                    (record_block-Holds get_balance b c n))
          ]
