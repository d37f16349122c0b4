-- ===== src/Network/Node/Histories.antt =====
-- What a node holds after any sequence of submitted transactions and received blocks.
use blockchain_messaging.Base.{
  ℕ, ◌≤◌, ◌≡◌, refl, sym, ap, subst, ◌∙◌, ◌⊎◌, inl, inr, List, [], ◌∷◌, ◌++◌, true, append-nil,
  append_assoc, length, All, All-append, All-filter, filter, filter-All, filter-append, Str,
  Bool-cases, ok, IsIeee, arith,
}
use blockchain_messaging.Core.Transaction.{Externals, Double, Tx}
use blockchain_messaging.Core.Block.{Blk}
use blockchain_messaging.Core.Blockchain.{Chain, new_blockchain}
use blockchain_messaging.Core.Blockchain.Consensus.{reach_consensus_no_validators}
use blockchain_messaging.Core.Blockchain.Links.{IsChain, append-IsChain, new_blockchain-IsChain}
use blockchain_messaging.Wallet.{WalletExternals}
use blockchain_messaging.Network.Node.{
  NodeState, NodeExternals, Nod, new_node, submit_transaction, validate_and_add_block,
}
use blockchain_messaging.Network.Node.Blocks.{
  IsNodeExternals, is_unprocessed, invalid, refused, unsearched, added,
  validate_and_add_block-Outcome,
}

pub data Event (T B : Type 0) : Type 0 where
  submitted : T → Event T B
  received : B → Event T B

module _ (x : Externals) (P M : Type 0) (e : NodeExternals (Double x) P M)
    (get_balance : Chain x → Str → Double x) where
  abbrev pub Events : Type 0
  Events = List (Event (Tx x) (Blk x))

  -- The node after a call, whether it returns or throws. A call whose behaviour is undefined,
  -- on a valid block without a financial transaction, is taken to change nothing.
  abbrev pub perform : Event (Tx x) (Blk x) → Nod x P M → Nod x P M
  perform (submitted t) n = (submit_transaction x P M e t n).0
  perform (received b) n = (validate_and_add_block x P M e get_balance b n).0

  abbrev pub run : Events → Nod x P M → Nod x P M
  run [] n = n
  run (v ∷ events) n = run events (perform v n)

  -- The chain is linked by hashes, the height is the length of the chain, or 0 as long as the node
  -- has added no block, and no invalid transaction is pending.
  pub record IsNode (n : Nod x P M) : Type 0 where
    pub chain : IsChain x get_balance n.blockchain
    pub height :
        (n.state.last_block_height ≡ 0) ⊎ (n.state.last_block_height ≡ length n.blockchain.chain)
    pub pending_transactions : All (λ t. x.is_valid t ≡ true) n.pending_transactions

  submit_transaction-pending_transactions :
      (t : Tx x) (n : Nod x P M)
      → (submit_transaction x P M e t n).0.pending_transactions
        ≡ n.pending_transactions ++ filter x.is_valid (t ∷ [])
  unfolding submit_transaction
  submit_transaction-pending_transactions t n = elim (Bool-cases (x.is_valid t)) [
    | inl valid ↦ rw valid refl
    | inr bad ↦ rw bad (sym (append-nil n.pending_transactions))
  ]

  submit_transaction-blockchain :
      (t : Tx x) (n : Nod x P M) → (submit_transaction x P M e t n).0.blockchain ≡ n.blockchain
  unfolding submit_transaction
  submit_transaction-blockchain t n = ground arith

  submit_transaction-state :
      (t : Tx x) (n : Nod x P M) → (submit_transaction x P M e t n).0.state ≡ n.state
  unfolding submit_transaction
  submit_transaction-state t n = ground arith

  -- The chain of one node begins with the chain of another.
  abbrev pub Extends : Nod x P M → Nod x P M → Type 0
  Extends m n = (suffix : List (Blk x)) × (m.blockchain.chain ≡ n.blockchain.chain ++ suffix)

  -- The transactions that are submitted, in order.
  abbrev pub all_submitted : Events → List (Tx x)
  all_submitted [] = []
  all_submitted (submitted t ∷ events) = t ∷ all_submitted events
  all_submitted (received b ∷ events) = all_submitted events

  -- A chain without financial validators.
  pub record IsAlone (c : Chain x) : Type 0 where
    pub chain : IsChain x get_balance c
    pub threshold : c.consensus_threshold ≤ 100
    pub no_financial_validators : c.financial_validators ≡ []

  module _ (laws : IsNodeExternals x P M e) where
    pub perform-IsNode :
        (v : Event (Tx x) (Blk x)) (n : Nod x P M) → IsNode n → IsNode (perform v n)
    perform-IsNode (submitted t) n i = record {
      chain = rw (submit_transaction-blockchain t n) i.chain;
      height = rw (submit_transaction-blockchain t n, submit_transaction-state t n) i.height;
      pending_transactions = rw (submit_transaction-pending_transactions t n) (
          All-append _ n.pending_transactions _ i.pending_transactions
            (filter-All x.is_valid (t ∷ [])));
    }
    perform-IsNode (received b) n i =
        elim (validate_and_add_block-Outcome x P M e laws get_balance b i.chain.last n
          i.chain.has_last) [
            | invalid v r ↦ rw (r, perform) i
            | refused v c r ↦ rw (r, perform) i
            | unsearched v p r ↦ rw (r, perform) i
            | added c a won t k r holds ↦ record {
              chain =
                  rw (holds.blockchain) (append-IsChain x get_balance n.blockchain c b i.chain a k);
              height = inr (
                  ap (λ (s : NodeState). s.last_block_height) holds.state
                  ∙ ap (λ (d : Chain x). length d.chain) (sym holds.blockchain));
              pending_transactions = rw (holds.pending_transactions) (
                  All-filter _ (is_unprocessed x P M e b.transactions) n.pending_transactions
                    i.pending_transactions);
            }
          ]

    pub perform-Extends :
        (v : Event (Tx x) (Blk x)) (n : Nod x P M) → IsNode n → Extends (perform v n) n
    perform-Extends (submitted t) n i = (
      [],
      ap (λ (c : Chain x). c.chain) (submit_transaction-blockchain t n)
          ∙ sym (append-nil n.blockchain.chain),
    )
    perform-Extends (received b) n i =
        elim (validate_and_add_block-Outcome x P M e laws get_balance b i.chain.last n
          i.chain.has_last) [
            | invalid v r ↦ ([], rw (r, perform) (sym (append-nil n.blockchain.chain)))
            | unsearched v p r ↦ ([], rw (r, perform) (sym (append-nil n.blockchain.chain)))
            | refused v c r ↦ ([], rw (r, perform) (sym (append-nil n.blockchain.chain)))
            | added c a won t k r holds ↦
                (b ∷ [], ap (λ (d : Chain x). d.chain) holds.blockchain ∙ k)
          ]

    -- A well-formed node stays so, and its chain only grows at the end, whatever sequence of
    -- submitted transactions and received blocks it takes, and whatever these calls throw. (The
    -- undefined methods are to do what they are expected to. This holds of the code as long as no call
    -- has undefined behaviour; in the model such a call leaves the node.)
    pub run-IsNode :
        (events : Events) (n : Nod x P M)
        → IsNode n
        → IsNode (run events n) × Extends (run events n) n
    run-IsNode [] n i = (i, ([], sym (append-nil n.blockchain.chain)))
    run-IsNode (v ∷ events) n i =
        let (j, (new, e)) = run-IsNode events (perform v n) (perform-IsNode v n i) in
        let (first, e0) = perform-Extends v n i in
        (j, (first ++ new, e ∙ ap (λ bs. bs ++ new) e0 ∙ append_assoc n.blockchain.chain first new))

    run-IsAlone :
        IsIeee x.floats
        → (events : Events) (n : Nod x P M) → IsAlone n.blockchain
        → ((run events n).blockchain ≡ n.blockchain)
          × ((run events n).state ≡ n.state)
          × ((run events n).pending_transactions
              ≡ n.pending_transactions ++ filter x.is_valid (all_submitted events))
    run-IsAlone ieee [] n i = (refl, refl, sym (append-nil n.pending_transactions))
    run-IsAlone ieee (submitted t ∷ events) n i =
        let m = perform (submitted t) n in
        let alone = subst IsAlone (sym (submit_transaction-blockchain t n)) i in
        let (c, s, p) = run-IsAlone ieee events m alone in
        (
          c ∙ submit_transaction-blockchain t n,
          s ∙ submit_transaction-state t n,
          p
              ∙ ap (λ ts. ts ++ filter x.is_valid (all_submitted events))
                  (submit_transaction-pending_transactions t n)
              ∙ append_assoc n.pending_transactions (filter x.is_valid (t ∷ [])) _
              ∙ ap (λ ts. n.pending_transactions ++ ts)
                  (sym (filter-append x.is_valid (t ∷ []) (all_submitted events))),
        )
    run-IsAlone ieee (received b ∷ events) n i =
        elim (validate_and_add_block-Outcome x P M e laws get_balance b i.chain.last n
          i.chain.has_last) [
            | invalid v r ↦ rw (r, run, perform, all_submitted) (run-IsAlone ieee events n i)
            | unsearched v p r ↦ rw (r, run, perform, all_submitted) (run-IsAlone ieee events n i)
            | refused v c r ↦ rw (r, run, perform, all_submitted) (run-IsAlone ieee events n i)
            | added c a won t k r holds ↦ absurd (
                reach_consensus_no_validators x n.blockchain b ieee i.threshold
                  i.no_financial_validators won)
          ]

    new_blockchain-IsAlone : (now : ℕ) → IsAlone (new_blockchain x now)
    unfolding new_blockchain
    new_blockchain-IsAlone now = record {
      chain = new_blockchain-IsChain x get_balance now;
      threshold = omega arith;
      no_financial_validators = refl;
    }

    new_node_made :
        (w : WalletExternals x) (now : ℕ) (indeterminate : Double x) (draws : List ℕ)
        (node_id : Str) (port : ℕ) (n : Nod x P M)
        → new_node x P M w now indeterminate draws node_id port ≡ ok n
        → (n.blockchain ≡ new_blockchain x now)
          × (n.state.last_block_height ≡ 0)
          × (n.pending_transactions ≡ [])
    unfolding new_node
    new_node_made w now indeterminate draws node_id port n h = ground arith

    -- A node that the constructor made never adds a block: with IEEE arithmetic, and where the
    -- undefined methods do what they are expected to, after any sequence of submitted transactions
    -- and received blocks its chain is the first block and its height 0, and it still holds all valid
    -- transactions that were submitted, in order. (This holds of the code as long as no call has
    -- undefined behaviour; in the model such a call leaves the node.)
    pub run-new_node :
        (w : WalletExternals x) (now : ℕ) (indeterminate : Double x) (draws : List ℕ)
        (node_id : Str) (port : ℕ) (n : Nod x P M) (events : Events)
        → IsIeee x.floats
        → new_node x P M w now indeterminate draws node_id port ≡ ok n
        → ((run events n).blockchain ≡ new_blockchain x now)
          × ((run events n).state.last_block_height ≡ 0)
          × ((run events n).pending_transactions ≡ filter x.is_valid (all_submitted events))
    run-new_node w now indeterminate draws node_id port n events ieee h =
        let (made, low, none_pending) = new_node_made w now indeterminate draws node_id port n h in
        let (c, s, p) =
          run-IsAlone ieee events n (subst IsAlone (sym made) (new_blockchain-IsAlone now)) in
        (
          c ∙ made,
          ap (λ (t : NodeState). t.last_block_height) s ∙ low,
          p ∙ ap (λ ts. ts ++ filter x.is_valid (all_submitted events)) none_pending,
        )
