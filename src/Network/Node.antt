-- ===== src/Network/Node.antt =====
-- src/network/node.hpp and node.cpp: class Node. The chain and the wallet are owned by the node in
-- this model: no file shares them. A method that no file defines is a parameter, and so are the
-- members that the sources call and no class declares.
pub mod Blocks
pub mod Histories
use blockchain_messaging.Base.{
  ℕ, List, [], ◌∷◌, ◌++◌, map, Option, none, some, Bool, true, false, not, Str, length, leb,
  if◌then◌else◌, Result, ok, throws, undefined, ◌>>=◌, runtime_error,
}
use blockchain_messaging.Core.Transaction.{Transaction, Externals, Double, Tx}
use blockchain_messaging.Core.Block.{Block, Blk}
use blockchain_messaging.Core.Blockchain.{
  Blockchain, Chain, new_blockchain, get_chain_length, validate_block, add_block,
}
use blockchain_messaging.Wallet.{Wallet, WalletExternals, new_wallet}
use blockchain_messaging.Network.P2pNetwork.{
  Network, NetworkExternals, new_network, start as start_network,
}

pub record NodeState : Type 0 where
  pub is_syncing : Bool
  pub is_validating : Bool
  pub last_block_height : ℕ
  pub last_update : ℕ

pub record Node (D P M : Type 0) : Type 0 where
  pub node_id : Str
  pub blockchain : Blockchain D
  pub wallet : Wallet D
  pub network : Network D P M
  pub state : NodeState
  pub running : Bool
  pub pending_blocks : List (Block D)
  pub pending_transactions : List (Transaction D)

-- A call that may have changed the object before it throws.
abbrev pub Effect : Type 0 → Type 0
Effect N = N × Result (Unit {0})

-- `f(); g();`
abbrev pub and_then : {N : Type 0} → Effect N → (N → Effect N) → Effect N
and_then r next = elim (r.1) [
  | ok _ ↦ next (r.0)
  | throws e ↦ (r.0, throws e)
  | undefined ↦ (r.0, undefined)
]

-- `try { f(); } catch (const std::exception& e) { std::cerr << ...; }`
abbrev pub swallow : {N : Type 0} → Effect N → Effect N
swallow r = elim (r.1) [
  | ok _ ↦ (r.0, ok tt)
  | throws e ↦ (r.0, ok tt)
  | undefined ↦ (r.0, undefined)
]

-- `isSynced` is a method of the node that the source calls on its state, and
-- `getMinTransactionsPerBlock` one that no class declares.
pub record NodeExternals (D P M : Type 0) : Type 0 where
  pub network : NetworkExternals D P M
  pub broadcast_transaction : Transaction D → Network D P M → Effect (Network D P M)
  pub broadcast_block : Block D → Node D P M → Effect (Node D P M)
  pub remove_pending_transaction : Str → Node D P M → Effect (Node D P M)
  pub process_transactions : Node D P M → Effect (Node D P M)
  pub create_and_broadcast_block : Node D P M → Effect (Node D P M)
  pub sync_blockchain : Node D P M → Effect (Node D P M)
  pub handle_orphan_blocks : Node D P M → Effect (Node D P M)
  pub get_min_transactions_per_block : Blockchain D → ℕ
  pub is_synced : NodeState → Bool

module _ (x : Externals) (P M : Type 0) where
  abbrev pub Nod : Type 0
  Nod = Node (Double x) P M

  -- The wallet is a new one with its own keys, which the random draws make.
  unfoldable pub new_node : WalletExternals x → ℕ → Double x → List ℕ → Str → ℕ → Result Nod
  new_node w now indeterminate draws node_id port = do
    wallet ← new_wallet x w indeterminate draws
    ok (record {
      node_id = node_id;
      blockchain = new_blockchain x now;
      wallet = wallet;
      network = new_network (x.floats.of_nat 0) node_id port;
      state = record {
        is_syncing = false;
        is_validating = false;
        last_block_height = 0;
        last_update = now;
      };
      running = false;
      pending_blocks = [];
      pending_transactions = [];
    })

  module _ (e : NodeExternals (Double x) P M) where
    -- Besides, `start` starts the threads of the two loops.
    unfoldable pub start : Nod → Effect Nod
    start n =
        if n.running
        then (n, ok tt)
        else e.sync_blockchain
            (record n { running = true; network = start_network e.network n.network })

    -- "Create new block if enough transactions".
    unfoldable pub create_if_enough : Nod → Effect Nod
    create_if_enough n =
        if leb (e.get_min_transactions_per_block n.blockchain) (length n.pending_transactions)
        then e.create_and_broadcast_block n
        else (n, ok tt)

    -- One round of validationLoop.
    unfoldable pub validation_round : Nod → Effect Nod
    validation_round n =
        if n.state.is_validating
        then and_then (e.process_transactions n) create_if_enough
        else (n, ok tt)

    unfoldable pub sync_if_behind : Nod → Effect Nod
    sync_if_behind n = if not (e.is_synced n.state) then e.sync_blockchain n else (n, ok tt)

    -- `state.lastUpdate = std::time(nullptr);`
    unfoldable pub set_last_update : ℕ → Nod → Effect Nod
    set_last_update now n = (record n { state = record n.state { last_update = now } }, ok tt)

    -- The end of a round of syncLoop.
    unfoldable pub finish_sync : ℕ → Nod → Effect Nod
    finish_sync now n = and_then (e.handle_orphan_blocks n) (set_last_update now)

    -- One round of syncLoop, which reads the clock at its end.
    unfoldable pub sync_round : ℕ → Nod → Effect Nod
    sync_round now n = and_then (sync_if_behind n) (finish_sync now)

    -- `while (running) { ... sleep_for(...); }` on the rounds, each with what the other threads do
    -- to the node while this one sleeps after it. `none` says that the loop goes on after these.
    unfoldable pub while_running :
        List ((Nod → Effect Nod) × (Nod → Nod)) → Nod → Option (Effect Nod)
    while_running [] n = if n.running then none else some (n, ok tt)
    while_running ((round, others) ∷ rounds) n =
        let r = round n in
        let go_on = while_running rounds (others (r.0)) in
        if n.running
        then elim (r.1) [
          | ok _ ↦ go_on
          | throws f ↦ some (r.0, throws f)
          | undefined ↦ some (r.0, undefined)
        ]
        else some (n, ok tt)

    unfoldable pub validation_loop : List (Nod → Nod) → Nod → Option (Effect Nod)
    validation_loop sleeps = while_running (map (λ others. (validation_round, others)) sleeps)

    -- Each round has the time that it reads.
    unfoldable pub sync_loop : List (ℕ × (Nod → Nod)) → Nod → Option (Effect Nod)
    sync_loop sleeps = while_running (map (λ s. (sync_round (s.0), s.1)) sleeps)

    unfoldable pub submit_transaction : Tx x → Nod → Effect Nod
    submit_transaction t n =
        if not (x.is_valid t)
        then (n, throws (runtime_error "Invalid transaction"))
        else let r = e.broadcast_transaction t n.network in
          (record n { pending_transactions = n.pending_transactions ++ t ∷ []; network = r.0 }, r.1)

    -- The loop over the transactions of an added block.
    unfoldable pub remove_processed : List (Tx x) → Nod → Effect Nod
    remove_processed [] n = (n, ok tt)
    remove_processed (t ∷ ts) n =
        and_then (e.remove_pending_transaction t.hash n) (remove_processed ts)

    module _ (get_balance : Chain x → Str → Double x) where
      unfoldable pub record_block : Blk x → Chain x → Nod → Effect Nod
      record_block b chain n =
          and_then
            (remove_processed b.transactions (record n {
              blockchain = chain;
              state = record n.state { last_block_height = get_chain_length x chain };
            }))
            (e.broadcast_block b)

      -- `addBlock` takes a `Block&` and is called with a `const Block&`.
      unfoldable pub validate_and_add_block : Blk x → Nod → Effect Nod
      validate_and_add_block b n = elim (validate_block x get_balance n.blockchain b) [
        | ok valid ↦
            if not valid
            then (n, throws (runtime_error "Invalid block"))
            else elim (add_block x get_balance n.blockchain b) [
              | ok chain ↦ swallow (record_block b chain n)
              | throws f ↦ (n, ok tt)
              | undefined ↦ (n, undefined)
            ]
        | throws f ↦ (n, throws f)
        | undefined ↦ (n, undefined)
      ]
