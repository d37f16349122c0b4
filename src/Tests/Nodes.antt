-- ===== src/Tests/Nodes.antt =====
-- src/network/node.cpp at small inputs.
use blockchain_messaging.Base.{
  ℕ, ◌≡◌, refl, List, [], ◌∷◌, some, true, false, not, bytes, length, filter, str_eq, inl, ok,
  throws, runtime_error,
}
use blockchain_messaging.Core.Transaction.{Transaction}
use blockchain_messaging.Core.Block.{Block}
use blockchain_messaging.Core.Blockchain.{new_blockchain}
use blockchain_messaging.Network.P2pNetwork.{MessageKind, new_network}
use blockchain_messaging.Network.Node.{
  NodeExternals, Nod, new_node, start, create_if_enough, validation_round, sync_if_behind,
  set_last_update, finish_sync, sync_round, submit_transaction, remove_processed, record_block,
  validate_and_add_block, while_running, sync_loop,
}
use blockchain_messaging.Network.Node.Blocks.{
  IsNodeExternals, Outcome, validate_and_add_block-Outcome,
}
use blockchain_messaging.Network.Node.Histories.{
  Event, submitted, received, IsNode, Extends, run, run-IsNode, run-new_node,
}
use blockchain_messaging.Base.Integers.{pos}
use blockchain_messaging.Tests.World.{Number, whole, world, numbers-IsIeee, sample}
use blockchain_messaging.Tests.Chains.{
  get_balance, genesis, chain, chain-IsChain, double_spend, program,
}
use blockchain_messaging.Tests.Wallets.{helpers, draws, fresh_wallet, wallet_made}
use blockchain_messaging.Tests.Networks.{externals as network_externals, network}

-- A node at the end of these tests' network.
abbrev N : Type 0
N = Nod world ℕ MessageKind

-- Broadcasting a block always fails, and to synchronize takes no blocks.
abbrev node_externals : NodeExternals Number ℕ MessageKind
node_externals = record {
  network = network_externals;
  broadcast_transaction = λ t n. (n, ok tt);
  broadcast_block = λ b n. (n, throws (runtime_error "offline"));
  remove_pending_transaction = λ h n. (
    record n { pending_transactions = filter (λ t. not (str_eq t.hash h)) n.pending_transactions },
    ok tt,
  );
  process_transactions = λ n. (n, ok tt);
  create_and_broadcast_block = λ n. (record n { pending_transactions = [] }, ok tt);
  sync_blockchain = λ n. (n, ok tt);
  handle_orphan_blocks = λ n. (record n { pending_blocks = [] }, ok tt);
  get_min_transactions_per_block = λ c. 1;
  is_synced = λ s. not s.is_syncing;
}

node_externals-IsNodeExternals : IsNodeExternals world ℕ MessageKind node_externals
node_externals-IsNodeExternals = record {
  removes = λ h n. refl;
  remove_returns = λ h n. refl;
  remove-blockchain = λ h n. refl;
  remove-state = λ h n. refl;
  broadcast_defined = λ b n q. cc q;
  broadcast-blockchain = λ b n. refl;
  broadcast-state = λ b n. refl;
  broadcast-pending_transactions = λ b n. refl;
}

abbrev other_payment : Transaction Number
other_payment = record (sample (bytes "f") (bytes "bob") (bytes "eve") 3) { hash = bytes "h" }

-- A node whose chain takes blocks.
abbrev node : N
node = record {
  node_id = bytes "n";
  blockchain = chain;
  wallet = fresh_wallet;
  network = network;
  state = record {
    is_syncing = true;
    is_validating = true;
    last_block_height = 0;
    last_update = 10;
  };
  running = true;
  pending_blocks = [];
  pending_transactions = other_payment ∷ [];
}

validate_and_add_block-Outcome_example :
    Outcome world ℕ MessageKind node_externals get_balance double_spend genesis node
      (validate_and_add_block world ℕ MessageKind node_externals get_balance double_spend node)
validate_and_add_block-Outcome_example =
    validate_and_add_block-Outcome world ℕ MessageKind node_externals node_externals-IsNodeExternals
      get_balance double_spend genesis node refl

abbrev events : List (Event (Transaction Number) (Block Number))
events = submitted other_payment ∷ received double_spend ∷ received double_spend ∷ []

node-IsNode : IsNode world ℕ MessageKind node_externals get_balance node
node-IsNode = record { chain = chain-IsChain; height = inl refl; pending_transactions = (refl, tt) }

run-IsNode_example :
    IsNode world ℕ MessageKind node_externals get_balance
      (run world ℕ MessageKind node_externals get_balance events node)
    × Extends world ℕ MessageKind node_externals get_balance
        (run world ℕ MessageKind node_externals get_balance events node)
        node
run-IsNode_example =
    run-IsNode world ℕ MessageKind node_externals get_balance node_externals-IsNodeExternals events
      node node-IsNode

-- What the constructor makes.
abbrev fresh_node : N
fresh_node = record {
  node_id = bytes "n";
  blockchain = new_blockchain world 10;
  wallet = fresh_wallet;
  network = new_network (whole (pos 0)) (bytes "n") 8333;
  state = record {
    is_syncing = false;
    is_validating = false;
    last_block_height = 0;
    last_update = 10;
  };
  running = false;
  pending_blocks = [];
  pending_transactions = [];
}

fresh_node_made :
    new_node world ℕ MessageKind helpers 10 (whole (pos 5)) draws (bytes "n") 8333 ≡ ok fresh_node
unfolding new_node
fresh_node_made = rw wallet_made refl

run-new_node_example :
    ((run world ℕ MessageKind node_externals get_balance events fresh_node).blockchain
      ≡ new_blockchain world 10)
    × ((run world ℕ MessageKind node_externals get_balance events
          fresh_node).state.last_block_height
        ≡ 0)
    × ((run world ℕ MessageKind node_externals get_balance events fresh_node).pending_transactions
        ≡ other_payment ∷ [])
run-new_node_example =
    run-new_node world ℕ MessageKind node_externals get_balance node_externals-IsNodeExternals
      helpers 10 (whole (pos 5)) draws (bytes "n") 8333 fresh_node events numbers-IsIeee
      fresh_node_made

-- The block is added, though its broadcast throws, and the pending transaction stays.
added_run :
    ((validate_and_add_block world ℕ MessageKind node_externals get_balance double_spend
        node).0.state.last_block_height
      ≡ 2)
    × ((validate_and_add_block world ℕ MessageKind node_externals get_balance double_spend node).1
        ≡ ok tt)
unfolding validate_and_add_block record_block remove_processed program
added_run = (refl, refl)

start_run : (start world ℕ MessageKind node_externals fresh_node).0.running ≡ true
unfolding start
start_run = refl

validation_run :
    (validation_round world ℕ MessageKind node_externals node).0.pending_transactions ≡ []
unfolding validation_round create_if_enough
validation_run = refl

sync_run : (sync_round world ℕ MessageKind node_externals 99 node).0.state.last_update ≡ 99
unfolding sync_round sync_if_behind set_last_update finish_sync
sync_run = refl

submit_run :
    length (
      (submit_transaction world ℕ MessageKind node_externals other_payment
        node).0.pending_transactions)
    ≡ 2
unfolding submit_transaction
submit_run = refl

-- A node that runs, one sleep in which nothing happens, and then a stop.
abbrev started : N
started = record node { running = true }

abbrev stop : N → N
stop n = record n { running = false }

loop_run :
    sync_loop world ℕ MessageKind node_externals ((99, λ n. n) ∷ (129, stop) ∷ []) started
    ≡ some (
      record started {
        running = false;
        state = record node.state { last_update = 129 };
        pending_blocks = [];
      },
      ok tt,
    )
unfolding sync_loop while_running sync_round sync_if_behind set_last_update finish_sync
loop_run = refl
