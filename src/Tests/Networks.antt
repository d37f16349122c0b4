-- ===== src/Tests/Networks.antt =====
-- src/network/p2p_network.cpp at small inputs.
use blockchain_messaging.Base.{
  ℕ, ◌+◌, ◌≡◌, ◌≢◌, refl, [], ◌∷◌, true, false, none, some, Str, str_eq, str_eq_iff, bytes,
  runtime_error, ltb, if◌then◌else◌, Result, ok, throws, undefined, arith,
}
use blockchain_messaging.Base.Integers.{pos}
use blockchain_messaging.Tests.World.{Number, whole}
use blockchain_messaging.Base.Maps.{Map, lookup}
use blockchain_messaging.Network.P2pNetwork.{
  Network, NetworkExternals, MessageKind, new_network, count_message, start, broadcast_to,
  broadcast_message, dispatch, handle_incoming_messages, slow_peers, replace_peers,
  optimize_connections, network_round, run_network_loop,
}
use blockchain_messaging.Network.P2pNetwork.Broadcast.{Outcome, broadcast_message-Outcome}
use blockchain_messaging.Network.P2pNetwork.Rounds.{Round, network_round-Round}
use blockchain_messaging.Network.P2pNetwork.Connections.{RemovesOne}

-- A peer is its latency, and cannot be reached above 2000; a message is its kind. A transaction counts as a
-- validator, and a block cannot be processed.
abbrev Net : Type 0
Net = Network Number ℕ MessageKind

abbrev without : Str → Map ℕ → Map ℕ
without id [] = []
without id ((j, p) ∷ m) = let rest = without id m in if str_eq id j then rest else (j, p) ∷ rest

abbrev handled : MessageKind → Net → Net × Result (Unit {0})
handled m n = (
  record n { state = record n.state { active_validators = n.state.active_validators + 1 } },
  ok tt,
)

abbrev pub externals : NetworkExternals Number ℕ MessageKind
externals = record {
  send_message = λ p m. if ltb 2000 p then throws (runtime_error "unreachable") else ok tt;
  latency_of = λ p. p;
  kind_of = λ m. m;
  process_transaction = handled;
  process_block = λ m n. (n, throws (runtime_error "block"));
  handle_peer_discovery = handled;
  handle_validation_request = handled;
  remove_peer = λ id n. record n { peers = without id n.peers };
  find_new_peer = λ n. n;
  handle_network_partition = λ n. n;
  synchronize_with_peers = λ n. n;
  measure_network_latency = λ n. n;
}

lookup-without :
    (id j : Str) (m : Map ℕ) → lookup j (without id m) ≡ (if str_eq id j then none else lookup j m)
unfolding lookup
lookup-without id j [] = ground arith
lookup-without id j ((i, p) ∷ m) =
    ground (arith, lookup-without id j m, str_eq_iff id i, str_eq_iff id j, str_eq_iff i j)

externals-RemovesOne : RemovesOne externals
externals-RemovesOne id j n = lookup-without id j n.peers

externals-removes : (id : Str) (n : Net) → lookup id (externals.remove_peer id n).peers ≡ none
externals-removes id n = ground (arith, externals-RemovesOne id id n, str_eq_iff id id)

abbrev pub peers : Map ℕ
peers = (bytes "a", 20) ∷ (bytes "b", 1500) ∷ (bytes "c", 3000) ∷ (bytes "d", 70) ∷ []

abbrev pub network : Net
network = record {
  node_id = bytes "n";
  port = 8333;
  peers = peers;
  message_queue = MessageKind.transaction ∷ MessageKind.block ∷ MessageKind.other_kind ∷ [];
  is_running = false;
  state = record {
    connected_peers = 0;
    active_validators = 0;
    network_latency = whole (pos 0);
    message_count = 5;
  };
}

new_network_run :
    (new_network {P = ℕ} {M = MessageKind} (whole (pos 0)) (bytes "n") 8333).peers ≡ []
unfolding new_network
new_network_run = refl

start_run : (start externals network).is_running ≡ true
unfolding start
start_run = refl

-- The third peer cannot be reached.
broadcast_run : broadcast_message externals MessageKind.transaction network ≡ (
  record network {
    peers = (bytes "a", 20) ∷ (bytes "b", 1500) ∷ (bytes "d", 70) ∷ [];
    state = record network.state { message_count = 7 };
  },
  undefined,
)
unfolding broadcast_message broadcast_to count_message lookup
broadcast_run = refl

send_returns : (p : ℕ) → externals.send_message p MessageKind.transaction ≢ undefined
send_returns p = λ q. ground arith

broadcast_message-Outcome_example :
    Outcome externals MessageKind.transaction network peers
      (broadcast_message externals MessageKind.transaction network)
broadcast_message-Outcome_example =
    broadcast_message-Outcome externals MessageKind.transaction network externals-removes
      send_returns (omega arith)

leaves_queue :
    (m : MessageKind) (n : Net) → (dispatch externals m n).0.message_queue ≡ n.message_queue
unfolding dispatch
leaves_queue MessageKind.transaction n = refl
leaves_queue MessageKind.block n = refl
leaves_queue MessageKind.peer_discovery n = refl
leaves_queue MessageKind.validation_request n = refl
leaves_queue MessageKind.other_kind n = refl

network_round-Round_example :
    (r : Net × Result (Unit {0})) × (network_round externals 4 network ≡ some r)
    × Round externals network r
network_round-Round_example = network_round-Round externals network 4 leaves_queue (omega arith)

-- The block stops the loop.
round_run :
    network_round externals 4 network
    ≡ some (
      record network {
        message_queue = MessageKind.other_kind ∷ [];
        state = record network.state { active_validators = 1 };
      },
      throws (runtime_error "block"),
    )
unfolding network_round handle_incoming_messages dispatch
round_run = refl

optimized_run :
    (optimize_connections externals network).peers ≡ (bytes "a", 20) ∷ (bytes "d", 70) ∷ []
unfolding optimize_connections slow_peers replace_peers
optimized_run = refl

-- The loop ends with the round that throws; a network that is stopped runs no round.
loop_run :
    (run_network_loop externals 4 ((λ n. n) ∷ []) (record network { is_running = true })
      ≡ some (
        record network {
          is_running = true;
          message_queue = MessageKind.other_kind ∷ [];
          state = record network.state { active_validators = 1 };
        },
        throws (runtime_error "block"),
      ))
    × (run_network_loop externals 4 ((λ n. n) ∷ []) (record network { is_running = false })
        ≡ some (record network { is_running = false }, ok tt))
unfolding run_network_loop network_round handle_incoming_messages dispatch
loop_run = (refl, refl)
