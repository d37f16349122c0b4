-- ===== src/Network/P2pNetwork.antt =====
-- src/network/p2p_network.hpp and p2p_network.cpp: class P2PNetwork. Peers and messages are of
-- types that no file defines with the methods used here: parameters. Each operation but the
-- start holds the mutex of the network.
pub mod Broadcast
pub mod Incoming
pub mod Connections
pub mod Rounds
use blockchain_messaging.Base.{
  ℕ, zero, suc, ◌+◌, ◌%◌, List, [], ◌∷◌, Bool, true, false, Option, none, some, Str, ltb,
  if◌then◌else◌, Result, ok, throws, undefined,
}
use blockchain_messaging.Base.Maps.{Map, lookup}
use blockchain_messaging.Core.Block.{uint32_mod}

pub record NetworkState (D : Type 0) : Type 0 where
  pub connected_peers : ℕ
  pub active_validators : ℕ
  pub network_latency : D
  pub message_count : ℕ

pub record Network (D P M : Type 0) : Type 0 where
  pub node_id : Str
  pub port : ℕ
  pub peers : Map P
  pub message_queue : List M
  pub is_running : Bool
  pub state : NetworkState D

-- The cases of the `switch` of handleIncomingMessages, and what is in none of them. TRANSACTION
-- and BLOCK are no enumerators of MessageType.
pub data MessageKind : Type 0 where
  transaction block peer_discovery validation_request other_kind : MessageKind

pub record NetworkExternals (D P M : Type 0) : Type 0 where
  pub send_message : P → M → Result (Unit {0})
  pub latency_of : P → ℕ
  pub kind_of : M → MessageKind
  pub process_transaction : M → Network D P M → Network D P M × Result (Unit {0})
  pub process_block : M → Network D P M → Network D P M × Result (Unit {0})
  pub handle_peer_discovery : M → Network D P M → Network D P M × Result (Unit {0})
  pub handle_validation_request : M → Network D P M → Network D P M × Result (Unit {0})
  pub remove_peer : Str → Network D P M → Network D P M
  pub find_new_peer : Network D P M → Network D P M
  pub handle_network_partition : Network D P M → Network D P M
  pub synchronize_with_peers : Network D P M → Network D P M
  pub measure_network_latency : Network D P M → Network D P M

module _ {D P M : Type 0} where
  unfoldable pub new_network : D → Str → ℕ → Network D P M
  new_network zero_latency node_id port = record {
    node_id = node_id;
    port = port;
    peers = [];
    message_queue = [];
    is_running = false;
    state = record {
      connected_peers = 0;
      active_validators = 0;
      network_latency = zero_latency;
      message_count = 0;
    };
  }

  -- `state.messageCount++`.
  unfoldable pub count_message : Network D P M → Network D P M
  count_message n = record n {
    state = record n.state { message_count = (n.state.message_count + 1) % uint32_mod };
  }

module _ {D P M : Type 0} (x : NetworkExternals D P M) where
  -- Besides, `start` starts the thread of runNetworkLoop.
  unfoldable pub start : Network D P M → Network D P M
  start n =
      if n.is_running
      then n
      else x.measure_network_latency (x.synchronize_with_peers (record n { is_running = true }))

  -- The loop of broadcastMessage over the peers that are still to come. Where removePeer has erased
  -- the peer of this round the iterator of the loop is invalid, and to increment it is undefined.
  unfoldable pub broadcast_to : M → Map P → Network D P M → Network D P M × Result (Unit {0})
  broadcast_to message [] n = (n, ok tt)
  broadcast_to message (p ∷ rest) n = elim (x.send_message (p.1) message) [
    | ok _ ↦ broadcast_to message rest (count_message n)
    | throws e ↦ elim (lookup (p.0) (x.remove_peer (p.0) n).peers) [
      | none ↦ (x.remove_peer (p.0) n, undefined)
      | some _ ↦ broadcast_to message rest (x.remove_peer (p.0) n)
    ]
    | undefined ↦ (n, undefined)
  ]

  unfoldable pub broadcast_message : M → Network D P M → Network D P M × Result (Unit {0})
  broadcast_message message n = broadcast_to message n.peers n

  -- The `switch`.
  unfoldable pub dispatch : M → Network D P M → Network D P M × Result (Unit {0})
  dispatch message n = elim (x.kind_of message) [
    | transaction ↦ x.process_transaction message n
    | block ↦ x.process_block message n
    | peer_discovery ↦ x.handle_peer_discovery message n
    | validation_request ↦ x.handle_validation_request message n
    | other_kind ↦ (n, ok tt)
  ]

  -- The loop of handleIncomingMessages on fuel, `none` where it runs out. A message is popped
  -- before it is handled, and an exception of a handler ends the loop.
  unfoldable pub handle_incoming_messages :
      ℕ → Network D P M → Option (Network D P M × Result (Unit {0}))
  handle_incoming_messages zero n = none
  handle_incoming_messages (suc fuel) n = elim n.message_queue [
    | [] ↦ some (n, ok tt)
    | message ∷ queue ↦
        let r = dispatch message (record n { message_queue = queue }) in
        elim (r.1) [
          | ok _ ↦ handle_incoming_messages fuel (r.0)
          | throws e ↦ some (r.0, throws e)
          | undefined ↦ some (r.0, undefined)
        ]
  ]

  -- The first loop of optimizeConnections.
  unfoldable pub slow_peers : Map P → List Str
  slow_peers [] = []
  slow_peers (p ∷ rest) =
      let ids = slow_peers rest in if ltb 1000 (x.latency_of (p.1)) then p.0 ∷ ids else ids

  -- The second loop.
  unfoldable pub replace_peers : List Str → Network D P M → Network D P M
  replace_peers [] n = n
  replace_peers (id ∷ ids) n = replace_peers ids (x.find_new_peer (x.remove_peer id n))

  unfoldable pub optimize_connections : Network D P M → Network D P M
  optimize_connections n = replace_peers (slow_peers n.peers) n

  -- One round of runNetworkLoop. An exception ends the thread, and with it the program.
  unfoldable pub network_round : ℕ → Network D P M → Option (Network D P M × Result (Unit {0}))
  network_round fuel n = elim (handle_incoming_messages fuel n) [
    | none ↦ none
    | some r ↦ elim (r.1) [
      | ok _ ↦ some (x.handle_network_partition (optimize_connections (r.0)), ok tt)
      | throws e ↦ some (r.0, throws e)
      | undefined ↦ some (r.0, undefined)
    ]
  ]

  -- The loop, on what the other threads do to the network after each of its rounds. `none` says that
  -- it goes on after these, or that the fuel of a round ran out.
  unfoldable pub run_network_loop :
      ℕ
      → List (Network D P M → Network D P M)
      → Network D P M
      → Option (Network D P M × Result (Unit {0}))
  run_network_loop fuel [] n = if n.is_running then none else some (n, ok tt)
  run_network_loop fuel (others ∷ sleeps) n =
      if n.is_running
      then (elim (network_round fuel n) [
        | none ↦ none
        | some r ↦ elim (r.1) [
          | ok _ ↦ run_network_loop fuel sleeps (others (r.0))
          | throws e ↦ some (r.0, throws e)
          | undefined ↦ some (r.0, undefined)
        ]
      ])
      else some (n, ok tt)
