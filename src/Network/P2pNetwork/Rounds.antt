-- ===== src/Network/P2pNetwork/Rounds.antt =====
-- A round of P2PNetwork::runNetworkLoop.
use blockchain_messaging.Base.{
  ◌<◌, ◌≡◌, ◌≢◌, refl, sym, inl, inr, List, [], ◌∷◌, ◌++◌, some, ℕ, length, Result, ok, throws,
  undefined,
}
use blockchain_messaging.Network.P2pNetwork.{
  Network, NetworkExternals, handle_incoming_messages, optimize_connections, network_round,
}
use blockchain_messaging.Network.P2pNetwork.Incoming.{
  LeavesQueue, handle_all, Remains, handle_incoming_messages-handle_all,
}

module _ {D P M : Type 0} (x : NetworkExternals D P M) where
  -- The ways in which a round can end. `handle_all` handles messages in order, each popped before,
  -- up to the first whose handler does not return.
  pub data Round (n : Network D P M) (r : Network D P M × Result (Unit {0})) : Type 0 where
    completed :
        (m : Network D P M)
        → handle_all x n.message_queue n ≡ (m, ok tt)
        → m.message_queue ≡ []
        → r ≡ (x.handle_network_partition (optimize_connections x m), ok tt)
        → Round n r
    stopped :
        (before after : List M) (message : M)
        → n.message_queue ≡ before ++ message ∷ after
        → r.1 ≢ ok tt
        → r.0.message_queue ≡ after
        → r ≡ handle_all x n.message_queue n
        → Round n r

  after_incoming : Network D P M × Result (Unit {0}) → Network D P M × Result (Unit {0})
  after_incoming (m, ok _) = (x.handle_network_partition (optimize_connections x m), ok tt)
  after_incoming (m, throws e) = (m, throws e)
  after_incoming (m, undefined) = (m, undefined)

  network_round-after :
      (fuel : ℕ) (n : Network D P M) (r : Network D P M × Result (Unit {0}))
      → handle_incoming_messages x fuel n ≡ some r
      → network_round x fuel n ≡ some (after_incoming r)
  unfolding network_round after_incoming
  network_round-after fuel n (m, ok _) e = rw (e, network_round) refl
  network_round-after fuel n (m, throws f) e = rw (e, network_round) refl
  network_round-after fuel n (m, undefined) e = rw (e, network_round) refl

  after_incoming-Round :
      (n : Network D P M) (r : Network D P M × Result (Unit {0}))
      → handle_all x n.message_queue n ≡ r
      → Remains x n.message_queue r
      → Round n (after_incoming r)
  unfolding after_incoming
  after_incoming-Round n (m, ok _) h (inl (_, e)) = completed m h e refl
  after_incoming-Round n (m, throws f) h (inl (d, e)) = absurd (cc)
  after_incoming-Round n (m, undefined) h (inl (d, e)) = absurd (cc)
  after_incoming-Round n (m, ok _) h (inr (d, rest)) = absurd (d refl)
  after_incoming-Round n (m, throws f) h (inr (d, (before, message, e))) =
      stopped before m.message_queue message e d refl (sym h)
  after_incoming-Round n (m, undefined) h (inr (d, (before, message, e))) =
      stopped before m.message_queue message e d refl (sym h)

  -- Where handling a message leaves the queue, fuel above the number of the messages that wait is
  -- enough for a round. It handles these messages in order, each popped before, and if all handlers
  -- return, the queue is empty, and the connections are optimized and partitions handled. Otherwise
  -- it ends with the first handler that does not return, as this one ends: the messages after that
  -- one wait, and the connections are not optimized.
  pub network_round-Round :
      (n : Network D P M) (fuel : ℕ)
      → LeavesQueue x
      → length n.message_queue < fuel
      → (r : Network D P M × Result (Unit {0})) × (network_round x fuel n ≡ some r) × Round n r
  network_round-Round n fuel leaves h =
      let all = handle_all x n.message_queue n in
      let (e, remains) = handle_incoming_messages-handle_all x n fuel leaves h in
      (
        after_incoming all,
        network_round-after fuel n all e,
        after_incoming-Round n all refl remains,
      )
