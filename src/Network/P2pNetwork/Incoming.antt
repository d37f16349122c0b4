-- ===== src/Network/P2pNetwork/Incoming.antt =====
-- The handling of the queue of incoming messages.
use blockchain_messaging.Base.{
  ℕ, zero, suc, ◌<◌, ◌≡◌, ◌≢◌, ◌⊎◌, refl, sym, ap, inl, inr, List, [], ◌∷◌, ◌++◌, some, length,
  Result, ok, throws, undefined, Result-cases, arith,
}
use blockchain_messaging.Network.P2pNetwork.{
  Network, NetworkExternals, dispatch, handle_incoming_messages,
}

module _ {D P M : Type 0} (x : NetworkExternals D P M) where
  -- Handling a message leaves the queue.
  abbrev pub LeavesQueue : Type 0
  LeavesQueue =
      (message : M) (n : Network D P M) → (dispatch x message n).0.message_queue ≡ n.message_queue

  abbrev pub with_queue : List M → Network D P M → Network D P M
  with_queue queue n = record n { message_queue = queue }

  -- The messages handled one after the other, each popped before, up to the first whose handler
  -- does not return.
  abbrev pub handle_all : List M → Network D P M → Network D P M × Result (Unit {0})
  handle_all [] n = (n, ok tt)
  handle_all (message ∷ queue) n =
      let r = dispatch x message (with_queue queue n) in
      elim (r.1) [
        | ok _ ↦ handle_all queue (r.0)
        | throws e ↦ (r.0, throws e)
        | undefined ↦ (r.0, undefined)
      ]

  handle_incoming_messages_from :
      LeavesQueue
      → (fuel : ℕ) (queue : List M) (n : Network D P M) → n.message_queue ≡ queue
      → length queue < fuel
      → handle_incoming_messages x fuel n ≡ some (handle_all queue n)
  unfolding handle_incoming_messages
  handle_incoming_messages_from leaves zero queue n e h = absurd (omega arith)
  handle_incoming_messages_from leaves (suc fuel) [] n e h = ground arith
  handle_incoming_messages_from leaves (suc fuel) (message ∷ queue) n e h =
      elim (Result-cases ((dispatch x message (with_queue queue n)).1)) [
        | inl (_, d) ↦
            rw (e, d, handle_incoming_messages, handle_all)
              (handle_incoming_messages_from leaves fuel queue _
                (leaves message (with_queue queue n)) (omega arith))
        | inr (inl (f, d)) ↦ rw (e, d, handle_incoming_messages, handle_all) refl
        | inr (inr d) ↦ rw (e, d, handle_incoming_messages, handle_all) refl
      ]

  -- What is left of a queue: nothing where the handling returns, and otherwise the messages after
  -- the one that was handled last.
  abbrev pub Remains : List M → Network D P M × Result (Unit {0}) → Type 0
  Remains queue r =
      ((r.1 ≡ ok tt) × (r.0.message_queue ≡ []))
      ⊎ ((r.1 ≢ ok tt)
          × ((before : List M) × (message : M) × (queue ≡ before ++ message ∷ r.0.message_queue)))

  cons-Remains :
      (message : M) (queue : List M) (r : Network D P M × Result (Unit {0}))
      → Remains queue r
      → Remains (message ∷ queue) r
  cons-Remains message queue r (inl h) = inl h
  cons-Remains message queue r (inr (h, (before, last, e))) =
      inr (h, (message ∷ before, last, ap (◌∷◌ message) e))

  stopped-Remains :
      (message : M) (queue : List M) (r : Network D P M × Result (Unit {0}))
      → r.1 ≢ ok tt
      → r.0.message_queue ≡ queue
      → Remains (message ∷ queue) r
  stopped-Remains message queue r h e = inr (h, ([], message, ap (◌∷◌ message) (sym e)))

  handle_all-Remains :
      LeavesQueue
      → (queue : List M) (n : Network D P M) → n.message_queue ≡ queue
      → Remains queue (handle_all queue n)
  handle_all-Remains leaves [] n e = inl (refl, e)
  handle_all-Remains leaves (message ∷ queue) n e =
      elim (Result-cases ((dispatch x message (with_queue queue n)).1)) [
        | inl (_, d) ↦
            rw (d, handle_all)
              (cons-Remains message queue
                (handle_all queue ((dispatch x message (with_queue queue n)).0))
                (handle_all-Remains leaves queue ((dispatch x message (with_queue queue n)).0)
                  (leaves message (with_queue queue n))))
        | inr (inl (f, d)) ↦
            rw (d, handle_all)
              (stopped-Remains message queue ((dispatch x message (with_queue queue n)).0, throws f)
                (λ q. cc q) (leaves message (with_queue queue n)))
        | inr (inr d) ↦
            rw (d, handle_all)
              (stopped-Remains message queue
                ((dispatch x message (with_queue queue n)).0, undefined) (λ q. cc q)
                (leaves message (with_queue queue n)))
      ]

  -- Where handling a message leaves the queue, fuel above the number of the messages that wait is
  -- enough, and the loop handles these in order, each popped before, up to the first whose handler
  -- does not return. Where the loop returns, the queue is empty; where it does not, the queue has the
  -- messages after that one.
  pub handle_incoming_messages-handle_all :
      (n : Network D P M) (fuel : ℕ)
      → LeavesQueue
      → length n.message_queue < fuel
      → (handle_incoming_messages x fuel n ≡ some (handle_all n.message_queue n))
        × Remains n.message_queue (handle_all n.message_queue n)
  handle_incoming_messages-handle_all n fuel leaves h = (
    handle_incoming_messages_from leaves fuel n.message_queue n refl h,
    handle_all-Remains leaves n.message_queue n refl,
  )
