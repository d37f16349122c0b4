-- ===== src/Network/P2pNetwork/Broadcast.antt =====
-- Broadcasts, and what one unreachable peer does to them.
use blockchain_messaging.Base.{
  ℕ, suc, ◌+◌, ◌%◌, ◌<◌, ◌≡◌, ◌≢◌, refl, sym, ap, ◌∙◌, inl, inr, [], ◌∷◌, ◌++◌, none, Str, length,
  All, Error, Result, ok, throws, undefined, Result-cases, arith,
}
use blockchain_messaging.Base.Maps.{Map, lookup}
use blockchain_messaging.Core.Block.{uint32_mod}
use blockchain_messaging.Network.P2pNetwork.{
  Network, NetworkExternals, count_message, broadcast_to, broadcast_message,
}

module _ {D P M : Type 0} (x : NetworkExternals D P M) (message : M) where
  -- removePeer removes the peer.
  abbrev pub RemovesPeer : Type 0
  RemovesPeer = (id : Str) (n : Network D P M) → lookup id (x.remove_peer id n).peers ≡ none

  -- Sending returns or throws.
  abbrev pub SendReturns : Type 0
  SendReturns = (p : P) → x.send_message p message ≢ undefined

  abbrev pub Receives : Str × P → Type 0
  Receives p = x.send_message (p.1) message ≡ ok tt

  -- The network after so many messages.
  abbrev pub counted : ℕ → Network D P M → Network D P M
  counted k n = record n {
    state = record n.state { message_count = (n.state.message_count + k) % uint32_mod };
  }

  -- All peers receive the message; or the sending to one throws, the first one that fails.
  pub data Outcome (n : Network D P M) (ps : Map P) (r : Network D P M × Result (Unit {0}))
      : Type 0 where
    all_sent : All Receives ps → r ≡ (counted (length ps) n, ok tt) → Outcome n ps r
    one_failed :
        (before after : Map P) (p : Str × P) (e : Error)
        → ps ≡ before ++ p ∷ after
        → All Receives before
        → x.send_message (p.1) message ≡ throws e
        → r ≡ (x.remove_peer (p.0) (counted (length before) n), undefined)
        → Outcome n ps r

  counted-count : (k : ℕ) (n : Network D P M) → counted k (count_message n) ≡ counted (suc k) n
  unfolding count_message
  counted-count k n =
      ap (λ (c : ℕ). record n { state = record n.state { message_count = c } })
        (wrapped n.state.message_count k)
    where
      wrapped : (c k : ℕ) → ((c + 1) % uint32_mod + k) % uint32_mod ≡ (c + suc k) % uint32_mod
      wrapped c k = omega arith

  counted_zero : (n : Network D P M) → n.state.message_count < uint32_mod → counted 0 n ≡ n
  counted_zero n h =
      ap (λ (c : ℕ). record n { state = record n.state { message_count = c } })
        (unwrapped n.state.message_count h)
    where
      unwrapped : (c : ℕ) → c < uint32_mod → (c + 0) % uint32_mod ≡ c
      unwrapped c h = omega arith

  count_message_bound : (n : Network D P M) → (count_message n).state.message_count < uint32_mod
  unfolding count_message
  count_message_bound n = wrapped n.state.message_count
    where
      wrapped : (c : ℕ) → (c + 1) % uint32_mod < uint32_mod
      wrapped c = omega arith

  -- One more peer before those that an outcome is about.
  cons-Outcome :
      (p : Str × P) (ps : Map P) (n : Network D P M) (r : Network D P M × Result (Unit {0}))
      → Receives p
      → Outcome (count_message n) ps r
      → Outcome n (p ∷ ps) r
  cons-Outcome p ps n r h (all_sent received e) =
      all_sent (h, received) (e ∙ ap (λ s. (s, ok tt)) (counted-count (length ps) n))
  cons-Outcome p ps n r h (one_failed before after q e split received failed result) =
      one_failed (p ∷ before) after q e (ap (◌∷◌ p) split) (h, received) failed
        (result ∙ ap (λ s. (x.remove_peer (q.0) s, undefined)) (counted-count (length before) n))

  broadcast_to-Outcome :
      RemovesPeer
      → SendReturns
      → (ps : Map P) (n : Network D P M) → n.state.message_count < uint32_mod
      → Outcome n ps (broadcast_to x message ps n)
  unfolding broadcast_to
  broadcast_to-Outcome removes returns [] n h =
      all_sent tt (ap (λ s. (s, ok tt)) (sym (counted_zero n h)))
  broadcast_to-Outcome removes returns (p ∷ ps) n h =
      elim (Result-cases (x.send_message (p.1) message)) [
        | inl (_, sent) ↦
            rw (sent, broadcast_to)
              (cons-Outcome p ps n _ sent
                (broadcast_to-Outcome removes returns ps (count_message n) (count_message_bound n)))
        | inr (inl (e, failed)) ↦
            rw (failed, removes (p.0) n, broadcast_to)
              (one_failed [] ps p e refl tt failed
                (ap (λ s. (x.remove_peer (p.0) s, undefined)) (sym (counted_zero n h))))
        | inr (inr undef) ↦ absurd (returns (p.1) undef)
      ]

  -- Where sending a message returns or throws, and removePeer removes the peer, a broadcast either
  -- has sent the message to every peer, and returns with the message count higher by the number of
  -- peers, modulo 2^32; or it has sent it to the peers before the first one to which sending throws,
  -- and has removed that one, and goes on with an invalid iterator, which is undefined.
  pub broadcast_message-Outcome :
      (n : Network D P M)
      → RemovesPeer
      → SendReturns
      → n.state.message_count < uint32_mod
      → Outcome n n.peers (broadcast_message x message n)
  unfolding broadcast_message
  broadcast_message-Outcome n removes returns h = broadcast_to-Outcome removes returns n.peers n h
