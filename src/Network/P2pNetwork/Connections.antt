-- ===== src/Network/P2pNetwork/Connections.antt =====
-- The replacement of slow peers.
use blockchain_messaging.Base.{
  ◌≡◌, refl, List, [], ◌∷◌, Bool, false, none, some, Str, str_eq, str_eq_iff, any, ltb,
  if◌then◌else◌, arith,
}
use blockchain_messaging.Base.Maps.{Map, lookup, DistinctKeys}
use blockchain_messaging.Network.P2pNetwork.{
  Network, NetworkExternals, slow_peers, replace_peers, optimize_connections,
}

module _ {D P M : Type 0} (x : NetworkExternals D P M) where
  -- removePeer removes the peer and no other one.
  abbrev pub RemovesOne : Type 0
  RemovesOne =
      (id j : Str) (n : Network D P M)
      → lookup j (x.remove_peer id n).peers ≡ (if str_eq id j then none else lookup j n.peers)

  -- findNewPeer leaves a peer that was connected before.
  abbrev pub FindsNew : Map P → Type 0
  FindsNew old =
      (j : Str) (p : P) (n : Network D P M)
      → lookup j old ≡ some p
      → lookup j (x.find_new_peer n).peers ≡ lookup j n.peers

  abbrev is_in : Str → List Str → Bool
  is_in j ids = any (λ id. str_eq id j) ids

  lookup-replace_peers :
      (old : Map P) (j : Str) (p : P)
      → RemovesOne
      → FindsNew old
      → lookup j old ≡ some p
      → (ids : List Str) (n : Network D P M)
      → lookup j (replace_peers x ids n).peers ≡ (if is_in j ids then none else lookup j n.peers)
  unfolding replace_peers
  lookup-replace_peers old j p removes finds h [] n = refl
  lookup-replace_peers old j p removes finds h (id ∷ ids) n =
      let rest =
        lookup-replace_peers old j p removes finds h ids (x.find_new_peer (x.remove_peer id n)) in
      ground (arith, rest, finds j p (x.remove_peer id n) h, removes id j n)

  slow_peers_missing :
      (j : Str) (ps : Map P) → lookup j ps ≡ none → is_in j (slow_peers x ps) ≡ false
  unfolding slow_peers lookup
  slow_peers_missing j [] h = refl
  slow_peers_missing j (p ∷ ps) h = ground (arith, slow_peers_missing j ps)

  is_in-slow_peers :
      (ps : Map P) (j : Str) (p : P)
      → DistinctKeys ps
      → lookup j ps ≡ some p
      → is_in j (slow_peers x ps) ≡ ltb 1000 (x.latency_of p)
  unfolding slow_peers lookup
  is_in-slow_peers [] j p d h = absurd (cc)
  is_in-slow_peers (q ∷ ps) j p d h =
      ground (arith, is_in-slow_peers ps j p d.1, slow_peers_missing j ps, str_eq_iff (q.0) j, d.0)

  -- Where removePeer removes exactly the peer it is called for, and findNewPeer leaves the peers
  -- that were connected before, optimizeConnections removes of those the ones whose latency is above
  -- 1000 ms, and keeps all others.
  lookup-optimize_connections :
      (n : Network D P M) (j : Str) (p : P)
      → RemovesOne
      → FindsNew n.peers
      → DistinctKeys n.peers
      → lookup j n.peers ≡ some p
      → lookup j (optimize_connections x n).peers
        ≡ (if ltb 1000 (x.latency_of p) then none else some p)
  unfolding optimize_connections
  lookup-optimize_connections n j p removes finds d h = ground (
    arith,
    lookup-replace_peers n.peers j p removes finds h (slow_peers x n.peers) n,
    is_in-slow_peers n.peers j p d h,
  )
