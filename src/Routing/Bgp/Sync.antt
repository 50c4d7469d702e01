-- ===== src/Routing/Bgp/Sync.antt =====
-- The peers that SyncRoutes of pkg/routing/bgp.go leaves behind.
use coordino.Base.{ℕ, ◌≡◌, refl, ap, ◌∙◌, Bytes, bytes_eq, Option, none, some, List, [], ◌∷◌, arith}
use coordino.Base.GoMap.{GoMap, lookup, Distinct, lookup-insert, lookup-delete}
use coordino.Routing.{NodeInfo, new_node_map}
use coordino.Routing.Desired.{wanted, or_else, new_node_map-Distinct, lookup-desired}
use coordino.Routing.Bgp.{
  BgpPeer, BgpBackend, peer_of, remove_stale, put_nodes, sync_routes, drop_peer, put_as,
}

-- The peer that stands for a wanted node.
abbrev pub peer_for : ℕ → Option NodeInfo → Option BgpPeer
peer_for now none = none
peer_for now (some n) = some (peer_of now n)

-- A peer outlives the first loop if it is desired or was not visited.
abbrev survives : Option NodeInfo → Option BgpPeer → Option BgpPeer → Option BgpPeer
survives (some n) visited old = old
survives none (some p) old = none
survives none none old = old

lookup-remove_stale :
    (d : GoMap Bytes NodeInfo) (ps : GoMap Bytes BgpPeer) (b : BgpBackend) (name : Bytes)
    → lookup name (remove_stale d ps b).peers
      ≡ survives (lookup name d) (lookup name ps) (lookup name b.peers)
unfolding remove_stale lookup
lookup-remove_stale d [] b name = ground arith
lookup-remove_stale d ((j, p) ∷ ps) b name = ground (
  arith,
  lookup-remove_stale d ps b name,
  lookup-remove_stale d ps (drop_peer j p b) name,
  lookup-delete j name b.peers,
  bytes_eq.beq_iff j name,
  λ (e : j ≡ name). ap (λ x. lookup x d) e,
)

lookup-put_nodes :
    (now : ℕ) (d : GoMap Bytes NodeInfo) (b : BgpBackend) (name : Bytes)
    → Distinct d
    → lookup name (put_nodes now d b).peers
      ≡ or_else (peer_for now (lookup name d)) (lookup name b.peers)
unfolding put_nodes lookup
lookup-put_nodes now [] b name h = refl
lookup-put_nodes now ((j, n) ∷ d) b name h = ground (
  arith,
  lookup-put_nodes now d (put_as now j n b) name h.1,
  lookup-insert j name (peer_of now n) b.peers,
  bytes_eq.beq_iff j name,
  λ (e : j ≡ name). ap (λ x. lookup x d) e,
)

one_survivor :
    (now : ℕ) (w : Option NodeInfo) (old : Option BgpPeer)
    → or_else (peer_for now w) (survives w old old) ≡ peer_for now w
one_survivor now none none = refl
one_survivor now none (some p) = refl
one_survivor now (some n) old = refl

-- After SyncRoutes of the BGP backend the peer of a name is the last node of that name in the list,
-- if that node is not the local one, and there is no peer of any other name, whatever the peers were
-- before.
pub sync_routes_peers :
    (now : ℕ) (nodes : List NodeInfo) (b : BgpBackend) (name : Bytes)
    → lookup name (sync_routes now nodes b).peers
      ≡ peer_for now (wanted b.local_node.name nodes name)
unfolding sync_routes lookup
sync_routes_peers now nodes b name =
    let local = b.local_node.name in
    let d = new_node_map local nodes [] in
    lookup-put_nodes now d (remove_stale d b.peers b) name (new_node_map-Distinct local nodes [] tt)
    ∙ rw (lookup-remove_stale d b.peers b name, lookup-desired local nodes name)
        (one_survivor now (wanted local nodes name) (lookup name b.peers))
