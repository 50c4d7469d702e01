-- ===== src/Routing/Bgp/Nodes.antt =====
-- AddNode, UpdateNode and RemoveNode of pkg/routing/bgp.go together.
use coordino.Base.{
  ℕ, ◌≡◌, ◌≢◌, refl, sym, ap, ◌∙◌, Bytes, bytes_eq, true, none, some, if◌then◌else◌, beq_of_ne,
  beq_refl,
}
use mathlib.Core.Path.{ap₂}
use coordino.Base.GoMap.{
  lookup, lookup-insert, lookup-delete, lookup-insert_self, delete-insert_fresh,
}
use coordino.Routing.{NodeInfo, Error}
use coordino.Routing.Bgp.{
  BgpPeer, BgpBackend, peer_of, route_of, put_as, drop_peer, drop_route, add_node, remove_node,
  update_node,
}

remove_node_known :
    (name : Bytes) (peer : BgpPeer) (b : BgpBackend)
    → lookup name b.peers ≡ some peer
    → remove_node name b ≡ drop_peer name peer b
unfolding remove_node
remove_node_known name peer b e = simp (e, remove_node)

drop_peer-put_as :
    (now : ℕ) (node : NodeInfo) (b : BgpBackend)
    → lookup node.name b.peers ≡ none
    → lookup node.pod_cidr b.routes ≡ none
    → drop_peer node.name (peer_of now node) (put_as now node.name node b) ≡ b
drop_peer-put_as now node b p q =
    ap₂ (λ x y. record b { peers = x; routes = y })
      (delete-insert_fresh node.name (peer_of now node) b.peers p)
      (delete-insert_fresh node.pod_cidr (route_of node) b.routes q)

-- In a running BGP backend that knows neither the node's name nor its pod CIDR, AddNode succeeds and
-- RemoveNode after it gives the backend back as it was.
pub remove_node-add_node :
    (now : ℕ) (node : NodeInfo) (b : BgpBackend)
    → b.running ≡ true
    → lookup node.name b.peers ≡ none
    → lookup node.pod_cidr b.routes ≡ none
    → (add_node now node b).1 ≡ none × remove_node node.name (add_node now node b).0 ≡ b
unfolding add_node remove_node
remove_node-add_node now node b r p q =
    let added : add_node now node b ≡ (put_as now node.name node b, none) =
      ap (λ x. if x then (put_as now node.name node b, none) else (b, some Error.not_running)) r in
    (
      ap (λ x. x.1) added,
      ap (λ x. remove_node node.name x.0) added
          ∙ remove_node_known node.name (peer_of now node) (put_as now node.name node b)
              (lookup-insert_self node.name (peer_of now node) b.peers)
          ∙ drop_peer-put_as now node b p q,
    )

-- UpdateNode of the BGP backend, for a node that is known under another pod CIDR, records the node's
-- new description and the route to its new CIDR, and leaves no route to the old one.
pub update_node_lem :
    (now : ℕ) (node : NodeInfo) (b : BgpBackend) (old : BgpPeer)
    → lookup node.name b.peers ≡ some old
    → old.node_info.pod_cidr ≢ node.pod_cidr
    → (let c = update_node now node b in
        (lookup node.name c.peers ≡ some (peer_of now node))
        × (lookup node.pod_cidr c.routes ≡ some (route_of node))
        × (lookup old.node_info.pod_cidr c.routes ≡ none))
unfolding update_node
update_node_lem now node b old l ne =
    let left = drop_route (lookup node.name b.peers) b.routes in
    (
      lookup-insert_self node.name (peer_of now node) b.peers,
      lookup-insert_self node.pod_cidr (route_of node) left,
      lookup-insert node.pod_cidr old.node_info.pod_cidr (route_of node) left
          ∙ rw (beq_of_ne node.pod_cidr old.node_info.pod_cidr (λ e. ne (sym e)), l)
              (lookup-delete old.node_info.pod_cidr old.node_info.pod_cidr b.routes
                ∙ rw (beq_refl old.node_info.pod_cidr) refl),
    )
