-- ===== src/Routing/Bgp/Routes.antt =====
-- The routes that SyncRoutes of pkg/routing/bgp.go leaves behind.
use coordino.Base.{
  ℕ, ◌≡◌, ◌≢◌, refl, sym, ap, ◌∙◌, inl, inr, Bytes, bytes_eq, none, some, List, [], ◌∷◌, arith,
  ◌==◌, Bool-cases, Option-cases, eq_of_beq, beq_of_ne,
}
use coordino.Base.GoMap.{
  GoMap, lookup, insert, Distinct, lookup-insert, lookup-delete, at_head, at_tail,
  lookup-insert_self,
}
use coordino.Routing.{NodeInfo, new_node_map}
use coordino.Routing.Desired.{wanted, new_node_map-Distinct, lookup-desired}
use coordino.Routing.Bgp.{
  BgpPeer, BgpBackend, route_of, remove_stale, put_nodes, sync_routes, drop_peer, put_as,
}

-- No entry of the map but that of one name has the CIDR.
abbrev pub IsOnly : Bytes → Bytes → GoMap Bytes NodeInfo → Type 0
IsOnly cidr name d = (j : Bytes) (n : NodeInfo) → lookup j d ≡ some n → n.pod_cidr ≡ cidr → j ≡ name

route-put_nodes_absent :
    (now : ℕ) (d : GoMap Bytes NodeInfo) (b : BgpBackend) (cidr : Bytes)
    → Distinct d
    → ((j : Bytes) (n : NodeInfo) → lookup j d ≡ some n → n.pod_cidr ≢ cidr)
    → lookup cidr (put_nodes now d b).routes ≡ lookup cidr b.routes
unfolding put_nodes lookup
route-put_nodes_absent now [] b cidr h u = refl
route-put_nodes_absent now ((j, n) ∷ d) b cidr h u =
    route-put_nodes_absent now d (put_as now j n b) cidr h.1
      (λ i x l. u i x (at_tail j i n d h.0 l))
    ∙ lookup-insert n.pod_cidr cidr (route_of n) b.routes
    ∙ rw (beq_of_ne n.pod_cidr cidr (u j n (at_head j n d))) refl

route-remove_stale :
    (d : GoMap Bytes NodeInfo) (ps : GoMap Bytes BgpPeer) (b : BgpBackend) (cidr : Bytes)
    → Distinct ps
    → ((j : Bytes) (p : BgpPeer)
        → lookup j ps ≡ some p
        → lookup j d ≡ none
        → p.node_info.pod_cidr ≢ cidr)
    → lookup cidr (remove_stale d ps b).routes ≡ lookup cidr b.routes
unfolding remove_stale lookup
route-remove_stale d [] b cidr h u = refl
route-remove_stale d ((j, p) ∷ ps) b cidr h u =
    let more = λ (i : Bytes) (x : BgpPeer) (l : lookup i ps ≡ some x) (g : lookup i d ≡ none).
      u i x (at_tail j i p ps h.0 l) g in
    elim (Option-cases (lookup j d)) [
      | inr (n, e) ↦ rw (e, remove_stale) (route-remove_stale d ps b cidr h.1 more)
      | inl e ↦
          rw (e, remove_stale)
            (route-remove_stale d ps (drop_peer j p b) cidr h.1 more
              ∙ lookup-delete p.node_info.pod_cidr cidr b.routes
              ∙ rw (beq_of_ne p.node_info.pod_cidr cidr (u j p (at_head j p ps) e)) refl)
    ]

route-put_nodes :
    (now : ℕ) (d : GoMap Bytes NodeInfo) (b : BgpBackend) (name : Bytes) (n : NodeInfo)
    → Distinct d
    → lookup name d ≡ some n
    → IsOnly n.pod_cidr name d
    → lookup n.pod_cidr (put_nodes now d b).routes ≡ some (route_of n)
unfolding put_nodes lookup
route-put_nodes now [] b name n h l u = cc
route-put_nodes now ((j, x) ∷ d) b name n h l u = elim (Bool-cases (j == name)) [
  | inl e ↦
      let same : x ≡ n = ground arith in
      let fresh : (i : Bytes) (y : NodeInfo) → lookup i d ≡ some y → y.pod_cidr ≢ n.pod_cidr =
        λ i y g c.
          let at_name = u i y (at_tail j i x d h.0 g) c ∙ sym (eq_of_beq j name e) in
          ground (arith, h.0, g, ap (λ k. lookup k d) at_name) in
      route-put_nodes_absent now d (put_as now j x b) n.pod_cidr h.1 fresh
      ∙ ap (λ y. lookup n.pod_cidr (insert y.pod_cidr (route_of y) b.routes)) same
      ∙ lookup-insert_self n.pod_cidr (route_of n) b.routes
  | inr e ↦
      route-put_nodes now d (put_as now j x b) name n h.1 (ground arith)
        (λ i y g. u i y (at_tail j i x d h.0 g))
]

-- After SyncRoutes of the BGP backend the route to the pod CIDR of a wanted node leads to that node,
-- if no other wanted node has the same pod CIDR.
pub sync_routes_route :
    (now : ℕ) (nodes : List NodeInfo) (b : BgpBackend) (name : Bytes) (n : NodeInfo)
    → wanted b.local_node.name nodes name ≡ some n
    → ((j : Bytes) (m : NodeInfo)
        → wanted b.local_node.name nodes j ≡ some m
        → m.pod_cidr ≡ n.pod_cidr
        → j ≡ name)
    → lookup n.pod_cidr (sync_routes now nodes b).routes ≡ some (route_of n)
unfolding sync_routes lookup
sync_routes_route now nodes b name n w u =
    let local = b.local_node.name in
    let d = new_node_map local nodes [] in
    route-put_nodes now d (remove_stale d b.peers b) name n
      (new_node_map-Distinct local nodes [] tt) (lookup-desired local nodes name ∙ w)
      (λ j m l. u j m (sym (lookup-desired local nodes j) ∙ l))

-- Where no name occurs twice among the peers, SyncRoutes of the BGP backend leaves the route of a
-- CIDR as it was, if the CIDR is neither of a wanted node nor of a peer that is no longer wanted. So
-- the route to the old CIDR of a node that changed its CIDR stays.
pub sync_routes_stale :
    (now : ℕ) (nodes : List NodeInfo) (b : BgpBackend) (cidr : Bytes)
    → Distinct b.peers
    → ((j : Bytes) (n : NodeInfo) → wanted b.local_node.name nodes j ≡ some n → n.pod_cidr ≢ cidr)
    → ((j : Bytes) (p : BgpPeer)
        → lookup j b.peers ≡ some p
        → wanted b.local_node.name nodes j ≡ none
        → p.node_info.pod_cidr ≢ cidr)
    → lookup cidr (sync_routes now nodes b).routes ≡ lookup cidr b.routes
unfolding sync_routes lookup
sync_routes_stale now nodes b cidr h u v =
    let local = b.local_node.name in
    let d = new_node_map local nodes [] in
    let there = λ (j : Bytes). sym (lookup-desired local nodes j) in
    route-put_nodes_absent now d (remove_stale d b.peers b) cidr
      (new_node_map-Distinct local nodes [] tt) (λ j n l. u j n (there j ∙ l))
    ∙ route-remove_stale d b.peers b cidr h (λ j p l g. v j p l (there j ∙ g))
