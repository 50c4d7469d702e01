-- ===== src/Examples/Routes.antt =====
-- Examples for pkg/routing: a local node and two remote nodes.
use coordino.Base.{
  ◌≡◌, ◌≢◌, refl, sym, ap, ◌∙◌, ne_of_beq, arith, true, none, some, List, [], ◌∷◌, Bytes, bytes,
  bytes_eq, bytes_beq, inl, inr, Bool-cases, ◌==◌, eq_of_beq,
}
use coordino.Base.Decimal.{pos}
use coordino.Base.GoMap.{lookup, Distinct}
use coordino.Routing.{NodeInfo}
use coordino.Routing.Desired.{wanted}
use coordino.Routing.Bgp.{
  BgpPeer, BgpBackend, peer_of, route_of, add_node, remove_node, update_node, sync_routes,
}
use coordino.Routing.Bgp.Sync.{peer_for, sync_routes_peers}
use coordino.Routing.Bgp.Routes.{sync_routes_route, sync_routes_stale}
use coordino.Routing.Bgp.Nodes.{remove_node-add_node, update_node_lem}
use coordino.Routing.Vxlan.{
  VxlanConfig, VxlanBackend, FdbEntry, new_vxlan_backend, put_node, drop_node,
}
use coordino.Routing.Vxlan.Mirror.{Call, run, IsMirrored, run-IsMirrored}
use coordino.Routing.Vxlan.Mac.{mac_reused}

abbrev node_info : Bytes → Bytes → Bytes → NodeInfo
node_info name cidr ip = record { name = name; pod_cidr = cidr; node_ip = ip; public_ip = [] }

abbrev here : NodeInfo
here = node_info (bytes "h") (bytes "10.0.0.0/24") (bytes "1.1.1.1")

abbrev node_a : NodeInfo
node_a = node_info (bytes "a") (bytes "10.0.1.0/24") (bytes "1.1.1.2")

-- Node a after its pod CIDR changed.
abbrev moved_a : NodeInfo
moved_a = node_info (bytes "a") (bytes "10.0.9.0/24") (bytes "1.1.1.2")

abbrev node_b : NodeInfo
node_b = node_info (bytes "b") (bytes "10.0.2.0/24") (bytes "1.1.1.3")

abbrev node_c : NodeInfo
node_c = node_info (bytes "c") (bytes "10.0.3.0/24") (bytes "1.1.1.4")

-- A running backend that knows node a.
abbrev backend : BgpBackend
backend = record {
  config = record {
    local_asn = 0;
    router_id = [];
    peer_asn = 0;
    peer_address = [];
    hold_time = pos 0;
  };
  local_node = here;
  peers = (node_a.name, peer_of 3 node_a) ∷ [];
  routes = (node_a.pod_cidr, route_of node_a) ∷ [];
  running = true;
}

sync_routes_peers_example :
    lookup node_b.name (sync_routes 4 (here ∷ node_b ∷ []) backend).peers
    ≡ peer_for 4 (wanted here.name (here ∷ node_b ∷ []) node_b.name)
sync_routes_peers_example = sync_routes_peers 4 (here ∷ node_b ∷ []) backend node_b.name

-- The only wanted node of a list of one.
only_wanted :
    (local : Bytes) (n m : NodeInfo) (j : Bytes)
    → wanted local (n ∷ []) j ≡ some m
    → (m ≡ n) × (j ≡ n.name)
only_wanted local n m j h = elim (Bool-cases (n.name == j)) [
  | inl e ↦ (ground (arith, h), sym (eq_of_beq n.name j e))
  | inr e ↦ absurd (ground (arith, h, e))
]

wants_b : wanted here.name (node_b ∷ []) node_b.name ≡ some node_b
unfolding bytes_beq
wants_b = refl

sync_routes_route_example :
    lookup node_b.pod_cidr (sync_routes 4 (node_b ∷ []) backend).routes ≡ some (route_of node_b)
sync_routes_route_example =
    sync_routes_route 4 (node_b ∷ []) backend node_b.name node_b wants_b
      (λ j m w c. (only_wanted here.name node_b m j w).1)

backend-Distinct : Distinct backend.peers
unfolding lookup
backend-Distinct = (refl, tt)

cidr_moved : node_a.pod_cidr ≢ moved_a.pod_cidr
unfolding bytes_beq
cidr_moved = ne_of_beq node_a.pod_cidr moved_a.pod_cidr refl

moved_only :
    (j : Bytes) (n : NodeInfo)
    → wanted here.name (moved_a ∷ []) j ≡ some n
    → n.pod_cidr ≢ node_a.pod_cidr
moved_only j n w e =
    cidr_moved (sym e ∙ ap (λ (x : NodeInfo). x.pod_cidr) (only_wanted here.name moved_a n j w).0)

none_left :
    (j : Bytes) (p : BgpPeer)
    → lookup j backend.peers ≡ some p
    → wanted here.name (moved_a ∷ []) j ≡ none
    → p.node_info.pod_cidr ≢ node_a.pod_cidr
unfolding lookup bytes_beq
none_left j p l w c = elim (Bool-cases (node_a.name == j)) [
  | inl e ↦ absurd (ground (arith, e, w))
  | inr e ↦ absurd (ground (arith, e, l))
]

-- The route to the old pod CIDR of node a is still there.
sync_routes_stale_example :
    lookup node_a.pod_cidr (sync_routes 4 (moved_a ∷ []) backend).routes
    ≡ lookup node_a.pod_cidr backend.routes
sync_routes_stale_example =
    sync_routes_stale 4 (moved_a ∷ []) backend node_a.pod_cidr backend-Distinct moved_only none_left

b_unknown : lookup node_b.name backend.peers ≡ none
unfolding lookup bytes_beq
b_unknown = refl

b_unrouted : lookup node_b.pod_cidr backend.routes ≡ none
unfolding lookup bytes_beq
b_unrouted = refl

remove_node-add_node_example :
    ((add_node 4 node_b backend).1 ≡ none)
    × (remove_node node_b.name (add_node 4 node_b backend).0 ≡ backend)
remove_node-add_node_example = remove_node-add_node 4 node_b backend refl b_unknown b_unrouted

a_known : lookup moved_a.name backend.peers ≡ some (peer_of 3 node_a)
unfolding lookup bytes_beq
a_known = refl

update_node_lem_example :
    (lookup moved_a.name (update_node 4 moved_a backend).peers ≡ some (peer_of 4 moved_a))
    × (lookup moved_a.pod_cidr (update_node 4 moved_a backend).routes ≡ some (route_of moved_a))
    × (lookup node_a.pod_cidr (update_node 4 moved_a backend).routes ≡ none)
update_node_lem_example = update_node_lem 4 moved_a backend (peer_of 3 node_a) a_known cidr_moved

abbrev vxlan_config : VxlanConfig
vxlan_config = record { vni = pos 0; port = pos 0; interface_name = []; mtu = pos 0 }

abbrev calls : List Call
calls = Call.inits here ∷ Call.adds node_a ∷ Call.syncs (node_b ∷ []) ∷ []

run-IsMirrored_example : IsMirrored (run calls (new_vxlan_backend vxlan_config))
run-IsMirrored_example = run-IsMirrored vxlan_config calls

abbrev vxlan : VxlanBackend
vxlan = record {
  config = vxlan_config;
  local_node = here;
  nodes = [];
  fdb = [];
  routes = [];
  running = true;
}

no_node : (name : Bytes) → lookup name vxlan.nodes ≡ none
unfolding lookup
no_node name = refl

a_not_b : node_a.name ≢ node_b.name
unfolding bytes_beq
a_not_b = ne_of_beq node_a.name node_b.name refl

a_not_c : node_a.name ≢ node_c.name
unfolding bytes_beq
a_not_c = ne_of_beq node_a.name node_c.name refl

b_not_c : node_b.name ≢ node_c.name
unfolding bytes_beq
b_not_c = ne_of_beq node_b.name node_c.name refl

abbrev with_b_and_c : VxlanBackend
with_b_and_c =
    put_node node_c.name node_c (
      drop_node node_a.name node_a
        (put_node node_b.name node_b (put_node node_a.name node_a vxlan)))

mac_reused_example :
    (f : FdbEntry) × (g : FdbEntry) × (lookup node_b.name with_b_and_c.fdb ≡ some f)
    × (lookup node_c.name with_b_and_c.fdb ≡ some g)
    × (f.mac ≡ g.mac)
mac_reused_example =
    mac_reused node_a node_b node_c vxlan tt (no_node node_a.name) (no_node node_b.name)
      (no_node node_c.name) a_not_b a_not_c b_not_c
