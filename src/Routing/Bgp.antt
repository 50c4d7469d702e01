-- ===== src/Routing/Bgp.antt =====
-- BGPBackend of pkg/routing/bgp.go. `now` is the clock's reading. A range over a map goes in the
-- order of its list.
pub mod Nodes
pub mod Routes
pub mod Sync
use coordino.Base.{
  ℕ, Bytes, bytes, bytes_eq, Bool, true, false, Option, none, some, List, [], ◌∷◌, map, any,
  if◌then◌else◌, ◌==◌,
}
use coordino.Base.GoMap.{GoMap, lookup, insert, delete}
use coordino.Base.Decimal.{ℤ, pos}
use coordino.Routing.{PodRoute, NodeInfo, Error, new_node_map}

pub record BgpConfig : Type 0 where
  pub local_asn : ℕ
  pub router_id : Bytes
  pub peer_asn : ℕ
  pub peer_address : Bytes
  pub hold_time : ℤ

pub record BgpPeer : Type 0 where
  pub node_info : NodeInfo
  pub state : Bytes
  pub uptime : ℕ
  pub routes_rx : ℤ
  pub routes_tx : ℤ

pub record BgpBackend : Type 0 where
  pub config : BgpConfig
  pub local_node : NodeInfo
  pub peers : GoMap Bytes BgpPeer
  pub routes : GoMap Bytes PodRoute
  pub running : Bool

abbrev no_node : NodeInfo
no_node = record { name = []; pod_cidr = []; node_ip = []; public_ip = [] }

unfoldable pub new_bgp_backend : BgpConfig → BgpBackend
new_bgp_backend config = record {
  config = config;
  local_node = no_node;
  peers = [];
  routes = [];
  running = false;
}

unfoldable pub init : NodeInfo → BgpBackend → BgpBackend
init local_node b = record b { local_node = local_node; running = true }

abbrev pub peer_of : ℕ → NodeInfo → BgpPeer
peer_of now node = record {
  node_info = node;
  state = bytes "Established";
  uptime = now;
  routes_rx = pos 0;
  routes_tx = pos 0;
}

abbrev pub route_of : NodeInfo → PodRoute
route_of node = record {
  dest_cidr = node.pod_cidr;
  next_hop = node.node_ip;
  node_name = node.name;
  interface = [];
}

-- The peer and the route of a node, written by AddNode, UpdateNode and SyncRoutes.
abbrev pub put_as : ℕ → Bytes → NodeInfo → BgpBackend → BgpBackend
put_as now name node b = record b {
  peers = insert name (peer_of now node) b.peers;
  routes = insert node.pod_cidr (route_of node) b.routes;
}

unfoldable pub add_node : ℕ → NodeInfo → BgpBackend → BgpBackend × Option Error
add_node now node b =
    if b.running then (put_as now node.name node b, none) else (b, some Error.not_running)

-- The peer and its route are dropped.
abbrev pub drop_peer : Bytes → BgpPeer → BgpBackend → BgpBackend
drop_peer name peer b = record b {
  routes = delete peer.node_info.pod_cidr b.routes;
  peers = delete name b.peers;
}

unfoldable pub remove_node : Bytes → BgpBackend → BgpBackend
remove_node name b = elim (lookup name b.peers) [ none ↦ b | some peer ↦ drop_peer name peer b ]

abbrev pub drop_route : Option BgpPeer → GoMap Bytes PodRoute → GoMap Bytes PodRoute
drop_route none routes = routes
drop_route (some peer) routes = delete peer.node_info.pod_cidr routes

unfoldable pub update_node : ℕ → NodeInfo → BgpBackend → BgpBackend
update_node now node b =
    put_as now node.name node (record b { routes = drop_route (lookup node.name b.peers) b.routes })

-- The first loop of SyncRoutes, over the entries of `peers`.
unfoldable pub remove_stale : GoMap Bytes NodeInfo → GoMap Bytes BgpPeer → BgpBackend → BgpBackend
remove_stale desired [] b = b
remove_stale desired ((name, peer) ∷ rest) b = elim (lookup name desired) [
  | some _ ↦ remove_stale desired rest b
  | none ↦ remove_stale desired rest (drop_peer name peer b)
]

-- The second loop of SyncRoutes, over the entries of `newNodeMap`.
unfoldable pub put_nodes : ℕ → GoMap Bytes NodeInfo → BgpBackend → BgpBackend
put_nodes now [] b = b
put_nodes now ((name, node) ∷ rest) b = put_nodes now rest (put_as now name node b)

unfoldable pub sync_routes : ℕ → List NodeInfo → BgpBackend → BgpBackend
unfolding remove_stale put_nodes
sync_routes now nodes b =
    let desired = new_node_map b.local_node.name nodes [] in
    put_nodes now desired (remove_stale desired b.peers b)

abbrev values : {V : Type 0} → GoMap Bytes V → List V
values [] = []
values ((k, v) ∷ m) = v ∷ values m

unfoldable pub get_routes : BgpBackend → List PodRoute
get_routes b = values b.routes

unfoldable pub close : BgpBackend → BgpBackend
close b = record b { running = false; peers = []; routes = [] }

unfoldable pub is_healthy : BgpBackend → Bool
is_healthy b = if b.running then any (λ p. p.1.state == bytes "Established") b.peers else false

unfoldable pub get_peer_status : BgpBackend → GoMap Bytes BgpPeer
get_peer_status b = b.peers

unfoldable pub advertise_route : PodRoute → BgpBackend → BgpBackend × Option Error
advertise_route route b =
    if b.running
    then (record b { routes = insert route.dest_cidr route b.routes }, none)
    else (b, some Error.not_running)
