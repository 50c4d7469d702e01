-- ===== src/Routing/Vxlan.antt =====
-- VXLANBackend of pkg/routing/vxlan.go.
pub mod Mac
pub mod Mirror
use coordino.Base.{
  ℕ, Bytes, bytes, bytes_eq, Bool, true, false, Option, none, some, List, [], ◌∷◌, ◌++◌, length,
  if◌then◌else◌, ◌==◌,
}
use coordino.Base.GoMap.{GoMap, lookup, insert, delete}
use coordino.Base.Decimal.{ℤ, pos, int_eq}
use coordino.Base.Hex.{hex_padded}
use coordino.Routing.{PodRoute, NodeInfo, Error, new_node_map}

pub record VxlanConfig : Type 0 where
  pub vni : ℤ
  pub port : ℤ
  pub interface_name : Bytes
  pub mtu : ℤ

pub record FdbEntry : Type 0 where
  pub mac : Bytes
  pub remote_ip : Bytes
  pub node_name : Bytes

pub record VxlanBackend : Type 0 where
  pub config : VxlanConfig
  pub local_node : NodeInfo
  pub nodes : GoMap Bytes NodeInfo
  pub fdb : GoMap Bytes FdbEntry
  pub routes : GoMap Bytes PodRoute
  pub running : Bool

abbrev or_default : ℤ → ℤ → ℤ
or_default x d = if x == pos 0 then d else x

unfoldable pub with_defaults : VxlanConfig → VxlanConfig
with_defaults config = record {
  vni = or_default config.vni (pos 1);
  port = or_default config.port (pos 4789);
  interface_name =
      if config.interface_name == [] then bytes "coordino_vxlan" else config.interface_name;
  mtu = or_default config.mtu (pos 1450);
}

unfoldable pub new_vxlan_backend : VxlanConfig → VxlanBackend
unfolding with_defaults
new_vxlan_backend config = record {
  config = with_defaults config;
  local_node = record { name = []; pod_cidr = []; node_ip = []; public_ip = [] };
  nodes = [];
  fdb = [];
  routes = [];
  running = false;
}

-- `EnsureVXLANInterface` does nothing and returns nil.
unfoldable pub init : NodeInfo → VxlanBackend → VxlanBackend
init local_node v = record v { local_node = local_node; running = true }

abbrev pub mac_of : ℕ → Bytes
mac_of n = bytes "00:00:5e:00:53:" ++ hex_padded n

abbrev pub entry_of : ℕ → Bytes → NodeInfo → FdbEntry
entry_of n name node = record { mac = mac_of n; remote_ip = node.node_ip; node_name = name }

abbrev pub route_of : VxlanConfig → Bytes → NodeInfo → PodRoute
route_of config name node = record {
  dest_cidr = node.pod_cidr;
  next_hop = node.node_ip;
  node_name = name;
  interface = config.interface_name;
}

-- What AddNode, UpdateNode and SyncRoutes write for a node.
unfoldable pub put_node : Bytes → NodeInfo → VxlanBackend → VxlanBackend
put_node name node v =
    let nodes = insert name node v.nodes in
    record v {
      nodes = nodes;
      fdb = insert name (entry_of (length nodes) name node) v.fdb;
      routes = insert node.pod_cidr (route_of v.config name node) v.routes;
    }

unfoldable pub add_node : NodeInfo → VxlanBackend → VxlanBackend × Option Error
add_node node v =
    if v.running then (put_node node.name node v, none) else (v, some Error.not_running)

unfoldable pub drop_node : Bytes → NodeInfo → VxlanBackend → VxlanBackend
drop_node name node v = record v {
  routes = delete node.pod_cidr v.routes;
  fdb = delete name v.fdb;
  nodes = delete name v.nodes;
}

unfoldable pub remove_node : Bytes → VxlanBackend → VxlanBackend
remove_node name v = elim (lookup name v.nodes) [ none ↦ v | some node ↦ drop_node name node v ]

abbrev drop_route : Option NodeInfo → GoMap Bytes PodRoute → GoMap Bytes PodRoute
drop_route none routes = routes
drop_route (some node) routes = delete node.pod_cidr routes

unfoldable pub update_node : NodeInfo → VxlanBackend → VxlanBackend
update_node node v =
    put_node node.name node (record v { routes = drop_route (lookup node.name v.nodes) v.routes })

-- The first loop of SyncRoutes, over the entries of `nodes`.
unfoldable pub remove_stale :
    GoMap Bytes NodeInfo → GoMap Bytes NodeInfo → VxlanBackend → VxlanBackend
remove_stale desired [] v = v
remove_stale desired ((name, node) ∷ rest) v = elim (lookup name desired) [
  | some _ ↦ remove_stale desired rest v
  | none ↦ remove_stale desired rest (drop_node name node v)
]

-- The second loop of SyncRoutes, over the entries of `newNodeMap`.
unfoldable pub put_nodes : GoMap Bytes NodeInfo → VxlanBackend → VxlanBackend
put_nodes [] v = v
put_nodes ((name, node) ∷ rest) v = put_nodes rest (put_node name node v)

unfoldable pub sync_routes : List NodeInfo → VxlanBackend → VxlanBackend
sync_routes nodes v =
    let desired = new_node_map v.local_node.name nodes [] in
    put_nodes desired (remove_stale desired v.nodes v)

unfoldable pub close : VxlanBackend → VxlanBackend
close v = record v { running = false }

unfoldable pub is_healthy : VxlanBackend → Bool
is_healthy v = v.running

unfoldable pub get_fdb : VxlanBackend → GoMap Bytes FdbEntry
get_fdb v = v.fdb

abbrev values : {V : Type 0} → GoMap Bytes V → List V
values [] = []
values ((k, x) ∷ m) = x ∷ values m

unfoldable pub get_routes : VxlanBackend → List PodRoute
get_routes v = values v.routes
