-- ===== src/Routing.antt =====
-- The routing backends of pkg/routing/: the shared types of routing.go, and the choice of a backend.
pub mod Bgp
pub mod Desired
pub mod Select
pub mod Vxlan
use coordino.Base.{
  ℕ, Bytes, bytes, bytes_eq, Bool, Option, none, some, List, [], ◌∷◌, if◌then◌else◌, ◌==◌,
}
use coordino.Base.GoMap.{GoMap, insert}

pub record PodRoute : Type 0 where
  pub dest_cidr : Bytes
  pub next_hop : Bytes
  pub node_name : Bytes
  pub interface : Bytes

pub record NodeInfo : Type 0 where
  pub name : Bytes
  pub pod_cidr : Bytes
  pub node_ip : Bytes
  pub public_ip : Bytes

pub data Mode : Type 0 where
  bgp : Mode
  vxlan : Mode
  other : Bytes → Mode

pub data Error : Type 0 where
  not_running : Error
  unsupported_mode : Mode → Error

-- The desired remote nodes of a synchronisation, the local node left out. Of two nodes with one
-- name the last counts.
unfoldable pub new_node_map : Bytes → List NodeInfo → GoMap Bytes NodeInfo → GoMap Bytes NodeInfo
new_node_map local [] m = m
new_node_map local (n ∷ ns) m =
    let rest = new_node_map local ns in if n.name == local then rest m else rest (insert n.name n m)
