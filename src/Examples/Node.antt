-- ===== src/Examples/Node.antt =====
-- Examples for pkg/ipam/ipam.go: the block 10.0.0.0/29, with the usable addresses .1 to .6.
use coordino.Base.{
  ℕ, suc, ◌+◌, ◌^◌, ◌≤◌, ◌<◌, ◌≡◌, ◌↔◌, refl, arith, Bool, true, false, not, none, some, [], ◌∷◌,
  map, select, length, replicate, get_or, if◌then◌else◌, Bytes, bytes, bytes_eq, bytes_beq, ok, err,
}
use coordino.Base.GoMap.{lookup, insert}
use coordino.Net.{IpNet, ipv4, to4, ip_to_uint32, uint32_to_ip}
use coordino.Ipam.Node.{
  AllocRecord, NodeAllocator, Error, block_size_of, new_node_allocator, pod_key, first_free, assign,
  allocate, release, is_allocated, available, count_free, reconcile,
}
use coordino.Ipam.Node.Invariant.{IsValid}
use coordino.Ipam.Node.Allocate.{allocate-IsValid}
use coordino.Ipam.Node.Release.{release-allocate}
use coordino.Ipam.Node.Reconcile.{reconcile_lem}
use coordino.Ipam.Node.Count.{
  address, is_allocated-bitmap, allocate_fresh, available-add-length, allocate_fails_iff,
}
use coordino.Ipam.Node.History.{Call, run, new_node_allocator-IsValid, no_shared_address}

abbrev net : IpNet
net = record { ip = 10 ∷ 0 ∷ 0 ∷ 0 ∷ []; ones = 29; bits = 32 }

abbrev node : NodeAllocator
node = record {
  pod_cidr = net;
  bitmap = replicate 8 false;
  allocated = [];
  base_ip = 10 ∷ 0 ∷ 0 ∷ 0 ∷ [];
  block_size = 8;
}

abbrev default_ns : Bytes
default_ns = bytes "default"

abbrev web : Bytes
web = bytes "web"

abbrev web_record : AllocRecord
web_record = record {
  ip = ipv4 10 0 0 1;
  pod_name = web;
  pod_namespace = default_ns;
  allocated_at = 5;
}

node_made : new_node_allocator (some net) ≡ ok node
unfolding new_node_allocator block_size_of
node_made = refl

node_fits : ip_to_uint32 net.ip + node.block_size ≤ 2 ^ 32
unfolding ip_to_uint32 to4
node_fits = omega arith

node-IsValid : IsValid node
node-IsValid = new_node_allocator-IsValid net node node_made node_fits

web_unknown : lookup (pod_key web default_ns) node.allocated ≡ none
unfolding lookup
web_unknown = refl

web_address : (allocate node web default_ns 5).1 ≡ ok (ipv4 10 0 0 1)
unfolding allocate lookup first_free uint32_to_ip ip_to_uint32 to4
web_address = refl

web_recorded :
    lookup (pod_key web default_ns) (run (Call.allocates web default_ns 5 ∷ []) node).allocated
    ≡ some web_record
unfolding allocate lookup first_free assign insert uint32_to_ip ip_to_uint32 to4 bytes_beq pod_key
web_recorded = refl

no_shared_address_example : pod_key web default_ns ≡ pod_key web default_ns
no_shared_address_example =
    no_shared_address net node (Call.allocates web default_ns 5 ∷ []) (pod_key web default_ns)
      (pod_key web default_ns) web_record web_record node_made node_fits web_recorded web_recorded
      refl

allocate_fresh_example :
    (is_allocated node (ipv4 10 0 0 1) ≡ false)
    × (is_allocated (allocate node web default_ns 5).0 (ipv4 10 0 0 1) ≡ true)
    × (i : ℕ) × (0 < i)
    × (suc i < node.block_size)
    × (ipv4 10 0 0 1 ≡ address node i)
allocate_fresh_example =
    allocate_fresh node web default_ns 5 (ipv4 10 0 0 1) node-IsValid web_unknown web_address

release-allocate_example : release (allocate node web default_ns 5).0 web default_ns ≡ node
release-allocate_example =
    release-allocate node web default_ns 5 (ipv4 10 0 0 1) node-IsValid web_unknown web_address

is_allocated-bitmap_example : is_allocated node (address node 3) ≡ get_or node.bitmap 3 false
is_allocated-bitmap_example = is_allocated-bitmap node 3 node-IsValid (omega arith)

abbrev busy : NodeAllocator
busy = (allocate node web default_ns 5).0

busy-IsValid : IsValid busy
busy-IsValid = allocate-IsValid node web default_ns 5 node-IsValid

-- Five of the six usable addresses are left.
busy-available : available busy ≡ 5
unfolding available count_free allocate lookup first_free assign
busy-available = refl

busy_large : 2 ≤ busy.block_size
unfolding allocate lookup first_free assign
busy_large = omega arith

available-add-length_example : available busy + length busy.allocated + 2 ≡ busy.block_size
available-add-length_example = available-add-length busy busy-IsValid busy_large

allocate_fails_iff_example :
    ((allocate node web default_ns 5).1 ≡ err Error.no_available_ips)
    ↔ ((lookup (pod_key web default_ns) node.allocated ≡ none) × (available node ≡ 0))
allocate_fails_iff_example = allocate_fails_iff node web default_ns 5

abbrev nothing_active : Bytes → Bool
nothing_active k = false

reconcile_lem_example :
    IsValid (reconcile busy nothing_active).0
    × ((k : Bytes)
        → lookup k (reconcile busy nothing_active).0.allocated
          ≡ (if nothing_active k then lookup k busy.allocated else none))
    × ((reconcile busy nothing_active).1
        ≡ map (λ e. e.1.ip) (select (λ e. not (nothing_active e.0)) busy.allocated))
reconcile_lem_example = reconcile_lem busy nothing_active busy-IsValid
