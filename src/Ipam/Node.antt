-- ===== src/Ipam/Node.antt =====
-- pkg/ipam/ipam.go: NodeAllocator, the addresses of one node. `now` is what `time.Now()` returns.
-- Each method runs under the allocator's mutex, so a method is one step on the state.
pub mod History
pub mod Slots
pub mod Invariant
pub mod Allocate
pub mod Release
pub mod Reconcile
pub mod Count
use coordino.Base.{
  ℕ, zero, suc, ◌+◌, ◌-◌, ◌^◌, Bool, true, false, ◌||◌, not, Option, none, some, List, [], ◌∷◌,
  ◌++◌, Bytes, bytes_eq, bytes, Result, ok, err, length, get_or, set, replicate, ltb, leb, nat_beq,
  if◌then◌else◌, any,
}
use coordino.Base.GoMap.{GoMap, lookup, insert, delete}
use coordino.Net.{Ip, IpNet, ip_equal, ip_to_uint32, uint32_to_ip, add32, sub32}

pub record AllocRecord : Type 0 where
  pub ip : Ip
  pub pod_name : Bytes
  pub pod_namespace : Bytes
  pub allocated_at : ℕ

pub record NodeAllocator : Type 0 where
  pub pod_cidr : IpNet
  pub bitmap : List Bool
  pub allocated : GoMap Bytes AllocRecord
  pub base_ip : Ip
  pub block_size : ℕ

pub data Error : Type 0 where
  invalid_pod_cidr make_panics no_available_ips : Error

-- `1 << k` for an `int` of 64 bits: the sign bit at 63 makes `make` panic, and from 64 on it is 0.
unfoldable pub block_size_of : ℕ → Option ℕ
block_size_of k = if ltb k 63 then some (2 ^ k) else if nat_beq k 63 then none else some 0

-- The argument is what `net.ParseCIDR(podCIDR)` returns, `none` for its error.
unfoldable pub new_node_allocator : Option IpNet → Result Error NodeAllocator
unfolding block_size_of
new_node_allocator none = err invalid_pod_cidr
new_node_allocator (some ipnet) = elim (block_size_of (ipnet.bits - ipnet.ones)) [
  | none ↦ err make_panics
  | some size ↦ ok (record {
    pod_cidr = ipnet;
    bitmap = replicate size false;
    allocated = [];
    base_ip = ipnet.ip;
    block_size = size;
  })
]

-- `fmt.Sprintf("%s/%s", podName, podNamespace)`
unfoldable pub pod_key : Bytes → Bytes → Bytes
pod_key name namespace = name ++ (b'/' ∷ namespace)

-- The loop of `Allocate` over `rounds` more offsets: the first free offset that is neither the
-- network address nor the broadcast address.
unfoldable pub first_free : ℕ → ℕ → ℕ → List Bool → Option ℕ
first_free zero i size bitmap = none
first_free (suc rounds) i size bitmap =
    let rest = first_free rounds (i + 1) size bitmap in
    if nat_beq i 0 || nat_beq i (size - 1)
    then rest
    else if not (get_or bitmap i false)
    then some i
    else rest

-- The assignments that `Allocate` makes once it has found offset `i`.
unfoldable pub assign : NodeAllocator → Bytes → Bytes → ℕ → ℕ → NodeAllocator
assign a name namespace now i = record a {
  bitmap = set a.bitmap i true;
  allocated =
      insert (pod_key name namespace)
        (record {
          ip = uint32_to_ip (add32 (ip_to_uint32 a.base_ip) i);
          pod_name = name;
          pod_namespace = namespace;
          allocated_at = now;
        })
        a.allocated;
}

unfoldable pub allocate : NodeAllocator → Bytes → Bytes → ℕ → NodeAllocator × Result Error Ip
allocate a name namespace now = elim (lookup (pod_key name namespace) a.allocated) [
  | some r ↦ (a, ok r.ip)
  | none ↦ elim (first_free a.block_size 0 a.block_size a.bitmap) [
    | some i ↦ (assign a name namespace now i, ok (uint32_to_ip (add32 (ip_to_uint32 a.base_ip) i)))
    | none ↦ (a, err no_available_ips)
  ]
]

-- The offset of an address in the block; a uint32 is never negative as an `int`.
abbrev pub offset : NodeAllocator → Ip → ℕ
offset a ip = sub32 (ip_to_uint32 ip) (ip_to_uint32 a.base_ip)

-- What `Release` and `Reconcile` do with a record that goes.
unfoldable pub free_record : NodeAllocator → Bytes → AllocRecord → NodeAllocator
free_record a key r = record a {
  bitmap =
      if ltb (offset a r.ip) a.block_size then set a.bitmap (offset a r.ip) false else a.bitmap;
  allocated = delete key a.allocated;
}

-- `Release` returns no error on any path.
unfoldable pub release : NodeAllocator → Bytes → Bytes → NodeAllocator
release a name namespace = elim (lookup (pod_key name namespace) a.allocated) [
  | none ↦ a
  | some r ↦ free_record a (pod_key name namespace) r
]

unfoldable pub is_allocated : NodeAllocator → Ip → Bool
is_allocated a ip = any (λ e. ip_equal e.1.ip ip) a.allocated

unfoldable pub allocated_ips : GoMap Bytes AllocRecord → GoMap Bytes Ip
allocated_ips [] = []
allocated_ips ((k, r) ∷ m) = (k, r.ip) ∷ allocated_ips m

-- `GetAllocatedIPs`: a copy of the map with the addresses alone.
unfoldable pub get_allocated_ips : NodeAllocator → GoMap Bytes Ip
unfolding allocated_ips
get_allocated_ips a = allocated_ips a.allocated

-- The loop of `Reconcile` over the entries that `range` has still to visit.
unfoldable pub reconcile_from :
    (Bytes → Bool) → GoMap Bytes AllocRecord → NodeAllocator → List Ip → NodeAllocator × List Ip
reconcile_from active [] a released = (a, released)
reconcile_from active ((key, r) ∷ rest) a released =
    let kept = active key in
    reconcile_from active rest (if kept then a else free_record a key r)
      (if kept then released else released ++ (r.ip ∷ []))

-- `active` reads the map `activePods`, where a missing key is `false`.
unfoldable pub reconcile : NodeAllocator → (Bytes → Bool) → NodeAllocator × List Ip
unfolding reconcile_from
reconcile a active = reconcile_from active a.allocated a []

-- The counting loop of `Available` over `rounds` more offsets.
unfoldable pub count_free : ℕ → ℕ → List Bool → ℕ
count_free zero i bitmap = 0
count_free (suc rounds) i bitmap =
    let rest = count_free rounds (i + 1) bitmap in
    if not (get_or bitmap i false) then rest + 1 else rest

unfoldable pub available : NodeAllocator → ℕ
unfolding count_free
available a = count_free (a.block_size - 2) 1 a.bitmap

-- `Utilization` as the quotient's two parts; the source divides them as float64.
unfoldable pub utilization : NodeAllocator → ℕ × ℕ
utilization a = if leb a.block_size 2 then (1, 1) else (length a.allocated, a.block_size - 2)
