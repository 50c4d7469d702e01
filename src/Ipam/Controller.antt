-- ===== src/Ipam/Controller.antt =====
-- pkg/ipam/controller.go: IPAMController, the blocks of the cluster's nodes. Each method runs under
-- the controller's mutex. `BlockSize` is not negative; `now` is what `time.Now()` returns.
pub mod Blocks
pub mod Invariant
pub mod Disjoint
pub mod Exhaustion
use coordino.Base.{
  ℕ, zero, suc, ◌+◌, ◌-◌, ◌*◌, ◌^◌, ◌%◌, Bool, true, false, ◌&&◌, Option, none, some, List, [], ◌∷◌,
  ◌++◌, Bytes, bytes_eq, Result, ok, err, ltb, leb, nat_beq, if◌then◌else◌,
}
use coordino.Base.GoMap.{GoMap, lookup, insert, delete}
use coordino.Net.{Ip, IpNet, ip_to_uint32, uint32_to_ip, add32, u32_mod}

pub record BlockAssignment : Type 0 where
  pub node_name : Bytes
  pub cidr : IpNet
  pub allocated_at : ℕ

pub record IpamController : Type 0 where
  pub cluster_cidr : IpNet
  pub block_size : ℕ
  pub assignments : GoMap Bytes (List BlockAssignment)
  pub next_block_index : ℕ

pub data Error : Type 0 where
  invalid_cluster_cidr no_more_blocks shift_panics no_assignment : Error

-- The argument is what `net.ParseCIDR(clusterCIDR)` returns, `none` for its error.
unfoldable pub new_ipam_controller : Option IpNet → ℕ → Result Error IpamController
new_ipam_controller none size = err invalid_cluster_cidr
new_ipam_controller (some ipnet) size =
    ok (record { cluster_cidr = ipnet; block_size = size; assignments = []; next_block_index = 0 })

-- `1 << (c.BlockSize - ones)` for an `int` of 64 bits, `none` where a negative count panics. At 63
-- the value is negative: no index is below it, and none is below 0.
unfoldable pub total_blocks : IpamController → Option ℕ
total_blocks c =
    let k = c.block_size - c.cluster_cidr.ones in
    if ltb c.block_size c.cluster_cidr.ones then none else if ltb k 63 then some (2 ^ k) else some 0

-- `uint32(c.nextBlockIndex) << uint32(bits - c.BlockSize)`: a count of 32 or more leaves 0, and a
-- negative difference wraps to such a count.
unfoldable pub block_shift : IpamController → ℕ → ℕ
block_shift c index =
    let bits = c.cluster_cidr.bits in
    if ltb bits c.block_size then 0 else index % u32_mod * 2 ^ (bits - c.block_size) % u32_mod

-- `net.CIDRMask`, which is nil, of size (0, 0), where the prefix is longer than the address.
cidr_net : Ip → ℕ → ℕ → IpNet
cidr_net ip ones bits =
    if leb ones bits
    then record { ip = ip; ones = ones; bits = bits }
    else record { ip = ip; ones = 0; bits = 0 }

unfoldable pub block_at : IpamController → ℕ → IpNet
unfolding cidr_net
block_at c index =
    cidr_net (uint32_to_ip (add32 (ip_to_uint32 c.cluster_cidr.ip) (block_shift c index)))
      c.block_size c.cluster_cidr.bits

-- A missing key reads as the nil slice.
unfoldable pub blocks_of : IpamController → Bytes → List BlockAssignment
blocks_of c node = elim (lookup node c.assignments) [ none ↦ [] | some bs ↦ bs ]

-- The assignments that `assignNextBlock` makes when a block is left.
unfoldable pub take_block : IpamController → Bytes → ℕ → IpamController
take_block c node now = record c {
  assignments =
      insert node
        (blocks_of c node
          ++ (record { node_name = node; cidr = block_at c c.next_block_index; allocated_at = now }
              ∷ []))
        c.assignments;
  next_block_index = c.next_block_index + 1;
}

unfoldable pub assign_next_block : IpamController → Bytes → ℕ → IpamController × Result Error IpNet
assign_next_block c node now = elim (total_blocks c) [
  | none ↦ (c, err shift_panics)
  | some total ↦
      if leb total c.next_block_index
      then (c, err no_more_blocks)
      else (take_block c node now, ok (block_at c c.next_block_index))
]

unfoldable pub assign_block : IpamController → Bytes → ℕ → IpamController × Result Error IpNet
assign_block c node now = elim (blocks_of c node) [
  | b ∷ bs ↦ (c, ok b.cidr)
  | [] ↦ assign_next_block c node now
]

unfoldable pub assign_secondary_block :
    IpamController → Bytes → ℕ → IpamController × Result Error IpNet
assign_secondary_block c node now = assign_next_block c node now

unfoldable pub release_blocks : IpamController → Bytes → IpamController
release_blocks c node = record c { assignments = delete node c.assignments }

unfoldable pub get_assignment : IpamController → Bytes → Result Error (List BlockAssignment)
get_assignment c node = elim (lookup node c.assignments) [
  | none ↦ err no_assignment
  | some bs ↦ ok bs
]

unfoldable pub get_all_assignments : IpamController → GoMap Bytes (List BlockAssignment)
get_all_assignments c = c.assignments

-- `none` where the shift panics.
unfoldable pub is_block_available : IpamController → Option Bool
is_block_available c = elim (total_blocks c) [
  | none ↦ none
  | some total ↦ some (ltb c.next_block_index total)
]

-- The calls of a controller's clients, one after the other.
pub data Call : Type 0 where
  assigns secondary releases : Bytes → Call

unfoldable pub step : IpamController → ℕ × Call → IpamController
step c (now, assigns node) = (assign_block c node now).0
step c (now, secondary node) = (assign_secondary_block c node now).0
step c (now, releases node) = release_blocks c node

unfoldable pub run : IpamController → List (ℕ × Call) → IpamController
run c [] = c
run c (x ∷ xs) = run (step c x) xs
