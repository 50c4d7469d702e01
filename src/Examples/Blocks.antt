-- ===== src/Examples/Blocks.antt =====
-- Examples for pkg/ipam/controller.go: blocks of 4 addresses in 10.0.0.0/28.
use coordino.Base.{
  ℕ, ◌+◌, ◌≤◌, ◌≡◌, ◌⊎◌, refl, arith, false, some, List, [], ◌∷◌, Bytes, bytes, bytes_eq, bytes_beq,
  ok, err,
}
use coordino.Base.GoMap.{lookup, insert}
use coordino.Net.{IpNet, ip_to_uint32, uint32_to_ip, to4}
use coordino.Ipam.Controller.{
  BlockAssignment, IpamController, Error, new_ipam_controller, total_blocks, block_shift, block_at,
  blocks_of, take_block, assign_block, assign_secondary_block, assign_next_block,
  is_block_available, Call, step, run,
}
use coordino.Ipam.Controller.Blocks.{get_elem?, IsIpv4, span}
use coordino.Ipam.Controller.Invariant.{IsValid, new_ipam_controller-IsValid}
use coordino.Ipam.Controller.Disjoint.{blocks_disjoint}
use coordino.Ipam.Controller.Exhaustion.{exhausted_forever}

abbrev cluster : IpNet
cluster = record { ip = 10 ∷ 0 ∷ 0 ∷ 0 ∷ []; ones = 28; bits = 32 }

abbrev controller : IpamController
controller = record {
  cluster_cidr = cluster;
  block_size = 30;
  assignments = [];
  next_block_index = 0;
}

abbrev node_a : Bytes
node_a = bytes "a"

abbrev node_b : Bytes
node_b = bytes "b"

abbrev calls : List (ℕ × Call)
calls = (7, Call.assigns node_a) ∷ (8, Call.assigns node_b) ∷ []

abbrev first_block : BlockAssignment
first_block = record {
  node_name = node_a;
  cidr = record { ip = uint32_to_ip 167772160; ones = 30; bits = 32 };
  allocated_at = 7;
}

abbrev second_block : BlockAssignment
second_block = record {
  node_name = node_b;
  cidr = record { ip = uint32_to_ip 167772164; ones = 30; bits = 32 };
  allocated_at = 8;
}

controller_made : new_ipam_controller (some cluster) 30 ≡ ok controller
unfolding new_ipam_controller
controller_made = refl

controller-IsIpv4 : IsIpv4 controller
unfolding ip_to_uint32 to4
controller-IsIpv4 = record {
  bits_32 = refl;
  ones_le = omega arith;
  size_le = omega arith;
  fits = omega arith;
}

controller-IsValid : IsValid controller
controller-IsValid =
    new_ipam_controller-IsValid (some cluster) 30 controller controller_made controller-IsIpv4

has_first : get_elem? (blocks_of (run controller calls) node_a) 0 ≡ some first_block
unfolding blocks_of lookup run step assign_block assign_next_block total_blocks take_block insert
    bytes_beq block_at ip_to_uint32 block_shift to4
has_first = refl

has_second : get_elem? (blocks_of (run controller calls) node_b) 0 ≡ some second_block
unfolding blocks_of lookup run step assign_block assign_next_block total_blocks take_block insert
    bytes_beq block_at ip_to_uint32 block_shift to4
has_second = refl

other_nodes : ¬ ((node_a ≡ node_b) × (◌≡◌ {A = ℕ} 0 0))
unfolding bytes_beq
other_nodes h = ground (arith, bytes_eq.beq_iff node_a node_b, h.0)

blocks_disjoint_example :
    ((ip_to_uint32 first_block.cidr.ip + span first_block.cidr ≤ ip_to_uint32 second_block.cidr.ip)
      ⊎ (ip_to_uint32 second_block.cidr.ip + span second_block.cidr
          ≤ ip_to_uint32 first_block.cidr.ip))
    × (first_block.cidr.ones ≡ controller.block_size)
    × (first_block.cidr.bits ≡ 32)
    × (ip_to_uint32 cluster.ip ≤ ip_to_uint32 first_block.cidr.ip)
    × (ip_to_uint32 first_block.cidr.ip + span first_block.cidr
        ≤ ip_to_uint32 cluster.ip + span cluster)
blocks_disjoint_example =
    blocks_disjoint controller calls node_a node_b 0 0 first_block second_block controller-IsValid
      has_first has_second other_nodes

-- A cluster of one block, which node a holds.
abbrev used_up : IpamController
used_up = record {
  cluster_cidr = record { ip = 10 ∷ 0 ∷ 0 ∷ 0 ∷ []; ones = 30; bits = 32 };
  block_size = 30;
  assignments = (node_a, first_block ∷ []) ∷ [];
  next_block_index = 1;
}

used_up_total : total_blocks used_up ≡ some 1
unfolding total_blocks
used_up_total = refl

exhausted_forever_example :
    (is_block_available (run used_up ((9, Call.releases node_a) ∷ [])) ≡ some false)
    × (assign_secondary_block (run used_up ((9, Call.releases node_a) ∷ [])) node_b 10
        ≡ (run used_up ((9, Call.releases node_a) ∷ []), err Error.no_more_blocks))
exhausted_forever_example =
    exhausted_forever used_up ((9, Call.releases node_a) ∷ []) 1 node_b 10 used_up_total
      (omega arith)
