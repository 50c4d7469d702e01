-- ===== src/Examples/Checkpoints.antt =====
-- Examples for pkg/ipam/checkpoint.go: a block with one pod, saved in memory and restored.
use coordino.Base.{
  ◌≤◌, ◌+◌, ◌≡◌, ◌^◌, refl, arith, none, some, [], ◌∷◌, replicate, Bytes, bytes, bytes_eq,
  bytes_beq, ok, false,
}
use coordino.Base.GoMap.{lookup, insert}
use coordino.Net.{Ip, IpNet, ip_to_uint32, to4, uint32_to_ip}
use coordino.Ipam.Node.{
  AllocRecord, NodeAllocator, new_node_allocator, block_size_of, allocate, assign, first_free,
  pod_key, get_allocated_ips, allocated_ips,
}
use coordino.Ipam.Node.Invariant.{IsValid}
use coordino.Ipam.Node.History.{new_node_allocator-IsValid}
use coordino.Ipam.Checkpoint.{
  Checkpoint, Codec, checkpoint_of, records_of, split_key, save, restore,
}
use coordino.Ipam.Checkpoint.Files.{load-save, Left}
use coordino.Ipam.Checkpoint.Restore.{restore-checkpoint_of}
use coordino.Examples.Files.{memory, memory-Lawful}

-- The texts are the bytes themselves.
abbrev ip_string : Ip → Bytes
ip_string ip = ip

abbrev cidr_string : IpNet → Bytes
cidr_string n = n.ip

abbrev net : IpNet
net = record { ip = 10 ∷ 0 ∷ 0 ∷ 0 ∷ []; ones = 29; bits = 32 }

abbrev fresh : NodeAllocator
fresh = record {
  pod_cidr = net;
  bitmap = replicate 8 false;
  allocated = [];
  base_ip = net.ip;
  block_size = 8;
}

abbrev web : Bytes
web = bytes "web"

abbrev default_ns : Bytes
default_ns = bytes "default"

abbrev path : Bytes
path = bytes "/cp"

abbrev used : NodeAllocator
used = (allocate fresh web default_ns 5).0

abbrev saved : Checkpoint
saved = checkpoint_of ip_string cidr_string 5 used

-- A codec that writes only this checkpoint.
abbrev codec : Codec
codec = record { marshal = λ c. ok (bytes "{}"); unmarshal = λ content. ok saved }

load-save_example : Left memory codec path memory-Lawful saved [] (save memory codec path saved [])
load-save_example = load-save memory codec path memory-Lawful saved [] (λ content h. refl)

fresh_made : new_node_allocator (some net) ≡ ok fresh
unfolding new_node_allocator block_size_of
fresh_made = refl

fresh_fits : ip_to_uint32 net.ip + fresh.block_size ≤ 2 ^ 32
unfolding ip_to_uint32 to4
fresh_fits = omega arith

fresh-IsValid : IsValid fresh
fresh-IsValid = new_node_allocator-IsValid net fresh fresh_made fresh_fits

abbrev web_record : AllocRecord
web_record = record {
  ip = uint32_to_ip (167772160 + 1);
  pod_name = web;
  pod_namespace = default_ns;
  allocated_at = 5;
}

no_error : (restore ip_string cidr_string 5 saved.records fresh).error ≡ none
unfolding restore checkpoint_of records_of split_key get_allocated_ips allocated_ips allocate assign
    first_free lookup insert pod_key bytes_beq uint32_to_ip ip_to_uint32 to4
no_error = refl

web_held : lookup (pod_key web default_ns) used.allocated ≡ some web_record
unfolding allocate assign first_free lookup insert pod_key bytes_beq uint32_to_ip ip_to_uint32 to4
web_held = refl

restore-checkpoint_of_example :
    IsValid (restore ip_string cidr_string 5 saved.records fresh).allocator
    × ((q : AllocRecord) × (lookup
            (pod_key web default_ns)
            (restore ip_string cidr_string 5 saved.records fresh).allocator.allocated
          ≡ some q))
restore-checkpoint_of_example =
    restore-checkpoint_of ip_string cidr_string 5 used fresh web default_ns web_record fresh-IsValid
      no_error web_held
