-- ===== src/Ipam/Node/History.antt =====
-- Whole histories of NodeAllocator (pkg/ipam/ipam.go), from NewNodeAllocator on.
use coordino.Base.{
  ℕ, zero, suc, ◌+◌, ◌-◌, ◌≤◌, ◌≡◌, refl, sym, ap, ◌∙◌, subst, inl, inr, Bool, false, some, List,
  [], ◌∷◌, arith, replicate, length-replicate, get_or-replicate, Bytes, bytes_eq, ok, err,
  Option-cases,
}
use coordino.Base.GoMap.{lookup}
use coordino.Net.{IpNet, ip_to_uint32, u32_mod}
use coordino.Ipam.Node.{
  AllocRecord, NodeAllocator, block_size_of, new_node_allocator, allocate, release, reconcile,
  offset,
}
use coordino.Ipam.Node.Invariant.{IsValid, count_true}
use coordino.Ipam.Node.Allocate.{allocate-IsValid}
use coordino.Ipam.Node.Release.{release-IsValid}
use coordino.Ipam.Node.Reconcile.{reconcile_lem}

-- One call of a method that changes the allocator; `reconciles` takes the set of active pods.
pub data Call : Type 0 where
  allocates : Bytes → Bytes → ℕ → Call
  releases : Bytes → Bytes → Call
  reconciles : (Bytes → Bool) → Call

abbrev pub step : NodeAllocator → Call → NodeAllocator
step a (Call.allocates name namespace now) = (allocate a name namespace now).0
step a (Call.releases name namespace) = release a name namespace
step a (Call.reconciles active) = (reconcile a active).0

abbrev pub run : List Call → NodeAllocator → NodeAllocator
run [] a = a
run (c ∷ cs) a = run cs (step a c)

step-IsValid : (a : NodeAllocator) (c : Call) → IsValid a → IsValid (step a c)
step-IsValid a (Call.allocates name namespace now) v = allocate-IsValid a name namespace now v
step-IsValid a (Call.releases name namespace) v = release-IsValid a name namespace v
step-IsValid a (Call.reconciles active) v = (reconcile_lem a active v).0

pub run-IsValid : (cs : List Call) (a : NodeAllocator) → IsValid a → IsValid (run cs a)
run-IsValid [] a v = v
run-IsValid (c ∷ cs) a v = run-IsValid cs (step a c) (step-IsValid a c v)

count_true-replicate : (n : ℕ) → count_true (replicate n false) ≡ 0
count_true-replicate zero = refl
count_true-replicate (suc n) = omega (arith, count_true-replicate n)

empty_block : IpNet → ℕ → NodeAllocator
empty_block net size = record {
  pod_cidr = net;
  bitmap = replicate size false;
  allocated = [];
  base_ip = net.ip;
  block_size = size;
}

empty_block-IsValid :
    (net : IpNet) (size : ℕ) → ip_to_uint32 net.ip + size ≤ u32_mod → IsValid (empty_block net size)
unfolding empty_block lookup
empty_block-IsValid net size f = record {
  sized = length-replicate size false;
  fits = f;
  distinct = tt;
  slots = λ k r h. absurd (ground arith);
  apart = λ j k q r h. absurd (ground arith);
  owned = λ i h. absurd (ground (arith, h, get_or-replicate size i false));
  counted = count_true-replicate size;
}

pub new_node_allocator-IsValid :
    (net : IpNet) (a : NodeAllocator)
    → new_node_allocator (some net) ≡ ok a
    → ip_to_uint32 net.ip + a.block_size ≤ u32_mod
    → IsValid a
unfolding new_node_allocator empty_block
new_node_allocator-IsValid net a h f = elim (Option-cases (block_size_of (net.bits - net.ones))) [
  | inl e ↦ absurd (ground (arith, e, h))
  | inr (size, e) ↦
      let made : new_node_allocator (some net) ≡ ok (empty_block net size) =
        rw (e, new_node_allocator) refl in
      let same : empty_block net size ≡ a =
        ap (λ r. elim r [ ok x ↦ x | err _ ↦ empty_block net size ]) (sym made ∙ h) in
      subst IsValid same (
        empty_block-IsValid net size
          (omega (arith, f, ap (λ (x : NodeAllocator). x.block_size) same)))
]

-- After any calls of Allocate, Release and Reconcile on a new allocator whose block ends within the
-- IPv4 addresses, two keys whose records hold the same address are one key: no two pods share an
-- address.
pub no_shared_address :
    (net : IpNet) (a : NodeAllocator) (cs : List Call) (j k : Bytes) (q r : AllocRecord)
    → new_node_allocator (some net) ≡ ok a
    → ip_to_uint32 net.ip + a.block_size ≤ u32_mod
    → lookup j (run cs a).allocated ≡ some q
    → lookup k (run cs a).allocated ≡ some r
    → q.ip ≡ r.ip
    → j ≡ k
no_shared_address net a cs j k q r h f lj lk e =
    let v = run-IsValid cs a (new_node_allocator-IsValid net a h f) in
    v.apart j k q r lj lk (ap (offset (run cs a)) e)
