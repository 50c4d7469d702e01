-- ===== src/Ipam/Controller/Disjoint.antt =====
-- Where the blocks of IPAMController (pkg/ipam/controller.go) lie, by their own masks.
use coordino.Base.{
  ℕ, ◌+◌, ◌-◌, ◌*◌, ◌^◌, ◌≤◌, ◌<◌, ◌≡◌, refl, sym, ap, subst, ◌∙◌, ◌≢◌, ◌⊎◌, inl, inr, some, List,
  [], ◌∷◌, arith, dec_lt, Bytes, bytes_eq,
}
use coordino.Net.{IpNet, ip_to_uint32}
use coordino.Ipam.Controller.{
  BlockAssignment, IpamController, Call, assigns, secondary, releases, step, run, assign_block,
  assign_secondary_block, assign_next_block, release_blocks, take_block, blocks_of, block_at,
}
use coordino.Ipam.Controller.Blocks.{get_elem?, width, span, block_at-ip, block_at-mask, total-span}
use coordino.Ipam.Controller.Invariant.{IsValid, run-IsValid}

rows_apart : (j k w : ℕ) → j ≢ k → (j * w + w ≤ k * w) ⊎ (k * w + w ≤ j * w)
rows_apart j k w ne = elim (dec_lt j k) [
  | yes h ↦ inl (grind arith)
  | no h ↦ inr (let lt : k < j = omega arith in grind arith)
]

-- The calls change neither the cluster's prefix nor the size of the blocks.
abbrev SameConfig : IpamController → IpamController → Type 0
SameConfig c d = (d.cluster_cidr ≡ c.cluster_cidr) × (d.block_size ≡ c.block_size)

assign_next_block-SameConfig :
    (c : IpamController) (node : Bytes) (now : ℕ) → SameConfig c (assign_next_block c node now).0
unfolding assign_next_block take_block
assign_next_block-SameConfig c node now = ground arith

assign_block-SameConfig :
    (c : IpamController) (node : Bytes) (now : ℕ) → SameConfig c (assign_block c node now).0
unfolding assign_block
assign_block-SameConfig c node now = ground (arith, assign_next_block-SameConfig c node now)

step-SameConfig : (c : IpamController) (x : ℕ × Call) → SameConfig c (step c x)
unfolding step assign_secondary_block release_blocks
step-SameConfig c (now, assigns node) = assign_block-SameConfig c node now
step-SameConfig c (now, secondary node) = assign_next_block-SameConfig c node now
step-SameConfig c (now, releases node) = (refl, refl)

run-SameConfig : (c : IpamController) (xs : List (ℕ × Call)) → SameConfig c (run c xs)
unfolding run
run-SameConfig c [] = (refl, refl)
run-SameConfig c (x ∷ xs) =
    let (net, size) = run-SameConfig (step c x) xs in
    let (net', size') = step-SameConfig c x in (net ∙ net', size ∙ size')

-- A block of a valid controller has the mask of BlockSize and lies inside the cluster.
block_inside :
    (c : IpamController) (n : Bytes) (p : ℕ) (b : BlockAssignment)
    → IsValid c
    → get_elem? (blocks_of c n) p ≡ some b
    → (b.cidr.ones ≡ c.block_size)
      × (b.cidr.bits ≡ 32)
      × (span b.cidr ≡ width c)
      × (ip_to_uint32 c.cluster_cidr.ip ≤ ip_to_uint32 b.cidr.ip)
      × (ip_to_uint32 b.cidr.ip + span b.cidr
          ≤ ip_to_uint32 c.cluster_cidr.ip + span c.cluster_cidr)
block_inside c n p b v h =
    let (j, below, at) = v.numbered n p b h in
    let ones : b.cidr.ones ≡ c.block_size =
      ap (λ (x : IpNet). x.ones) at ∙ (block_at-mask c j v.ipv4).0 in
    let bits : b.cidr.bits ≡ 32 = ap (λ (x : IpNet). x.bits) at ∙ (block_at-mask c j v.ipv4).1 in
    let first : ip_to_uint32 b.cidr.ip ≡ ip_to_uint32 c.cluster_cidr.ip + j * width c =
      ap (λ (x : IpNet). ip_to_uint32 x.ip) at
      ∙ block_at-ip c j v.ipv4 (omega (arith, below, v.bounded)) in
    let size : span b.cidr ≡ width c = rw (ones, bits) refl in
    let rows : j * width c + width c ≤ 2 ^ (c.block_size - c.cluster_cidr.ones) * width c =
      grind (arith, below, v.bounded) in
    (ones, bits, size, omega (arith, first), omega (arith, first, size, rows, total-span c v.ipv4))

-- After any calls of AssignBlock, AssignSecondaryBlock and ReleaseBlocks on a valid controller, two
-- blocks that are held at different places (another node, or another position in a node's list) have
-- no address in common: the ranges that their own masks give do not overlap. The mask of a block has
-- BlockSize ones of 32 bits, and its range lies inside the cluster's.
pub blocks_disjoint :
    (c : IpamController) (xs : List (ℕ × Call)) (m n : Bytes) (p q : ℕ) (b d : BlockAssignment)
    → IsValid c
    → get_elem? (blocks_of (run c xs) m) p ≡ some b
    → get_elem? (blocks_of (run c xs) n) q ≡ some d
    → ¬ ((m ≡ n) × (p ≡ q))
    → ((ip_to_uint32 b.cidr.ip + span b.cidr ≤ ip_to_uint32 d.cidr.ip)
        ⊎ (ip_to_uint32 d.cidr.ip + span d.cidr ≤ ip_to_uint32 b.cidr.ip))
      × (b.cidr.ones ≡ c.block_size)
      × (b.cidr.bits ≡ 32)
      × (ip_to_uint32 c.cluster_cidr.ip ≤ ip_to_uint32 b.cidr.ip)
      × (ip_to_uint32 b.cidr.ip + span b.cidr
          ≤ ip_to_uint32 c.cluster_cidr.ip + span c.cluster_cidr)
blocks_disjoint c xs m n p q b d v hb hd other =
    let w = run-IsValid c xs v in
    let (j, below_j, at_j) = w.numbered m p b hb in
    let (k, below_k, at_k) = w.numbered n q d hd in
    let first_j = block_at-ip (run c xs) j w.ipv4 (omega (arith, below_j, w.bounded)) in
    let first_k = block_at-ip (run c xs) k w.ipv4 (omega (arith, below_k, w.bounded)) in
    let ip_j = ap (λ (x : IpNet). ip_to_uint32 x.ip) at_j in
    let ip_k = ap (λ (x : IpNet). ip_to_uint32 x.ip) at_k in
    let differ : j ≢ k = λ e. other (
      w.apart m n p q b d hb hd
        (ip_j ∙ ap (λ i. ip_to_uint32 (block_at (run c xs) i).ip) e ∙ sym ip_k)) in
    let (ones, bits, size_b, low, high) = block_inside (run c xs) m p b w hb in
    let (_, _, size_d, _, _) = block_inside (run c xs) n q d w hd in
    let (net, size) = run-SameConfig c xs in
    (
      elim (rows_apart j k (width (run c xs)) differ) [
        | inl before ↦ inl (omega (arith, ip_j, ip_k, first_j, first_k, size_b, before))
        | inr behind ↦ inr (omega (arith, ip_j, ip_k, first_j, first_k, size_d, behind))
      ],
      ones ∙ size,
      bits,
      subst (λ (x : IpNet). ip_to_uint32 x.ip ≤ ip_to_uint32 b.cidr.ip) net low,
      subst (λ (x : IpNet). ip_to_uint32 b.cidr.ip + span b.cidr ≤ ip_to_uint32 x.ip + span x) net
          high,
    )
