-- ===== src/Ipam/Controller/Invariant.antt =====
-- The invariant of IPAMController (pkg/ipam/controller.go) and what its calls keep.
use coordino.Base.{
  ℕ, ◌-◌, ◌*◌, ◌^◌, ◌≤◌, ◌<◌, ◌≡◌, refl, sym, ap, subst, ◌∙◌, ◌≢◌, ◌⊎◌, inl, inr, true, Option,
  none, some, List, [], ◌∷◌, ◌++◌, arith, Bytes, bytes_eq, ok, leb, if◌then◌else◌, Bool-cases,
  length, ◌==◌, eq_of_beq,
}
use coordino.Base.GoMap.{lookup, lookup-insert, lookup-delete}
use coordino.Net.{IpNet, ip_to_uint32}
use coordino.Ipam.Controller.{
  BlockAssignment, IpamController, Call, assigns, secondary, releases, step, run, assign_block,
  assign_secondary_block, assign_next_block, release_blocks, take_block, blocks_of, block_at,
  block_shift, new_ipam_controller,
}
use coordino.Ipam.Controller.Blocks.{
  get_elem?, get_elem?-append_one, IsIpv4, width, width-pos, block_at-ip, total_lem,
}

row_lt : (j k w : ℕ) → j < k → 0 < w → j * w < k * w
row_lt j k w h p = grind arith

no_block :
    (n : Bytes) (p : ℕ) (b : BlockAssignment) {bs : List BlockAssignment}
    → bs ≡ []
    → get_elem? bs p ≡ some b
    → ⊥
no_block n p b e l = ground (arith, ap (λ (x : List BlockAssignment). get_elem? x p) e)

-- Each block of a node is the one of an index already passed, and no two places hold one address.
pub record IsValid (c : IpamController) : Type 0 where
  pub ipv4 : IsIpv4 c
  pub bounded : c.next_block_index ≤ 2 ^ (c.block_size - c.cluster_cidr.ones)
  pub numbered :
      (n : Bytes) (p : ℕ) (b : BlockAssignment)
      → get_elem? (blocks_of c n) p ≡ some b
      → (j : ℕ) × (j < c.next_block_index) × (b.cidr ≡ block_at c j)
  pub apart :
      (m n : Bytes) (p q : ℕ) (b d : BlockAssignment)
      → get_elem? (blocks_of c m) p ≡ some b
      → get_elem? (blocks_of c n) q ≡ some d
      → ip_to_uint32 b.cidr.ip ≡ ip_to_uint32 d.cidr.ip
      → (m ≡ n) × (p ≡ q)

blocks_of-take_block :
    (c : IpamController) (node : Bytes) (now : ℕ) (n : Bytes)
    → blocks_of (take_block c node now) n ≡ (
        if node == n
        then blocks_of c node
          ++ (record { node_name = node; cidr = block_at c c.next_block_index; allocated_at = now }
              ∷ [])
        else blocks_of c n)
unfolding blocks_of take_block
blocks_of-take_block c node now n = ground (
  arith,
  lookup-insert node n
      (blocks_of c node
        ++ (record { node_name = node; cidr = block_at c c.next_block_index; allocated_at = now }
            ∷ []))
      c.assignments,
)

blocks_of-release_blocks :
    (c : IpamController) (node n : Bytes)
    → blocks_of (release_blocks c node) n ≡ (if node == n then [] else blocks_of c n)
unfolding blocks_of release_blocks
blocks_of-release_blocks c node n = ground (arith, lookup-delete node n c.assignments)

blocks_of_released :
    (c : IpamController) (node n : Bytes)
    → (node == n) ≡ true
    → blocks_of (release_blocks c node) n ≡ []
blocks_of_released c node n e = ground (arith, blocks_of-release_blocks c node n, e)

module _ (c : IpamController) (node : Bytes) (now : ℕ) (v : IsValid c)
    (left : c.next_block_index < 2 ^ (c.block_size - c.cluster_cidr.ones)) where
  abbrev new_block : BlockAssignment
  new_block = record { node_name = node; cidr = block_at c c.next_block_index; allocated_at = now }

  at_node :
      (n : Bytes)
      → (node == n) ≡ true
      → blocks_of (take_block c node now) n ≡ blocks_of c node ++ (new_block ∷ [])
  at_node n e = ground (arith, blocks_of-take_block c node now n, e)

  -- A block after the call is an old one in its place, or the new one at the end of its node's.
  placed :
      (n : Bytes) (p : ℕ) (b : BlockAssignment)
      → get_elem? (blocks_of (take_block c node now) n) p ≡ some b
      → (get_elem? (blocks_of c n) p ≡ some b)
        ⊎ ((node ≡ n) × (p ≡ length (blocks_of c node)) × (b ≡ new_block))
  placed n p b h = elim (Bool-cases (node == n)) [
    | inr e ↦ inl (ground (arith, h, blocks_of-take_block c node now n, e))
    | inl e ↦
        let same : node ≡ n = eq_of_beq node n e in
        elim (get_elem?-append_one (blocks_of c node) new_block p
          (ap (λ bs. get_elem? bs p) (sym (at_node n e)) ∙ h)) [
            | inl old ↦ inl (subst (λ m. get_elem? (blocks_of c m) p ≡ some b) same old)
            | inr (l, q) ↦ inr (same, l, q)
          ]
  ]

  new_ne_old :
      (n : Bytes) (p : ℕ) (b d : BlockAssignment)
      → b ≡ new_block
      → get_elem? (blocks_of c n) p ≡ some d
      → ip_to_uint32 b.cidr.ip ≢ ip_to_uint32 d.cidr.ip
  new_ne_old n p b d new old e =
      let (j, lt, at) = v.numbered n p d old in
      let rows : j * width c < c.next_block_index * width c =
        row_lt j c.next_block_index (width c) lt (width-pos c) in
      absurd (
        omega (
          arith,
          e,
          ap (λ (x : BlockAssignment). ip_to_uint32 x.cidr.ip) new,
          block_at-ip c c.next_block_index v.ipv4 left,
          ap (λ (x : IpNet). ip_to_uint32 x.ip) at,
          block_at-ip c j v.ipv4 (omega arith),
          rows,
        ))

  take_block-IsValid : IsValid (take_block c node now)
  unfolding take_block block_at block_shift
  take_block-IsValid = record {
    ipv4 = record {
      bits_32 = v.ipv4.bits_32;
      ones_le = v.ipv4.ones_le;
      size_le = v.ipv4.size_le;
      fits = v.ipv4.fits;
    };
    bounded = omega arith;
    numbered = λ n p b h. elim (placed n p b h) [
      | inl old ↦ let (j, lt, at) = v.numbered n p b old in (j, omega arith, at)
      | inr (_, _, new) ↦
          (c.next_block_index, omega arith, ap (λ (x : BlockAssignment). x.cidr) new)
    ];
    apart = λ m n p q b d hb hd e. elim (placed m p b hb) [
      | inl old ↦ elim (placed n q d hd) [
        | inl old' ↦ v.apart m n p q b d old old' e
        | inr (_, _, new) ↦ absurd (new_ne_old m p d b new old (sym e))
      ]
      | inr (sm, lm, new) ↦ elim (placed n q d hd) [
        | inl old' ↦ absurd (new_ne_old n q b d new old' e)
        | inr (sn, ln, _) ↦ (sym sm ∙ sn, lm ∙ sym ln)
      ]
    ];
  }

assign_next_block-IsValid :
    (c : IpamController) (node : Bytes) (now : ℕ)
    → IsValid c
    → IsValid (assign_next_block c node now).0
unfolding assign_next_block
assign_next_block-IsValid c node now v =
    let total = 2 ^ (c.block_size - c.cluster_cidr.ones) in
    elim (Bool-cases (leb total c.next_block_index)) [
      | inl full ↦ rw (total_lem c v.ipv4, assign_next_block, full) v
      | inr left ↦
          rw (total_lem c v.ipv4, assign_next_block, left)
            (take_block-IsValid c node now v (ground arith))
    ]

assign_block-IsValid :
    (c : IpamController) (node : Bytes) (now : ℕ) → IsValid c → IsValid (assign_block c node now).0
unfolding assign_block
assign_block-IsValid c node now v = first_block (blocks_of c node) refl
  where
    first_block :
        (bs : List BlockAssignment) → blocks_of c node ≡ bs → IsValid (assign_block c node now).0
    first_block [] e = rw (e, assign_block) (assign_next_block-IsValid c node now v)
    first_block (b ∷ bs) e = rw (e, assign_block) v

release_blocks-IsValid :
    (c : IpamController) (node : Bytes) → IsValid c → IsValid (release_blocks c node)
unfolding release_blocks block_at block_shift
release_blocks-IsValid c node v = record {
  ipv4 = record {
    bits_32 = v.ipv4.bits_32;
    ones_le = v.ipv4.ones_le;
    size_le = v.ipv4.size_le;
    fits = v.ipv4.fits;
  };
  bounded = v.bounded;
  numbered = λ n p b h. v.numbered n p b (kept n p b h);
  apart = λ m n p q b d hb hd e. v.apart m n p q b d (kept m p b hb) (kept n q d hd) e;
}
  where
    kept :
        (n : Bytes) (p : ℕ) (b : BlockAssignment)
        → get_elem? (blocks_of (release_blocks c node) n) p ≡ some b
        → get_elem? (blocks_of c n) p ≡ some b
    kept n p b h = elim (Bool-cases (node == n)) [
      | inl e ↦ absurd (
          ground (
            arith,
            h,
            ap (λ (bs : List BlockAssignment). get_elem? bs p) (blocks_of_released c node n e),
          ))
      | inr e ↦ ground (arith, h, blocks_of-release_blocks c node n, e)
    ]

step-IsValid : (c : IpamController) (x : ℕ × Call) → IsValid c → IsValid (step c x)
unfolding step assign_secondary_block
step-IsValid c (now, assigns node) v = assign_block-IsValid c node now v
step-IsValid c (now, secondary node) v = assign_next_block-IsValid c node now v
step-IsValid c (now, releases node) v = release_blocks-IsValid c node v

-- Every history of calls keeps the invariant.
pub run-IsValid : (c : IpamController) (xs : List (ℕ × Call)) → IsValid c → IsValid (run c xs)
unfolding run
run-IsValid c [] v = v
run-IsValid c (x ∷ xs) v = run-IsValid (step c x) xs (step-IsValid c x v)

blocks_of-new :
    (net : IpNet) (size : ℕ) (c : IpamController) (n : Bytes)
    → new_ipam_controller (some net) size ≡ ok c
    → blocks_of c n ≡ []
unfolding new_ipam_controller blocks_of lookup
blocks_of-new net size c n h = ground arith

-- A new controller over an IPv4 cluster is valid.
pub new_ipam_controller-IsValid :
    (net : Option IpNet) (size : ℕ) (c : IpamController)
    → new_ipam_controller net size ≡ ok c
    → IsIpv4 c
    → IsValid c
unfolding new_ipam_controller
new_ipam_controller-IsValid none size c h v = cc
new_ipam_controller-IsValid (some net) size c h v = record {
  ipv4 = v;
  bounded = ground arith;
  numbered = λ n p b l. absurd (no_block n p b (nothing n) l);
  apart = λ m n p q b d l k e. absurd (no_block m p b (nothing m) l);
}
  where
    nothing : (n : Bytes) → blocks_of c n ≡ []
    nothing n = blocks_of-new net size c n h
