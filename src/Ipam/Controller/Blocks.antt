-- ===== src/Ipam/Controller/Blocks.antt =====
-- The blocks of IPAMController (pkg/ipam/controller.go) do not overlap.
use coordino.Base.{
  ℕ, zero, suc, ◌+◌, ◌-◌, ◌*◌, ◌^◌, ◌≤◌, ◌<◌, ◌≡◌, refl, ap, ◌∙◌, ◌⊎◌, inl, inr, true, false,
  Option, none, some, List, [], ◌∷◌, ◌++◌, arith, bytes_eq, ltb, leb, length,
}
use coordino.Net.{IpNet, ip_to_uint32, u32_mod, ip_to_uint32-uint32_to_ip}
use native.Mathlib.Nat.{pow-suc, mod-eq_of_lt}
use coordino.Ipam.Controller.{IpamController, block_at, block_shift, total_blocks}

module _ {ℓ} {A : Type ℓ} where
  abbrev pub get_elem? : List A → ℕ → Option A
  get_elem? [] i = none
  get_elem? (x ∷ xs) zero = some x
  get_elem? (x ∷ xs) (suc i) = get_elem? xs i

  -- An item of `xs ++ [y]` is an item of `xs` or the last.
  pub get_elem?-append_one :
      (xs : List A) (y : A) (i : ℕ) {x : A}
      → get_elem? (xs ++ (y ∷ [])) i ≡ some x
      → (get_elem? xs i ≡ some x) ⊎ ((i ≡ length xs) × (x ≡ y))
  get_elem?-append_one [] y zero h = inr (refl, ground arith)
  get_elem?-append_one [] y (suc i) h = cc
  get_elem?-append_one (z ∷ xs) y zero h = inl h
  get_elem?-append_one (z ∷ xs) y (suc i) h = elim (get_elem?-append_one xs y i h) [
    | inl old ↦ inl old
    | inr (e, p) ↦ inr (omega arith, p)
  ]

-- An IPv4 cluster whose blocks are no larger than it, inside the address space.
pub record IsIpv4 (c : IpamController) : Type 0 where
  pub bits_32 : c.cluster_cidr.bits ≡ 32
  pub ones_le : c.cluster_cidr.ones ≤ c.block_size
  pub size_le : c.block_size ≤ 32
  pub fits :
      ip_to_uint32 c.cluster_cidr.ip
        + 2 ^ (c.block_size - c.cluster_cidr.ones) * 2 ^ (32 - c.block_size)
      ≤ u32_mod

abbrev pub base : IpamController → ℕ
base c = ip_to_uint32 c.cluster_cidr.ip

-- The number of addresses in a block.
abbrev pub width : IpamController → ℕ
width c = 2 ^ (32 - c.block_size)

-- The number of addresses under a network's own prefix.
abbrev pub span : IpNet → ℕ
span n = 2 ^ (n.bits - n.ones)

two_pow_pos : (n : ℕ) → 0 < 2 ^ n
two_pow_pos zero = omega arith
two_pow_pos (suc n) = rw pow-suc (omega (arith, two_pow_pos n))

two_pow-add : (m n : ℕ) → 2 ^ m * 2 ^ n ≡ 2 ^ (m + n)
two_pow-add zero n = let same : 0 + n ≡ n = omega arith in rw same (omega arith)
two_pow-add (suc m) n =
    let next : suc m + n ≡ suc (m + n) = omega arith in
    rw (next, pow-suc 2 m, pow-suc 2 (m + n)) (grind (arith, two_pow-add m n))

pub width-pos : (c : IpamController) → 0 < width c
width-pos c = two_pow_pos (32 - c.block_size)

-- The block of an index below the total lies inside the address space.
pub block_end :
    (b j t w : ℕ) → j < t → 0 < w → b + t * w ≤ u32_mod → (b + j * w + w ≤ u32_mod) × (j < u32_mod)
block_end b j t w h p f = let rows : j * w + w ≤ t * w = grind arith in (omega arith, grind arith)

block_shift_lem :
    (c : IpamController) (j : ℕ)
    → IsIpv4 c
    → j < 2 ^ (c.block_size - c.cluster_cidr.ones)
    → block_shift c j ≡ j * width c
unfolding block_shift
block_shift_lem c j v h =
    let (far, small) = block_end (base c) j _ (width c) h (width-pos c) v.fits in
    let covered : ltb c.cluster_cidr.bits c.block_size ≡ false =
      ground (arith, v.bits_32, v.size_le) in
    rw (covered, v.bits_32, mod-eq_of_lt small) (mod-eq_of_lt (omega (arith, far, width-pos c)))

-- The first address of a block below the total.
pub block_at-ip :
    (c : IpamController) (j : ℕ)
    → IsIpv4 c
    → j < 2 ^ (c.block_size - c.cluster_cidr.ones)
    → ip_to_uint32 (block_at c j).ip ≡ base c + j * width c
unfolding block_at
block_at-ip c j v h =
    let (far, small) = block_end (base c) j _ (width c) h (width-pos c) v.fits in
    let covered : leb c.block_size c.cluster_cidr.bits ≡ true =
      ground (arith, v.bits_32, v.size_le) in
    let inside : base c + j * width c < u32_mod = omega (arith, far, width-pos c) in
    rw (covered, block_shift_lem c j v h, mod-eq_of_lt inside)
      (ip_to_uint32-uint32_to_ip (base c + j * width c) inside)

-- The mask of a block is that of BlockSize.
pub block_at-mask :
    (c : IpamController) (j : ℕ)
    → IsIpv4 c
    → ((block_at c j).ones ≡ c.block_size) × ((block_at c j).bits ≡ 32)
unfolding block_at
block_at-mask c j v =
    let covered : leb c.block_size c.cluster_cidr.bits ≡ true =
      ground (arith, v.bits_32, v.size_le) in
    rw (covered, v.bits_32) (refl, refl)

-- The blocks fill the cluster's prefix.
pub total-span :
    (c : IpamController)
    → IsIpv4 c
    → 2 ^ (c.block_size - c.cluster_cidr.ones) * width c ≡ span c.cluster_cidr
total-span c v =
    two_pow-add (c.block_size - c.cluster_cidr.ones) (32 - c.block_size)
    ∙ ap (λ n. 2 ^ n) (omega (arith, v.bits_32, v.ones_le, v.size_le))

pub total_lem :
    (c : IpamController)
    → IsIpv4 c
    → total_blocks c ≡ some (2 ^ (c.block_size - c.cluster_cidr.ones))
unfolding total_blocks
total_lem c v = ground (arith, v.ones_le, v.size_le)
