-- ===== src/Ipam/Node/Count.antt =====
-- IsAllocated and Available of NodeAllocator (pkg/ipam/ipam.go) against the bitmap and the records.
use coordino.Base.{
  ℕ, zero, suc, ◌+◌, ◌-◌, ◌≤◌, ◌<◌, ◌≡◌, refl, sym, ap, subst, ◌∙◌, ◌↔◌, ◌⊎◌, inl, inr, Bool, true,
  false, none, List, [], ◌∷◌, arith, ℕ_discrete, length, get_or, Bool-cases, Bytes, bytes_eq, ok,
  err,
}
use coordino.Base.GoMap.{lookup, lookup-insert_self, any-lookup, any-eq-false}
use coordino.Net.{
  Ip, ip_to_uint32, uint32_to_ip, add32, u32_mod, ip_equal, ip_equal_refl, ip_equal-uint32_to_ip,
}
use coordino.Ipam.Node.{
  AllocRecord, NodeAllocator, no_available_ips, assign, allocate, is_allocated, count_free,
  available, offset, pod_key,
}
use coordino.Ipam.Node.Slots.{IsFirstFree}
use coordino.Ipam.Node.Invariant.{Slot, IsValid, offset-Slot, count_true}
use coordino.Ipam.Node.Allocate.{known, fresh_at, full, allocate-Outcome}

-- The address of an offset of the block.
abbrev pub address : NodeAllocator → ℕ → Ip
address a i = uint32_to_ip (add32 (ip_to_uint32 a.base_ip) i)

owner_address :
    (a : NodeAllocator) (r : AllocRecord) (s : Slot a r) (i : ℕ)
    → ip_to_uint32 a.base_ip + a.block_size ≤ u32_mod
    → offset a r.ip ≡ i
    → r.ip ≡ address a i
owner_address a r s i fits o = s.address ∙ ap (address a) (sym (offset-Slot a r fits s) ∙ o)

-- In a valid allocator, IsAllocated finds a record for an address of the block exactly when the
-- address's bit is set.
pub is_allocated-bitmap :
    (a : NodeAllocator) (i : ℕ)
    → IsValid a
    → i < a.block_size
    → is_allocated a (address a i) ≡ get_or a.bitmap i false
unfolding is_allocated
is_allocated-bitmap a i v h = elim (Bool-cases (get_or a.bitmap i false)) [
  | inl taken ↦
      let (k, r, l, o) = v.owned i taken in
      let same : r.ip ≡ address a i = owner_address a r (v.slots k r l) i v.fits o in
      any-lookup (λ e. ip_equal e.1.ip (address a i)) k r a.allocated l
        (rw same (ip_equal_refl (address a i)))
      ∙ sym taken
  | inr free ↦
      any-eq-false (λ e. ip_equal e.1.ip (address a i)) a.allocated v.distinct
        (λ k r l. other r (v.slots k r l) free)
      ∙ sym free
]
  where
    other :
        (r : AllocRecord) (s : Slot a r)
        → get_or a.bitmap i false ≡ false
        → ip_equal r.ip (address a i) ≡ false
    other r s free = elim (Bool-cases (ip_equal r.ip (address a i))) [
      | inr e ↦ e
      | inl e ↦
          let base = ip_to_uint32 a.base_ip in
          let same : s.index ≡ i = omega (
            arith,
            v.fits,
            s.before_last,
            ip_equal-uint32_to_ip (add32 base s.index) (add32 base i) (omega arith) (omega arith)
                (subst (λ x. ip_equal x (address a i) ≡ true) s.address e),
          ) in
          absurd (ground (arith, s.marked, free, ap (λ n. get_or a.bitmap n false) same))
    ]

taken_after :
    (a : NodeAllocator) (name namespace : Bytes) (now i : ℕ)
    → IsValid a
    → lookup (pod_key name namespace) a.allocated ≡ none
    → IsFirstFree 0 a.block_size a.block_size a.bitmap i
    → is_allocated (assign a name namespace now i) (address a i) ≡ true
unfolding is_allocated assign
taken_after a name namespace now i v e f =
    any-lookup (λ x. ip_equal x.1.ip (address a i)) (pod_key name namespace) new_record _
      (lookup-insert_self (pod_key name namespace) new_record a.allocated)
      (ip_equal_refl (address a i))
  where
    new_record : AllocRecord
    new_record = record {
      ip = address a i;
      pod_name = name;
      pod_namespace = namespace;
      allocated_at = now;
    }

suc_add_one : (i : ℕ) → suc i + 1 ≡ suc (i + 1)
suc_add_one i = omega arith

zero_add_one : Unit {0} → 0 + 1 ≡ 1
zero_add_one _ = refl

add_zero : (i : ℕ) → i + 0 ≡ i
add_zero i = omega arith

shift : (i n : ℕ) → i + 1 + n ≡ i + suc n
shift i n = omega arith

size_split : (n : ℕ) → 2 ≤ n → n ≡ suc (suc (n - 2))
size_split n h = omega arith

count_free_first :
    (rounds : ℕ) (bs : List Bool)
    → get_or bs 0 false ≡ false
    → count_free (suc rounds) 0 bs ≡ count_free rounds 1 bs + 1
unfolding count_free
count_free_first rounds bs h = ground arith

-- In a valid allocator, an address that Allocate returns to a pod without one was not allocated
-- before, is allocated after, and lies strictly between the first and the last address of the block.
pub allocate_fresh :
    (a : NodeAllocator) (name namespace : Bytes) (now : ℕ) (ip : Ip)
    → IsValid a
    → lookup (pod_key name namespace) a.allocated ≡ none
    → (allocate a name namespace now).1 ≡ ok ip
    → (is_allocated a ip ≡ false)
      × (is_allocated (allocate a name namespace now).0 ip ≡ true)
      × (i : ℕ) × (0 < i)
      × (suc i < a.block_size)
      × (ip ≡ address a i)
allocate_fresh a name namespace now ip v fresh h = elim (allocate-Outcome a name namespace now) [
  | known r e c ↦ absurd (ground (arith, e, fresh))
  | full e f c ↦ absurd (ground (arith, c, h))
  | fresh_at i e f c ↦
      let same : ip ≡ address a i = ground (arith, c, h) in
      let last : suc i < a.block_size = omega (arith, f.within, f.not_last, f.inner) in
      (
        ap (is_allocated a) same ∙ is_allocated-bitmap a i v (omega arith) ∙ f.free,
        rw (c, same) (taken_after a name namespace now i v fresh f),
        i,
        f.inner,
        last,
        same,
      )
]

unused_offset :
    (a : NodeAllocator) (i : ℕ)
    → IsValid a
    → (i ≡ 0) ⊎ (i ≡ a.block_size - 1)
    → get_or a.bitmap i false ≡ false
unused_offset a i v edge = elim (Bool-cases (get_or a.bitmap i false)) [
  | inr free ↦ free
  | inl taken ↦
      let (k, r, l, o) = v.owned i taken in
      let s = v.slots k r l in
      absurd (omega (arith, o, offset-Slot a r v.fits s, s.inner, s.before_last, edge))
]

count_free-suc :
    (rounds i : ℕ) (b : Bool) (bs : List Bool)
    → count_free rounds (suc i) (b ∷ bs) ≡ count_free rounds i bs
unfolding count_free
count_free-suc zero i b bs = refl
count_free-suc (suc rounds) i b bs = ground (
  arith,
  ap (λ n. count_free rounds n (b ∷ bs)) (suc_add_one i),
  count_free-suc rounds (i + 1) b bs,
)

-- Over the whole bitmap each bit is either counted as free or as taken.
count_free-add-count_true :
    (bs : List Bool) → count_free (length bs) 0 bs + count_true bs ≡ length bs
unfolding count_free
count_free-add-count_true [] = refl
count_free-add-count_true (b ∷ bs) = ground (
  arith,
  ap (λ n. count_free (length bs) n (b ∷ bs)) (zero_add_one tt),
  count_free-suc (length bs) 0 b bs,
  count_free-add-count_true bs,
)

count_free_last :
    (rounds i : ℕ) (bs : List Bool)
    → get_or bs (i + rounds) false ≡ false
    → count_free (suc rounds) i bs ≡ count_free rounds i bs + 1
unfolding count_free
count_free_last zero i bs h = ground (arith, ap (λ n. get_or bs n false) (add_zero i))
count_free_last (suc rounds) i bs h =
    ground
      (arith, count_free_last rounds (i + 1) bs (ap (λ n. get_or bs n false) (shift i rounds) ∙ h))

-- In a valid allocator of at least two addresses, the free addresses, the recorded pods and the two
-- reserved addresses together make up the block: no address leaks.
pub available-add-length :
    (a : NodeAllocator)
    → IsValid a
    → 2 ≤ a.block_size
    → available a + length a.allocated + 2 ≡ a.block_size
unfolding available
available-add-length a v h =
    let n = a.block_size - 2 in
    let inner = count_free_last n 1 a.bitmap (unused_offset a (1 + n) v (inr (omega arith))) in
    let all = count_free-add-count_true a.bitmap in
    omega (
      arith,
      inner,
      all,
      v.counted,
      v.sized,
      ap (λ m. count_free m 0 a.bitmap) (size_split a.block_size h ∙ ap suc refl),
      ap (λ m. count_free m 0 a.bitmap) v.sized,
      count_free_first (suc n) a.bitmap (unused_offset a 0 v (inl refl)),
    )

count_free_none :
    (rounds i : ℕ) (bs : List Bool)
    → ((k : ℕ) → i ≤ k → k < i + rounds → get_or bs k false ≡ true)
    → count_free rounds i bs ≡ 0
unfolding count_free
count_free_none zero i bs h = refl
count_free_none (suc rounds) i bs h = ground (
  arith,
  h i (omega arith) (omega arith),
  count_free_none rounds (i + 1) bs (λ k p q. h k (omega arith) (omega arith)),
)

count_free_some :
    (rounds i k : ℕ) (bs : List Bool)
    → i ≤ k
    → k < i + rounds
    → get_or bs k false ≡ false
    → 0 < count_free rounds i bs
unfolding count_free
count_free_some zero i k bs p q h = absurd (omega arith)
count_free_some (suc rounds) i k bs p q h = elim (ℕ_discrete i k) [
  | yes e ↦ ground (arith, ap (λ n. get_or bs n false) e)
  | no ne ↦ ground (arith, count_free_some rounds (i + 1) k bs (omega arith) (omega arith) h)
]

-- Allocate fails for want of addresses exactly when the pod has none yet and Available is 0.
pub allocate_fails_iff :
    (a : NodeAllocator) (name namespace : Bytes) (now : ℕ)
    → ((allocate a name namespace now).1 ≡ err no_available_ips)
      ↔ ((lookup (pod_key name namespace) a.allocated ≡ none) × (available a ≡ 0))
unfolding available
allocate_fails_iff a name namespace now = elim (allocate-Outcome a name namespace now) [
  | known r e c ↦ (λ h. absurd (ground (arith, c, h)), λ h. absurd (ground (arith, e, h.0)))
  | full e f c ↦ (
    λ h. (
      e,
      count_free_none (a.block_size - 2) 1 a.bitmap
          (λ k p q. f k (omega arith) (omega arith) (omega arith)),
    ),
    λ h. ground (arith, c),
  )
  | fresh_at i e f c ↦ (
    λ h. absurd (ground (arith, c, h)),
    λ h. absurd (
        omega (
          arith,
          count_free_some (a.block_size - 2) 1 i a.bitmap (omega (arith, f.inner))
              (omega (arith, f.within, f.not_last, f.inner)) f.free,
          h.1,
        )),
  )
]
