-- ===== src/Ipam/Node/Allocate.antt =====
-- NodeAllocator.Allocate (pkg/ipam/ipam.go).
use coordino.Base.{
  ℕ, ◌-◌, ◌<◌, ◌≡◌, refl, sym, ap, subst, ◌∙◌, ◌≢◌, ◌⊎◌, inl, inr, true, false, none, some, arith,
  ℕ_discrete, get_or, length-set, get_or-set_self, get_or-set_ne, Bool-cases, ◌==◌, Bytes, bytes_eq,
  ok, err, Option-cases, eq_of_beq, ne_of_beq,
}
use coordino.Base.GoMap.{
  lookup, insert, lookup-insert_self, lookup-insert, insert_keeps, insert-Distinct, length-insert,
}
use coordino.Net.{Ip, ip_to_uint32, uint32_to_ip, add32}
use coordino.Ipam.Node.{
  AllocRecord, NodeAllocator, no_available_ips, assign, allocate, first_free, offset, pod_key,
}
use coordino.Ipam.Node.Slots.{IsFirstFree, first_free-some, first_free-none, offset-address}
use coordino.Ipam.Node.Invariant.{Slot, IsValid, offset-Slot, count_true-set-true}

module _ (a : NodeAllocator) (name namespace : Bytes) (now i : ℕ) (v : IsValid a)
    (fresh : lookup (pod_key name namespace) a.allocated ≡ none)
    (first : IsFirstFree 0 a.block_size a.block_size a.bitmap i) where
  abbrev key : Bytes
  key = pod_key name namespace

  abbrev new_record : AllocRecord
  new_record = record {
    ip = uint32_to_ip (add32 (ip_to_uint32 a.base_ip) i);
    pod_name = name;
    pod_namespace = namespace;
    allocated_at = now;
  }

  new_offset : offset a new_record.ip ≡ i
  new_offset = offset-address (ip_to_uint32 a.base_ip) i (omega (arith, v.fits, first.within))

  -- What the new map holds: the new record, or an old one under another key.
  assigned :
      (k : Bytes) (r : AllocRecord)
      → lookup k (insert key new_record a.allocated) ≡ some r
      → ((k ≡ key) × (r ≡ new_record)) ⊎ ((k ≢ key) × (lookup k a.allocated ≡ some r))
  assigned k r h = elim (Bool-cases (key == k)) [
    | inl e ↦
        inl (sym (eq_of_beq key k e), ground (arith, lookup-insert key k new_record a.allocated))
    | inr e ↦
        inr (
          λ p. ne_of_beq key k e (sym p),
          ground (arith, lookup-insert key k new_record a.allocated),
        )
  ]

  old_index_ne : (r : AllocRecord) (s : Slot a r) → i ≢ s.index
  old_index_ne r s e = ground (arith, s.marked, first.free, ap (λ n. get_or a.bitmap n false) e)

  new-Slot : Slot (assign a name namespace now i) new_record
  unfolding assign
  new-Slot = record {
    index = i;
    inner = first.inner;
    before_last = omega (arith, first.within, first.not_last, first.inner);
    address = refl;
    marked = get_or-set_self a.bitmap i true false (omega (arith, v.sized, first.within));
  }

  old-Slot : (r : AllocRecord) → Slot a r → Slot (assign a name namespace now i) r
  unfolding assign
  old-Slot r s = record {
    index = s.index;
    inner = s.inner;
    before_last = s.before_last;
    address = s.address;
    marked = get_or-set_ne a.bitmap i s.index true false (old_index_ne r s) ∙ s.marked;
  }

  old_offset_ne : (q r : AllocRecord) → q ≡ new_record → Slot a r → offset a q.ip ≢ offset a r.ip
  old_offset_ne q r e s o = old_index_ne r s (
      sym new_offset
      ∙ ap (λ (x : AllocRecord). offset a x.ip) (sym e)
      ∙ o
      ∙ offset-Slot a r v.fits s)

  assign-apart :
      (j k : Bytes) (q r : AllocRecord)
      → lookup j (insert key new_record a.allocated) ≡ some q
      → lookup k (insert key new_record a.allocated) ≡ some r
      → offset a q.ip ≡ offset a r.ip
      → j ≡ k
  assign-apart j k q r hj hk o = elim (assigned j q hj) [
    | inl (ej, eq) ↦ elim (assigned k r hk) [
      | inl (ek, _) ↦ ej ∙ sym ek
      | inr (_, old) ↦ absurd (old_offset_ne q r eq (v.slots k r old) o)
    ]
    | inr (_, old) ↦ elim (assigned k r hk) [
      | inl (_, er) ↦ absurd (old_offset_ne r q er (v.slots j q old) (sym o))
      | inr (_, old') ↦ v.apart j k q r old old' o
    ]
  ]

  pub assign-IsValid : IsValid (assign a name namespace now i)
  unfolding assign
  assign-IsValid = record {
    sized = length-set a.bitmap i true ∙ v.sized;
    fits = v.fits;
    distinct = insert-Distinct _ _ a.allocated v.distinct;
    slots = λ k r h. elim (assigned k r h) [
      | inl (_, e) ↦ subst (Slot (assign a name namespace now i)) (sym e) new-Slot
      | inr (_, old) ↦ old-Slot r (v.slots k r old)
    ];
    apart = assign-apart;
    owned = λ n h. elim (ℕ_discrete i n) [
      | yes e ↦ (key, new_record, lookup-insert_self key new_record a.allocated, new_offset ∙ e)
      | no ne ↦
          let (k, r, l, o) = v.owned n (sym (get_or-set_ne a.bitmap i n true false ne) ∙ h) in
          (k, r, insert_keeps key k new_record r a.allocated fresh l, o)
    ];
    counted = omega (
      arith,
      v.counted,
      count_true-set-true a.bitmap i (omega (arith, v.sized, first.within)) first.free,
      length-insert key new_record a.allocated fresh,
    );
  }

-- The three outcomes of `allocate`, with what the search found.
pub data Outcome (a : NodeAllocator) (name namespace : Bytes) (now : ℕ) : Type 0 where
  known :
      (r : AllocRecord)
      → lookup (pod_key name namespace) a.allocated ≡ some r
      → allocate a name namespace now ≡ (a, ok r.ip)
      → Outcome a name namespace now
  fresh_at :
      (i : ℕ)
      → lookup (pod_key name namespace) a.allocated ≡ none
      → IsFirstFree 0 a.block_size a.block_size a.bitmap i
      → allocate a name namespace now
        ≡ (assign a name namespace now i, ok (uint32_to_ip (add32 (ip_to_uint32 a.base_ip) i)))
      → Outcome a name namespace now
  full :
      lookup (pod_key name namespace) a.allocated ≡ none
      → ((k : ℕ) → 0 < k → k < a.block_size → k ≢ a.block_size - 1 → get_or a.bitmap k false ≡ true)
      → allocate a name namespace now ≡ (a, err no_available_ips)
      → Outcome a name namespace now

pub allocate-Outcome :
    (a : NodeAllocator) (name namespace : Bytes) (now : ℕ) → Outcome a name namespace now
unfolding allocate
allocate-Outcome a name namespace now =
    elim (Option-cases (lookup (pod_key name namespace) a.allocated)) [
      | inr (r, e) ↦ known r e (rw (e, allocate) refl)
      | inl e ↦ elim (Option-cases (first_free a.block_size 0 a.block_size a.bitmap)) [
        | inr (i, f) ↦ fresh_at i e (first_free-some _ _ _ _ _ f) (rw (e, f, allocate) refl)
        | inl f ↦
            full e
              (λ k b c d.
                first_free-none a.block_size 0 a.block_size a.bitmap f k (omega arith) (omega arith)
                  b d)
              (rw (e, f, allocate) refl)
      ]
    ]

-- A call keeps the invariant, on every branch.
pub allocate-IsValid :
    (a : NodeAllocator) (name namespace : Bytes) (now : ℕ)
    → IsValid a
    → IsValid (allocate a name namespace now).0
allocate-IsValid a name namespace now v = elim (allocate-Outcome a name namespace now) [
  | known r e c ↦ rw c v
  | full e f c ↦ rw c v
  | fresh_at i e f c ↦ rw c (assign-IsValid a name namespace now i v e f)
]

-- A call leaves every record that was there.
pub allocate_keeps :
    (a : NodeAllocator) (name namespace : Bytes) (now : ℕ) (k : Bytes) (r : AllocRecord)
    → lookup k a.allocated ≡ some r
    → lookup k (allocate a name namespace now).0.allocated ≡ some r
unfolding assign
allocate_keeps a name namespace now k r h = elim (allocate-Outcome a name namespace now) [
  | known q l c ↦ rw c h
  | full l f c ↦ rw c h
  | fresh_at i l f c ↦ rw c (insert_keeps (pod_key name namespace) k _ r a.allocated l h)
]

-- The record that a call makes for the offset `i`.
abbrev fresh_record : NodeAllocator → Bytes → Bytes → ℕ → ℕ → AllocRecord
fresh_record a name namespace now i = record {
  ip = uint32_to_ip (add32 (ip_to_uint32 a.base_ip) i);
  pod_name = name;
  pod_namespace = namespace;
  allocated_at = now;
}

-- A call that succeeds leaves a record of the address under the pod's key.
pub allocate_records :
    (a : NodeAllocator) (name namespace : Bytes) (now : ℕ) (ip : Ip)
    → (allocate a name namespace now).1 ≡ ok ip
    → (r : AllocRecord) × (lookup
          (pod_key name namespace)
          (allocate a name namespace now).0.allocated
        ≡ some r)
      × (r.ip ≡ ip)
unfolding assign
allocate_records a name namespace now ip h = elim (allocate-Outcome a name namespace now) [
  | known r l c ↦ (r, rw c l, ground (arith, c, h))
  | full l f c ↦ absurd (ground (arith, c, h))
  | fresh_at i l f c ↦ (
    fresh_record a name namespace now i,
    rw c (lookup-insert_self (pod_key name namespace) _ a.allocated),
    ground (arith, c, h),
  )
]
