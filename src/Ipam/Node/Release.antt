-- ===== src/Ipam/Node/Release.antt =====
-- NodeAllocator.Release (pkg/ipam/ipam.go), and the step that it shares with Reconcile.
use coordino.Base.{
  ℕ, ◌<◌, ◌≡◌, sym, ap, subst, ◌∙◌, ◌≢◌, inl, inr, true, false, none, some, arith, ℕ_discrete,
  get_or, set, length-set, get_or-set_self, get_or-set_ne, lt→ltb, Bool-cases, ◌==◌, Bytes,
  bytes_eq, ok, Option-cases, ne_of_beq, set-set, set_same, beq_of_ne,
}
use coordino.Base.GoMap.{
  lookup, delete, lookup-delete, delete-Distinct, length-delete, delete-insert_fresh,
  lookup-insert_self,
}
use coordino.Net.{Ip, ip_to_uint32, uint32_to_ip, add32}
use coordino.Ipam.Node.{
  AllocRecord, NodeAllocator, assign, allocate, free_record, release, offset, pod_key,
}
use coordino.Ipam.Node.Slots.{IsFirstFree, offset-address}
use coordino.Ipam.Node.Invariant.{Slot, IsValid, offset-Slot, count_true-set-false, get_or-true→lt}
use coordino.Ipam.Node.Allocate.{known, fresh_at, full, allocate-Outcome}

module _ (a : NodeAllocator) (key : Bytes) (r : AllocRecord) (v : IsValid a)
    (found : lookup key a.allocated ≡ some r) where
  abbrev i : ℕ
  i = offset a r.ip

  at_slot : i ≡ (v.slots key r found).index
  at_slot = offset-Slot a r v.fits (v.slots key r found)

  marked : get_or a.bitmap i false ≡ true
  marked = ap (λ n. get_or a.bitmap n false) at_slot ∙ (v.slots key r found).marked

  in_block : i < a.block_size
  in_block = omega (arith, at_slot, (v.slots key r found).before_last)

  pub freed : NodeAllocator
  freed = record a { bitmap = set a.bitmap i false; allocated = delete key a.allocated }

  -- Under the invariant the test of the offset always passes.
  pub free_record-freed : free_record a key r ≡ freed
  unfolding free_record freed
  free_record-freed = rw (lt→ltb i a.block_size in_block)

  remains :
      (k : Bytes) (q : AllocRecord)
      → lookup k (delete key a.allocated) ≡ some q
      → (key ≢ k) × (lookup k a.allocated ≡ some q)
  remains k q h = elim (Bool-cases (key == k)) [
    | inl e ↦ absurd (ground (arith, lookup-delete key k a.allocated))
    | inr e ↦ (ne_of_beq key k e, ground (arith, lookup-delete key k a.allocated))
  ]

  other_offset :
      (k : Bytes) (q : AllocRecord) → key ≢ k → lookup k a.allocated ≡ some q → i ≢ offset a q.ip
  other_offset k q ne l e = ne (v.apart key k r q found l e)

  other-Slot :
      (k : Bytes) (q : AllocRecord) → key ≢ k → lookup k a.allocated ≡ some q → Slot freed q
  unfolding freed
  other-Slot k q ne l =
      let s = v.slots k q l in
      record {
        index = s.index;
        inner = s.inner;
        before_last = s.before_last;
        address = s.address;
        marked =
            get_or-set_ne a.bitmap i s.index false false
              (λ e. other_offset k q ne l (e ∙ sym (offset-Slot a q v.fits s)))
            ∙ s.marked;
      }

  still_owned :
      (n : ℕ)
      → i ≢ n
      → get_or a.bitmap n false ≡ true
      → (k : Bytes) × (q : AllocRecord) × (lookup k (delete key a.allocated) ≡ some q)
        × (offset a q.ip ≡ n)
  still_owned n ne h =
      let (k, q, l, o) = v.owned n h in
      (k, q, lookup-delete key k a.allocated ∙ rw (beq_of_ne key k (other k q l o)) l, o)
    where
      other :
          (k : Bytes) (q : AllocRecord)
          → lookup k a.allocated ≡ some q
          → offset a q.ip ≡ n
          → key ≢ k
      other k q l o e = ne (ap (λ (x : AllocRecord). offset a x.ip) (same k q l e) ∙ o)
        where
          same : (k : Bytes) (q : AllocRecord) → lookup k a.allocated ≡ some q → key ≡ k → r ≡ q
          same k q l e = cc (found, l, ap (λ j. lookup j a.allocated) e)

  freed-IsValid : IsValid freed
  unfolding freed
  freed-IsValid = record {
    sized = length-set a.bitmap i false ∙ v.sized;
    fits = v.fits;
    distinct = delete-Distinct key a.allocated v.distinct;
    slots = λ k q h. let (ne, l) = remains k q h in other-Slot k q ne l;
    apart = λ j k p q hj hk o. v.apart j k p q (remains j p hj).1 (remains k q hk).1 o;
    owned = λ n h. elim (ℕ_discrete i n) [
      | yes e ↦ absurd (cleared n e h)
      | no ne ↦ still_owned n ne (sym (get_or-set_ne a.bitmap i n false false ne) ∙ h)
    ];
    counted = omega (
      arith,
      v.counted,
      count_true-set-false a.bitmap i marked,
      length-delete key a.allocated v.distinct found,
    );
  }
    where
      cleared : (n : ℕ) → i ≡ n → get_or (set a.bitmap i false) n false ≡ true → ⊥
      cleared n e h = ground (
        arith,
        ap (λ m. get_or (set a.bitmap i false) m false) e,
        get_or-set_self a.bitmap i false false (get_or-true→lt a.bitmap i marked),
      )

  pub free_record-IsValid : IsValid (free_record a key r)
  free_record-IsValid = subst IsValid (sym free_record-freed) freed-IsValid

-- `Release` keeps the invariant, also for a pod that has no address.
pub release-IsValid :
    (a : NodeAllocator) (name namespace : Bytes) → IsValid a → IsValid (release a name namespace)
unfolding release
release-IsValid a name namespace v =
    elim (Option-cases (lookup (pod_key name namespace) a.allocated)) [
      | inl e ↦ rw (e, release) v
      | inr (r, e) ↦ rw (e, release) (free_record-IsValid a (pod_key name namespace) r v e)
    ]

release-assign :
    (a : NodeAllocator) (name namespace : Bytes) (now i : ℕ)
    → IsValid a
    → lookup (pod_key name namespace) a.allocated ≡ none
    → IsFirstFree 0 a.block_size a.block_size a.bitmap i
    → release (assign a name namespace now i) name namespace ≡ a
unfolding release assign free_record
release-assign a name namespace now i v e f =
    let key = pod_key name namespace in
    let r : AllocRecord = record {
      ip = uint32_to_ip (add32 (ip_to_uint32 a.base_ip) i);
      pod_name = name;
      pod_namespace = namespace;
      allocated_at = now;
    } in
    let inside : i < a.block_size = omega (arith, f.within) in
    let restored : set (set a.bitmap i true) i false ≡ a.bitmap =
      set-set a.bitmap i true false
      ∙ ap (set a.bitmap i) (sym f.free)
      ∙ set_same a.bitmap i false (omega (arith, v.sized)) in
    rw (lookup-insert_self key r a.allocated, release, assign, free_record)
      (ground (
        arith,
        offset-address (ip_to_uint32 a.base_ip) i (omega (arith, v.fits)),
        restored,
        delete-insert_fresh key r a.allocated e,
      ))

-- In a valid allocator, releasing a pod right after the Allocate that gave it its first address
-- gives back the very state before.
pub release-allocate :
    (a : NodeAllocator) (name namespace : Bytes) (now : ℕ) (ip : Ip)
    → IsValid a
    → lookup (pod_key name namespace) a.allocated ≡ none
    → (allocate a name namespace now).1 ≡ ok ip
    → release (allocate a name namespace now).0 name namespace ≡ a
release-allocate a name namespace now ip v fresh h = elim (allocate-Outcome a name namespace now) [
  | known r e c ↦ absurd (ground (arith, e, fresh))
  | full e f c ↦ absurd (ground (arith, c, h))
  | fresh_at i e f c ↦ rw c (release-assign a name namespace now i v e f)
]

-- `Release` leaves the records of the other pods.
pub release_keeps :
    (a : NodeAllocator) (name namespace k : Bytes) (r : AllocRecord)
    → (pod_key name namespace == k) ≡ false
    → lookup k a.allocated ≡ some r
    → lookup k (release a name namespace).allocated ≡ some r
unfolding release free_record
release_keeps a name namespace k r other h =
    elim (Option-cases (lookup (pod_key name namespace) a.allocated)) [
      | inl e ↦ rw (e, release) h
      | inr (q, e) ↦
          rw (e, release, free_record)
            (ground (arith, lookup-delete (pod_key name namespace) k a.allocated, other, h))
    ]
