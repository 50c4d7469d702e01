-- ===== src/Ipam/Node/Invariant.antt =====
-- The invariant of NodeAllocator (pkg/ipam/ipam.go) between its bitmap and its records.
use coordino.Base.{
  ℕ, zero, suc, ◌+◌, ◌≤◌, ◌<◌, ◌≡◌, Bool, true, false, some, List, [], ◌∷◌, arith, length, get_or,
  set, if◌then◌else◌, Bytes, bytes_eq,
}
use coordino.Base.GoMap.{lookup, Distinct}
use coordino.Net.{ip_to_uint32, uint32_to_ip, add32, u32_mod}
use coordino.Ipam.Node.{AllocRecord, NodeAllocator, offset}
use coordino.Ipam.Node.Slots.{offset-address}

abbrev pub count_true : List Bool → ℕ
count_true [] = 0
count_true (b ∷ bs) = (if b then 1 else 0) + count_true bs

pub count_true-set-true :
    (bs : List Bool) (i : ℕ)
    → i < length bs
    → get_or bs i false ≡ false
    → count_true (set bs i true) ≡ count_true bs + 1
count_true-set-true [] i h e = elim h [ ]
count_true-set-true (b ∷ bs) zero h e = ground arith
count_true-set-true (b ∷ bs) (suc i) h e = omega (arith, count_true-set-true bs i (omega arith) e)

pub count_true-set-false :
    (bs : List Bool) (i : ℕ)
    → get_or bs i false ≡ true
    → count_true (set bs i false) + 1 ≡ count_true bs
count_true-set-false [] i e = cc
count_true-set-false (b ∷ bs) zero e = ground arith
count_true-set-false (b ∷ bs) (suc i) e = omega (arith, count_true-set-false bs i e)

pub get_or-true→lt : (bs : List Bool) (i : ℕ) → get_or bs i false ≡ true → i < length bs
get_or-true→lt [] i e = cc
get_or-true→lt (b ∷ bs) zero e = omega arith
get_or-true→lt (b ∷ bs) (suc i) e = omega (arith, get_or-true→lt bs i e)

-- The place of a record: a marked offset of the block, not the first and not the last.
pub record Slot (a : NodeAllocator) (r : AllocRecord) : Type 0 where
  pub index : ℕ
  pub inner : 0 < index
  pub before_last : suc index < a.block_size
  pub address : r.ip ≡ uint32_to_ip (add32 (ip_to_uint32 a.base_ip) index)
  pub marked : get_or a.bitmap index false ≡ true

pub record IsValid (a : NodeAllocator) : Type 0 where
  pub sized : length a.bitmap ≡ a.block_size
  pub fits : ip_to_uint32 a.base_ip + a.block_size ≤ u32_mod
  pub distinct : Distinct a.allocated
  pub slots : (k : Bytes) (r : AllocRecord) → lookup k a.allocated ≡ some r → Slot a r
  pub apart :
      (j k : Bytes) (q r : AllocRecord)
      → lookup j a.allocated ≡ some q
      → lookup k a.allocated ≡ some r
      → offset a q.ip ≡ offset a r.ip
      → j ≡ k
  pub owned :
      (i : ℕ)
      → get_or a.bitmap i false ≡ true
      → (k : Bytes) × (r : AllocRecord) × (lookup k a.allocated ≡ some r) × (offset a r.ip ≡ i)
  pub counted : count_true a.bitmap ≡ length a.allocated

-- A record's address lies at the offset of its slot.
pub offset-Slot :
    (a : NodeAllocator) (r : AllocRecord)
    → ip_to_uint32 a.base_ip + a.block_size ≤ u32_mod
    → (s : Slot a r) → offset a r.ip ≡ s.index
offset-Slot a r fits s =
    rw s.address (offset-address (ip_to_uint32 a.base_ip) s.index (omega (arith, s.before_last)))
