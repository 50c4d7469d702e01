-- ===== src/Ipam/Node/Slots.antt =====
-- The bitmap and the search in it, and addresses as offsets into the block.
use coordino.Base.{
  ℕ, zero, suc, ◌+◌, ◌-◌, ◌≤◌, ◌<◌, ◌≡◌, ◌≢◌, inl, inr, Bool, true, false, ◌||◌, not, none, some,
  List, arith, ℕ_discrete, get_or, nat_beq, Bool-cases,
}
use coordino.Net.{ip_to_uint32, uint32_to_ip, add32, sub32, u32_mod, ip_to_uint32-uint32_to_ip}
use coordino.Ipam.Node.{first_free}

-- What a search from `i` over `rounds` offsets says of its result.
pub record IsFirstFree (i rounds size : ℕ) (bitmap : List Bool) (j : ℕ) : Type 0 where
  pub from_start : i ≤ j
  pub within : j < i + rounds
  pub inner : 0 < j
  pub not_last : j ≢ size - 1
  pub free : get_or bitmap j false ≡ false
  pub lowest : (k : ℕ) → i ≤ k → k < j → 0 < k → k ≢ size - 1 → get_or bitmap k false ≡ true

taken_at :
    (i k : ℕ) (bitmap : List Bool)
    → i ≡ k
    → not (get_or bitmap i false) ≡ false
    → get_or bitmap k false ≡ true
taken_at i k bitmap e h = rw (← e) (ground arith)

pub first_free-some :
    (rounds i size : ℕ) (bitmap : List Bool) (j : ℕ)
    → first_free rounds i size bitmap ≡ some j
    → IsFirstFree i rounds size bitmap j
unfolding first_free
first_free-some zero i size bitmap j h = cc
first_free-some (suc rounds) i size bitmap j h =
    elim (Bool-cases (nat_beq i 0 || nat_beq i (size - 1))) [
      | inl edge ↦
          let rest = first_free-some rounds (i + 1) size bitmap j (ground arith) in
          record {
            from_start = omega arith;
            within = omega arith;
            inner = rest.inner;
            not_last = rest.not_last;
            free = rest.free;
            lowest = λ k a b c d. rest.lowest k (ground arith) b c d;
          }
      | inr inside ↦ elim (Bool-cases (not (get_or bitmap i false))) [
        | inl free ↦
            let e : i ≡ j = ground arith in
            record {
              from_start = omega arith;
              within = omega arith;
              inner = ground arith;
              not_last = ground arith;
              free = rw (← e) (ground arith);
              lowest = λ k a b c d. absurd (omega arith);
            }
        | inr used ↦
            let rest = first_free-some rounds (i + 1) size bitmap j (ground arith) in
            record {
              from_start = omega arith;
              within = omega arith;
              inner = rest.inner;
              not_last = rest.not_last;
              free = rest.free;
              lowest = λ k a b c d. elim (ℕ_discrete i k) [
                | yes e ↦ taken_at i k bitmap e used
                | no ne ↦ rest.lowest k (omega arith) b c d
              ];
            }
      ]
    ]

pub first_free-none :
    (rounds i size : ℕ) (bitmap : List Bool)
    → first_free rounds i size bitmap ≡ none
    → (k : ℕ) → i ≤ k
    → k < i + rounds
    → 0 < k
    → k ≢ size - 1
    → get_or bitmap k false ≡ true
unfolding first_free
first_free-none zero i size bitmap h k a b c d = absurd (omega arith)
first_free-none (suc rounds) i size bitmap h k a b c d = elim (ℕ_discrete i k) [
  | yes e ↦ taken_at i k bitmap e (ground arith)
  | no ne ↦
      first_free-none rounds (i + 1) size bitmap (ground arith) k (omega arith) (omega arith) c d
]

-- The address of offset `i` of a block at `base` that does not run over the end of the space.
pub offset-address :
    (base i : ℕ) → base + i < u32_mod → sub32 (ip_to_uint32 (uint32_to_ip (add32 base i))) base ≡ i
offset-address base i h = rw (ip_to_uint32-uint32_to_ip (add32 base i) (omega arith)) (omega arith)
