-- ===== src/Net.antt =====
-- The part of Go's package net that the repository uses, and the conversions of pkg/ipam/ipam.go
-- between addresses and uint32. An address is its bytes, 4 or 16 of them.
use coordino.Base.{
  ℕ, ◌+◌, ◌-◌, ◌*◌, ◌/◌, ◌%◌, ◌^◌, ◌<◌, ◌≡◌, ap, Bool, true, false, ◌&&◌, Option, none, some, [],
  ◌∷◌, ◌++◌, arith, Bytes, bytes_eq, bytes_beq, length, get_or, replicate, ◌==◌, nat_beq,
  if◌then◌else◌,
}

abbrev pub Ip : Type 0
Ip = Bytes

-- `ones` and `bits` are what `Mask.Size()` returns.
pub record IpNet : Type 0 where
  pub ip : Ip
  pub ones : ℕ
  pub bits : ℕ

abbrev pub u32_mod : ℕ
u32_mod = 2 ^ 32

-- The first twelve bytes of an IPv4 address in its 16-byte form.
abbrev pub v4_prefix : Bytes
v4_prefix = replicate 10 0 ++ (255 ∷ 255 ∷ [])

abbrev pub take : ℕ → Bytes → Bytes
take ℕ.zero xs = []
take (ℕ.suc n) [] = []
take (ℕ.suc n) (x ∷ xs) = x ∷ take n xs

abbrev pub drop : ℕ → Bytes → Bytes
drop ℕ.zero xs = xs
drop (ℕ.suc n) [] = []
drop (ℕ.suc n) (x ∷ xs) = drop n xs

-- `net.IP.To4`
unfoldable pub to4 : Ip → Option Bytes
to4 ip =
    if nat_beq (length ip) 4
    then some ip
    else if nat_beq (length ip) 16 && take 12 ip == v4_prefix
    then some (drop 12 ip)
    else none

-- `net.IP.Equal`
unfoldable pub ip_equal : Ip → Ip → Bool
ip_equal ip x =
    if nat_beq (length ip) (length x)
    then ip == x
    else if nat_beq (length ip) 4 && nat_beq (length x) 16
    then take 12 x == v4_prefix && ip == drop 12 x
    else if nat_beq (length ip) 16 && nat_beq (length x) 4
    then take 12 ip == v4_prefix && drop 12 ip == x
    else false

-- `net.IPv4`
abbrev pub ipv4 : ℕ → ℕ → ℕ → ℕ → Ip
ipv4 a b c d = v4_prefix ++ (a ∷ b ∷ c ∷ d ∷ [])

-- The operands of `|` have no bit in common, since a byte is below 256: `|` is `+`.
abbrev pub big_endian : Bytes → ℕ
big_endian b = get_or b 0 0 * 2 ^ 24 + get_or b 1 0 * 2 ^ 16 + get_or b 2 0 * 2 ^ 8 + get_or b 3 0

unfoldable pub ip_to_uint32 : Ip → ℕ
unfolding to4
ip_to_uint32 ip = elim (to4 ip) [ none ↦ 0 | some b ↦ big_endian b ]

unfoldable pub uint32_to_ip : ℕ → Ip
uint32_to_ip v = ipv4 (v / 2 ^ 24 % 256) (v / 2 ^ 16 % 256) (v / 2 ^ 8 % 256) (v % 256)

-- uint32 addition and subtraction.
abbrev pub add32 : ℕ → ℕ → ℕ
add32 a b = (a + b) % u32_mod

abbrev pub sub32 : ℕ → ℕ → ℕ
sub32 a b = (a + u32_mod - b) % u32_mod

-- Every uint32 is read back from its address.
pub ip_to_uint32-uint32_to_ip : (v : ℕ) → v < u32_mod → ip_to_uint32 (uint32_to_ip v) ≡ v
unfolding ip_to_uint32 uint32_to_ip bytes_beq
ip_to_uint32-uint32_to_ip v h = omega arith

-- Addresses made from two uint32 are equal for `Equal` only if the two are.
pub ip_equal-uint32_to_ip :
    (v w : ℕ)
    → v < u32_mod
    → w < u32_mod
    → ip_equal (uint32_to_ip v) (uint32_to_ip w) ≡ true
    → v ≡ w
unfolding ip_equal uint32_to_ip
ip_equal-uint32_to_ip v w hv hw h = omega (
  arith,
  ap ip_to_uint32 ((bytes_eq.beq_iff (uint32_to_ip v) (uint32_to_ip w)).0 h),
  ip_to_uint32-uint32_to_ip v hv,
  ip_to_uint32-uint32_to_ip w hw,
)

pub ip_equal_refl : (ip : Ip) → ip_equal ip ip ≡ true
unfolding ip_equal
ip_equal_refl ip = ground (arith, bytes_eq.beq_iff ip ip)
