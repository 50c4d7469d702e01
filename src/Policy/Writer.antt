-- ===== src/Policy/Writer.antt =====
-- pkg/policy/ebpf_writer.go: the entries of the eBPF policy map. The methods of EBPFWriter that
-- write to the kernel are stubs in the source.
pub mod Priority
pub mod Inversion
use coordino.Base.{
  ℕ, zero, suc, ◌+◌, ◌-◌, ◌%◌, ◌^◌, Bool, true, false, ◌&&◌, List, [], ◌∷◌, Option, none, some,
  Bytes, bytes, bytes_eq, nat_beq, if◌then◌else◌, Eq, ◌==◌, ◌≡◌, ◌↔◌, arith,
}
use coordino.Base.GoMap.{GoMap, lookup, insert}
use coordino.Base.Decimal.{ℤ, pos, negsuc}
use coordino.Policy.Rules.{PolicyRule, verdict_allow}

pub record PolicyMapKey : Type 0 where
  pub src_identity : ℕ
  pub dst_identity : ℕ
  pub proto : ℕ
  pub dst_port : ℕ

pub record PolicyMapValue : Type 0 where
  pub verdict : ℕ
  pub audit_log : ℕ

abbrev pub map_verdict_allow : ℕ
map_verdict_allow = 1

abbrev pub map_verdict_deny : ℕ
map_verdict_deny = 0

-- Go's `==` on the struct.
unfoldable pub key_beq : PolicyMapKey → PolicyMapKey → Bool
key_beq k j =
    nat_beq k.src_identity j.src_identity
    && nat_beq k.dst_identity j.dst_identity
    && nat_beq k.proto j.proto
    && nat_beq k.dst_port j.dst_port

pub key_beq_iff : (k j : PolicyMapKey) → (key_beq k j ≡ true) ↔ (k ≡ j)
unfolding key_beq
key_beq_iff k j = ground arith

instance abbrev pub key_eq : Eq PolicyMapKey
key_eq = record { beq = key_beq; beq_iff = key_beq_iff }

-- `uint16(p)`
unfoldable pub to_uint16 : ℤ → ℕ
to_uint16 (pos n) = n % 2 ^ 16
to_uint16 (negsuc n) = (2 ^ 16 - 1) - n % 2 ^ 16

unfoldable pub proto_number : Bytes → ℕ
proto_number p =
    if p == bytes "tcp"
    then 6
    else if p == bytes "udp"
    then 17
    else if p == bytes "icmp"
    then 1
    else 0

unfoldable pub map_key : PolicyRule → PolicyMapKey
map_key r = record {
  src_identity = r.src_identity;
  dst_identity = r.dst_identity;
  proto = proto_number r.proto;
  dst_port = to_uint16 r.port;
}

unfoldable pub map_value : PolicyRule → PolicyMapValue
map_value r = record {
  verdict = if r.verdict == verdict_allow then map_verdict_allow else map_verdict_deny;
  audit_log = 0;
}

-- The loop over the rules, from the entries that are there.
unfoldable pub write_entries :
    GoMap PolicyMapKey PolicyMapValue → List PolicyRule → GoMap PolicyMapKey PolicyMapValue
write_entries entries [] = entries
write_entries entries (r ∷ rs) = write_entries (insert (map_key r) (map_value r) entries) rs

unfoldable pub compile_rules_to_map_entries : List PolicyRule → GoMap PolicyMapKey PolicyMapValue
unfolding write_entries
compile_rules_to_map_entries rules = write_entries [] rules
