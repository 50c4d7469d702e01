-- ===== src/Policy/Writer/Inversion.antt =====
-- Protocol names in capitals (pkg/policy/ebpf_writer.go with pkg/policy/compiler.go).
use coordino.Base.{
  ℕ, ◌≡◌, refl, ◌∙◌, ◌≢◌, [], ◌∷◌, Option, some, arith, Bytes, bytes, bytes_eq, bytes_beq,
  beq_of_ne,
}
use coordino.Base.GoMap.{lookup, insert}
use coordino.Base.Decimal.{pos}
use coordino.Policy.Rules.{
  PolicyRule, CompiledPolicy, verdict_allow, verdict_deny, tier_node_isolation, tier_tenant, less,
  rule_key,
}
use coordino.Policy.Merge.{merge_and_prioritize}
use coordino.Policy.Merge.Keys.{rule_key-injective}
use coordino.Policy.Writer.{
  map_verdict_allow, key_eq, key_beq, key_beq_iff, proto_number, map_key, map_value,
  compile_rules_to_map_entries,
}
use coordino.Policy.Writer.Priority.{lookup-compile}

-- A rule of a node isolation policy that denies TCP on a port.
abbrev pub deny_tcp : ℕ → ℕ → ℕ → Bytes → PolicyRule
deny_tcp src dst port name = record {
  src_identity = src;
  dst_identity = dst;
  proto = bytes "TCP";
  port = pos port;
  verdict = verdict_deny;
  policy_name = name;
  policy_namespace = [];
  tier = tier_node_isolation;
}

-- A rule of a tenant's policy that allows UDP on a port.
abbrev pub allow_udp : ℕ → ℕ → ℕ → Bytes → PolicyRule
allow_udp src dst port name = record {
  src_identity = src;
  dst_identity = dst;
  proto = bytes "UDP";
  port = pos port;
  verdict = verdict_allow;
  policy_name = name;
  policy_namespace = [];
  tier = tier_tenant;
}

abbrev pub policy_of : PolicyRule → Option CompiledPolicy
policy_of r = some (record { rules = r ∷ []; compiled_at = 0; version = 0 })

keys_differ :
    (src dst port : ℕ) (m n : Bytes)
    → rule_key (deny_tcp src dst port m) ≢ rule_key (allow_udp src dst port n)
unfolding bytes_beq
keys_differ src dst port m n e =
    let same =
      (rule_key-injective (deny_tcp src dst port m) (allow_udp src dst port n) port port refl refl
        e).2 in
    absurd (ground arith)

merged_both :
    (now version src dst port : ℕ) (m n : Bytes)
    → (merge_and_prioritize now version
        (policy_of (deny_tcp src dst port m) ∷ policy_of (allow_udp src dst port n) ∷ [])).rules
      ≡ deny_tcp src dst port m ∷ allow_udp src dst port n ∷ []
unfolding merge_and_prioritize less lookup insert
merged_both now version src dst port m n = ground (
  arith,
  beq_of_ne (rule_key (deny_tcp src dst port m)) (rule_key (allow_udp src dst port n))
      (keys_differ src dst port m n),
)

-- Where an isolation policy denies TCP and a tenant's policy allows UDP, both written in capitals,
-- between the same identities on the same port, the merged rules compile to an entry that allows
-- under the key of the rule that denies.
pub deny_overwritten :
    (now version src dst port : ℕ) (m n : Bytes)
    → lookup (map_key (deny_tcp src dst port m)) (
        compile_rules_to_map_entries
          (merge_and_prioritize now version (
            policy_of (deny_tcp src dst port m) ∷ policy_of (allow_udp src dst port n) ∷ [])).rules)
      ≡ some (record { verdict = map_verdict_allow; audit_log = 0 })
unfolding map_key map_value proto_number bytes_beq key_beq
deny_overwritten now version src dst port m n = rw merged_both (
    lookup-compile (map_key (deny_tcp src dst port m))
      (deny_tcp src dst port m ∷ allow_udp src dst port n ∷ [])
    ∙ ground (
      arith,
      key_beq_iff (map_key (deny_tcp src dst port m)) (map_key (deny_tcp src dst port m)),
    ))
