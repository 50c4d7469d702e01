-- ===== src/Policy/Rules.antt =====
-- The intermediate representation of pkg/policy/compiler.go and the tests on it, and
-- PlatformRules of pkg/policy/platform_rules.go. A `Verdict` is a string.
use coordino.Base.{
  ℕ, ◌+◌, Bool, ◌||◌, not, List, [], ◌∷◌, ◌++◌, Option, Bytes, bytes, bytes_eq, bytes_ltb, ltb,
  nat_beq, if◌then◌else◌, select,
}
use coordino.Base.Decimal.{ℤ, pos, int_beq, itoa, print_int}
use coordino.Policy.Labels.{Labels}

abbrev pub Verdict : Type 0
Verdict = Bytes

abbrev pub verdict_allow : Verdict
verdict_allow = bytes "allow"

abbrev pub verdict_deny : Verdict
verdict_deny = bytes "deny"

abbrev pub tier_node_isolation : ℕ
tier_node_isolation = 0

abbrev pub tier_platform_mandated : ℕ
tier_platform_mandated = 1

abbrev pub tier_tenant : ℕ
tier_tenant = 2

pub record PolicyRule : Type 0 where
  pub src_identity : ℕ
  pub dst_identity : ℕ
  pub proto : Bytes
  pub port : ℤ
  pub verdict : Verdict
  pub policy_name : Bytes
  pub policy_namespace : Bytes
  pub tier : ℕ

-- `compiled_at` and `version` are two readings of the clock.
pub record CompiledPolicy : Type 0 where
  pub rules : List PolicyRule
  pub compiled_at : ℕ
  pub version : ℕ

pub record NetworkPolicyPort : Type 0 where
  pub protocol : Bytes
  pub port : ℤ

pub record IpBlock : Type 0 where
  pub cidr : Bytes
  pub except : List Bytes

pub record NetworkPolicyPeer : Type 0 where
  pub pod_selector : Labels
  pub namespace_selector : Labels
  pub ip_block : Option IpBlock

-- `From` and `To` are `peers`.
pub record NetworkPolicyRule : Type 0 where
  pub peers : List NetworkPolicyPeer
  pub ports : List NetworkPolicyPort

pub record NetworkPolicySpec : Type 0 where
  pub pod_selector : Labels
  pub ingress : List NetworkPolicyRule
  pub egress : List NetworkPolicyRule

pub record IsolationRuleSpec : Type 0 where
  pub cidr : Bytes
  pub ports : List NetworkPolicyPort
  pub action : Verdict

pub record NodeIsolationPolicySpec : Type 0 where
  pub node_selector : Labels
  pub ingress_rules : List IsolationRuleSpec
  pub egress_rules : List IsolationRuleSpec
  pub priority : ℤ

unfoldable pub is_zero_port : ℤ → Bool
is_zero_port p = int_beq p (pos 0)

unfoldable pub specificity_score : PolicyRule → ℕ
unfolding is_zero_port
specificity_score r =
    (if nat_beq r.src_identity 0 then 0 else 1)
    + (if nat_beq r.dst_identity 0 then 0 else 1)
    + (if is_zero_port r.port then 0 else 1)

-- The `less` of the sort in `MergeAndPrioritize`.
unfoldable pub less : PolicyRule → PolicyRule → Bool
less a b =
    if not (nat_beq a.tier b.tier)
    then ltb a.tier b.tier
    else if not (nat_beq (specificity_score a) (specificity_score b))
    then ltb (specificity_score b) (specificity_score a)
    else bytes_ltb a.policy_name b.policy_name

-- `fmt.Sprintf("%d-%d-%s-%d", r.SrcIdentity, r.DstIdentity, r.Proto, r.Port)`
unfoldable pub rule_key : PolicyRule → Bytes
rule_key r =
    itoa r.src_identity
    ++ (b'-' ∷ (itoa r.dst_identity ++ (b'-' ∷ (r.proto ++ (b'-' ∷ print_int r.port)))))

-- `FilterRulesForNode`; `present` reads the map `nodeIdentities`.
unfoldable pub filter_rules_for_node : (ℕ → Bool) → List PolicyRule → List PolicyRule
filter_rules_for_node present = select λ r.
    nat_beq r.src_identity 0
    || nat_beq r.dst_identity 0
    || present r.src_identity
    || present r.dst_identity

pub record PlatformRules : Type 0 where
  pub dns_servers : List Bytes
  pub monitoring_cidrs : List Bytes
  pub monitoring_port : ℤ

unfoldable pub new_platform_rules : PlatformRules
new_platform_rules = record { dns_servers = []; monitoring_cidrs = []; monitoring_port = pos 9090 }

unfoldable pub set_dns_servers : PlatformRules → List Bytes → PlatformRules
set_dns_servers p servers = record p { dns_servers = servers }

unfoldable pub set_monitoring_cidrs : PlatformRules → List Bytes → PlatformRules
set_monitoring_cidrs p cidrs = record p { monitoring_cidrs = cidrs }

unfoldable pub set_monitoring_port : PlatformRules → ℤ → PlatformRules
set_monitoring_port p port = record p { monitoring_port = port }

abbrev platform_rule : Bytes → ℤ → Bytes → PolicyRule
platform_rule proto port name = record {
  src_identity = 0;
  dst_identity = 0;
  proto = proto;
  port = port;
  verdict = verdict_allow;
  policy_name = name;
  policy_namespace = [];
  tier = tier_platform_mandated;
}

unfoldable pub generate_rules : PlatformRules → List PolicyRule
generate_rules p =
    platform_rule (bytes "UDP") (pos 53) (bytes "platform-dns-udp")
    ∷ platform_rule (bytes "TCP") (pos 53) (bytes "platform-dns-tcp")
    ∷ platform_rule (bytes "TCP") p.monitoring_port (bytes "platform-monitoring")
    ∷ []
