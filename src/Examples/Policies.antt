-- ===== src/Examples/Policies.antt =====
-- Examples for pkg/policy: a tenant's policy for the pods app=web, from any pod to TCP port 80.
use coordino.Base.{
  ◌≤◌, ◌≡◌, refl, arith, false, Option, none, some, List, [], ◌∷◌, Bytes, bytes, bytes_eq, nat_eq,
  inl,
}
use coordino.Base.Decimal.{pos}
use coordino.Base.GoMap.{lookup}
use coordino.Policy.Identity.{new_identity_allocator}
use coordino.Policy.Rules.{
  PolicyRule, CompiledPolicy, NetworkPolicySpec, new_platform_rules, verdict_allow, tier_tenant,
  less, rule_key,
}
use coordino.Policy.Merge.{merge_and_prioritize, collect_rules}
use coordino.Policy.Merge.Order.{In, IsSorted}
use coordino.Policy.Merge.Winner.{first_with, merge_winner, merge_unique}
use coordino.Policy.Writer.{map_key, map_verdict_allow, key_eq, compile_rules_to_map_entries}
use coordino.Policy.Writer.Priority.{last_value, lookup-compile}
use coordino.Policy.Writer.Inversion.{deny_tcp, allow_udp, policy_of, deny_overwritten}
use coordino.Policy.Compiler.{Compiler, new_compiler, compile_policy}
use coordino.Policy.Compiler.Tenant.{AllTenant, compile_policy-AllTenant}
use coordino.Policy.Compiler.Total.{IsLinked, compile_policy_total}
use coordino.Policy.Store.{PolicyStore, recompile}
use coordino.Policy.Store.Platform.{Recompiled, recompile_lem}

abbrev plain : Bytes → Bytes
plain b = b

abbrev name : Bytes
name = bytes "p"

abbrev namespace : Bytes
namespace = bytes "d"

abbrev spec : NetworkPolicySpec
spec = record {
  pod_selector = (bytes "app", bytes "web") ∷ [];
  ingress =
      record { peers = []; ports = record { protocol = bytes "TCP"; port = pos 80 } ∷ [] } ∷ [];
  egress = [];
}

abbrev compiler : Compiler
compiler = new_compiler new_identity_allocator

compiler-IsLinked : IsLinked compiler.identity_allocator
unfolding new_compiler new_identity_allocator lookup
compiler-IsLinked h i l = absurd (ground (arith, l))

compile_policy_total_example :
    (p : CompiledPolicy) × (d : Compiler) × (compile_policy plain 5 6 name namespace spec compiler
      ≡ some (p, d))
    × IsLinked d.identity_allocator
compile_policy_total_example =
    compile_policy_total plain 5 6 name namespace spec compiler compiler-IsLinked

returned :
    (p : CompiledPolicy) × (d : Compiler) × (compile_policy plain 5 6 name namespace spec compiler
      ≡ some (p, d))
    × IsLinked d.identity_allocator
returned = compile_policy_total plain 5 6 name namespace spec compiler compiler-IsLinked

compile_policy-AllTenant_example : AllTenant name namespace returned.0.rules
compile_policy-AllTenant_example =
    compile_policy-AllTenant plain name namespace 5 6 spec compiler returned.1 returned.0 returned.2

abbrev store : PolicyStore
store = record {
  policies =
      (bytes "d/p", record { name = name; namespace = namespace; spec = spec; added_at = 1 }) ∷ [];
  compiler = compiler;
  compiled = none;
  platform = some new_platform_rules;
  version = 1;
  on_change = false;
}

recompile_lem_example :
    (t : PolicyStore) × (recompile plain 5 6 store ≡ some (t, store.on_change))
    × Recompiled plain 5 6 new_platform_rules store t
recompile_lem_example = recompile_lem plain 5 6 store new_platform_rules refl compiler-IsLinked

abbrev deny : PolicyRule
deny = deny_tcp 3 4 80 (bytes "lock")

abbrev allow : PolicyRule
allow = record deny { verdict = verdict_allow; tier = tier_tenant }

abbrev policies : List (Option CompiledPolicy)
policies =
    some (record { rules = allow ∷ []; compiled_at = 1; version = 1 })
    ∷ some (record { rules = deny ∷ []; compiled_at = 1; version = 1 })
    ∷ []

allow_given : In allow (collect_rules policies)
unfolding collect_rules
allow_given = inl refl

merge_winner_example :
    (w : PolicyRule) × (first_with (rule_key allow) (merge_and_prioritize 5 6 policies).rules
      ≡ some w)
    × In w (collect_rules policies)
    × (rule_key w ≡ rule_key allow)
    × (less allow w ≡ false)
    × (w.tier ≤ allow.tier)
merge_winner_example = merge_winner 5 6 policies allow allow_given

deny_kept : In deny (merge_and_prioritize 5 6 policies).rules
unfolding merge_and_prioritize less lookup
deny_kept = inl refl

merge_unique_example :
    (first_with (rule_key deny) (merge_and_prioritize 5 6 policies).rules ≡ some deny)
    × IsSorted (merge_and_prioritize 5 6 policies).rules
merge_unique_example = merge_unique 5 6 policies deny deny_kept

one_key : rule_key deny ≡ rule_key allow
unfolding rule_key
one_key = refl

lookup-compile_example :
    lookup (map_key deny) (compile_rules_to_map_entries (allow ∷ deny ∷ []))
    ≡ last_value (map_key deny) none (allow ∷ deny ∷ [])
lookup-compile_example = lookup-compile (map_key deny) (allow ∷ deny ∷ [])

deny_overwritten_example :
    lookup (map_key (deny_tcp 3 4 80 (bytes "lock"))) (
      compile_rules_to_map_entries
        (merge_and_prioritize 5 6 (
          policy_of (deny_tcp 3 4 80 (bytes "lock"))
          ∷ policy_of (allow_udp 3 4 80 (bytes "open"))
          ∷ [])).rules)
    ≡ some (record { verdict = map_verdict_allow; audit_log = 0 })
deny_overwritten_example = deny_overwritten 5 6 3 4 80 (bytes "lock") (bytes "open")
