-- ===== src/Policy/Compiler.antt =====
-- Compiler of pkg/policy/compiler.go, but for MergeAndPrioritize. `none` is a panic: a nil
-- `*Identity` is dereferenced. A compilation runs alone: nothing happens between the two locks of
-- EvaluateSelector. `now` and `version` are the two readings of the clock.
pub mod Tenant
pub mod Total
use coordino.Base.{
  ℕ, zero, suc, Bool, true, false, ◌||◌, not, List, [], ◌∷◌, ◌++◌, map, Option, none, some, Bytes,
  bytes, bytes_eq, nat_eq, ok, err, any, length, nat_beq, if◌then◌else◌, ◌==◌,
}
use coordino.Base.GoMap.{GoMap, lookup}
use coordino.Base.Decimal.{ℤ, pos}
use coordino.Policy.Labels.{Labels}
use coordino.Policy.Identity.{
  Identity, IdentityAllocator, allocate_identity, get_identity_by_labels,
}
use coordino.Policy.Selector.{PodSet, SelectorCache, new_selector_cache, evaluate_selector}
use coordino.Policy.Rules.{
  PolicyRule, CompiledPolicy, NetworkPolicyPort, NetworkPolicyPeer, NetworkPolicyRule,
  NetworkPolicySpec, IsolationRuleSpec, NodeIsolationPolicySpec, verdict_allow, tier_tenant,
  tier_node_isolation, Verdict, new_platform_rules, generate_rules,
}

pub record Compiler : Type 0 where
  pub identity_allocator : IdentityAllocator
  pub selector_cache : SelectorCache

unfoldable pub new_compiler : IdentityAllocator → Compiler
new_compiler a = record { identity_allocator = a; selector_cache = new_selector_cache }

-- A step on the compiler's state that may panic.
abbrev pub M : Type 0 → Type 0
M A = Compiler → Option (A × Compiler)

infixl 5 ◌>>=◌
abbrev pub ◌>>=◌ : {A B : Type 0} → M A → (A → M B) → M B
◌>>=◌ first next compiler = elim (first compiler) [ none ↦ none | some (a, after) ↦ next a after ]

abbrev pub done : {A : Type 0} → A → M A
done a c = some (a, c)

-- `ids` with a number that is not in it yet; the map `seen` holds the numbers of the slice.
unfoldable pub add_unseen : ℕ → List ℕ → List ℕ
add_unseen i ids = if any (λ j. j == i) ids then ids else ids ++ (i ∷ [])

unfoldable pub ports_or_any : List NetworkPolicyPort → List NetworkPolicyPort
ports_or_any [] = record { protocol = bytes "ANY"; port = pos 0 } ∷ []
ports_or_any (p ∷ ps) = p ∷ ps

-- The labels of a pod, the nil map where it is unknown.
unfoldable pub labels_of : GoMap Bytes Labels → Bytes → Labels
labels_of pods key = elim (lookup key pods) [ none ↦ [] | some labels ↦ labels ]

module _ (digest : Bytes → Bytes) where
  -- The loop of `resolveSelectorToIdentities` over the pods that match.
  unfoldable pub collect_ids :
      IdentityAllocator → GoMap Bytes Labels → PodSet → List ℕ → Option (List ℕ)
  unfolding labels_of add_unseen
  collect_ids a pods [] ids = some ids
  collect_ids a pods ((key, _) ∷ rest) ids =
      elim (get_identity_by_labels digest a (labels_of pods key)) [
        | none ↦ collect_ids a pods rest ids
        | some none ↦ none
        | some (some d) ↦ collect_ids a pods rest (add_unseen d.id ids)
      ]

  -- What happens where no pod had an identity; `AllocateIdentity` returns no error.
  unfoldable pub allocate_for_selector : Labels → M (List ℕ)
  allocate_for_selector selector c =
      let (a, r) = allocate_identity digest c.identity_allocator selector in
      elim r [ ok d ↦ some (d.id ∷ [], record c { identity_allocator = a }) | err _ ↦ none ]

  unfoldable pub resolve_selector : Labels → M (List ℕ)
  resolve_selector selector c =
      let (sc, pods) = evaluate_selector digest (λ x. x) c.selector_cache selector in
      elim (collect_ids c.identity_allocator sc.pod_labels pods []) [
        | none ↦ none
        | some [] ↦ allocate_for_selector selector (record c { selector_cache = sc })
        | some (i ∷ ids) ↦ some (i ∷ ids, record c { selector_cache = sc })
      ]

  -- The numbers of a second slice that are new, in turn.
  unfoldable pub add_all_unseen : List ℕ → List ℕ → List ℕ
  unfolding add_unseen
  add_all_unseen [] ids = ids
  add_all_unseen (i ∷ more) ids = add_all_unseen more (add_unseen i ids)

  -- The loop of `resolvePeers`; a peer with an `IPBlock` is passed over.
  unfoldable pub resolve_peers_from : List NetworkPolicyPeer → List ℕ → M (List ℕ)
  unfolding add_all_unseen
  resolve_peers_from [] ids = done ids
  resolve_peers_from (p ∷ ps) ids = elim p.ip_block [
    | some _ ↦ resolve_peers_from ps ids
    | none ↦ resolve_selector p.pod_selector >>= λ found.
        resolve_peers_from ps (add_all_unseen found ids)
  ]

  unfoldable pub resolve_peers : List NetworkPolicyPeer → M (List ℕ)
  unfolding resolve_peers_from
  resolve_peers [] = done (0 ∷ [])
  resolve_peers (p ∷ ps) = resolve_peers_from (p ∷ ps) []

  abbrev pub tenant_rule : Bytes → Bytes → ℕ → ℕ → NetworkPolicyPort → PolicyRule
  tenant_rule name namespace src dst p = record {
    src_identity = src;
    dst_identity = dst;
    proto = p.protocol;
    port = p.port;
    verdict = verdict_allow;
    policy_name = name;
    policy_namespace = namespace;
    tier = tier_tenant;
  }

  -- The three loops for one rule: the selected pods outside, the peers, the ports inside.
  unfoldable pub rules_for_peer :
      (ℕ → NetworkPolicyPort → PolicyRule) → List ℕ → List NetworkPolicyPort → List PolicyRule
  rules_for_peer make [] ports = []
  rules_for_peer make (i ∷ is) ports = map (make i) ports ++ rules_for_peer make is ports

  unfoldable pub rules_for :
      (ℕ → ℕ → NetworkPolicyPort → PolicyRule)
      → List ℕ
      → List ℕ
      → List NetworkPolicyPort
      → List PolicyRule
  unfolding rules_for_peer
  rules_for make [] peers ports = []
  rules_for make (i ∷ is) peers ports =
      rules_for_peer (make i) peers ports ++ rules_for make is peers ports

  -- The loop over the ingress rules or over the egress rules.
  unfoldable pub compile_rules :
      (ℕ → ℕ → NetworkPolicyPort → PolicyRule)
      → List ℕ
      → List NetworkPolicyRule
      → List PolicyRule
      → M (List PolicyRule)
  unfolding rules_for ports_or_any
  compile_rules make selected [] rules = done rules
  compile_rules make selected (r ∷ rs) rules = resolve_peers r.peers >>= λ peers.
      compile_rules make selected rs (rules ++ rules_for make selected peers (ports_or_any r.ports))

  unfoldable pub compile_policy : ℕ → ℕ → Bytes → Bytes → NetworkPolicySpec → M CompiledPolicy
  unfolding compile_rules
  compile_policy now version name namespace spec =
      resolve_selector spec.pod_selector >>= λ selected.
      compile_rules (λ dst src p. tenant_rule name namespace src dst p) selected spec.ingress []
      >>= λ ingress.
          compile_rules (λ src dst p. tenant_rule name namespace src dst p) selected spec.egress
            ingress
          >>= λ rules. done (record { rules = rules; compiled_at = now; version = version })

  abbrev isolation_rule : Bytes → Verdict → NetworkPolicyPort → PolicyRule
  isolation_rule name action p = record {
    src_identity = 0;
    dst_identity = 0;
    proto = p.protocol;
    port = p.port;
    verdict = action;
    policy_name = name;
    policy_namespace = [];
    tier = tier_node_isolation;
  }

  unfoldable pub isolation_rules : Bytes → List IsolationRuleSpec → List PolicyRule
  unfolding ports_or_any
  isolation_rules name [] = []
  isolation_rules name (r ∷ rs) =
      map (isolation_rule name r.action) (ports_or_any r.ports) ++ isolation_rules name rs

  unfoldable pub compile_node_isolation_policy :
      ℕ → ℕ → Bytes → NodeIsolationPolicySpec → CompiledPolicy
  unfolding isolation_rules
  compile_node_isolation_policy now version name spec = record {
    rules = isolation_rules name spec.ingress_rules ++ isolation_rules name spec.egress_rules;
    compiled_at = now;
    version = version;
  }

unfoldable pub compile_platform_rules : ℕ → ℕ → CompiledPolicy
compile_platform_rules now version = record {
  rules = generate_rules new_platform_rules;
  compiled_at = now;
  version = version;
}
