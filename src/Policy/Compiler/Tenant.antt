-- ===== src/Policy/Compiler/Tenant.antt =====
-- What the rules of a compiled network policy (pkg/policy/compiler.go) can say.
use coordino.Base.{
  ℕ, ◌≡◌, refl, subst, inl, inr, List, [], ◌∷◌, ◌++◌, map, Option, some, arith, Bytes, Option-cases,
}
use coordino.Policy.Rules.{
  PolicyRule, CompiledPolicy, NetworkPolicyPort, NetworkPolicyRule, NetworkPolicySpec,
  verdict_allow, tier_tenant,
}
use coordino.Policy.Compiler.{
  Compiler, M, ◌>>=◌, ports_or_any, resolve_selector, resolve_peers, tenant_rule, rules_for_peer,
  rules_for, compile_rules, compile_policy,
}

-- A rule that allows, in the tenants' tier, under the policy's name.
pub record IsTenant (name namespace : Bytes) (r : PolicyRule) : Type 0 where
  pub allows : r.verdict ≡ verdict_allow
  pub tenant : r.tier ≡ tier_tenant
  pub named : r.policy_name ≡ name
  pub in_namespace : r.policy_namespace ≡ namespace

abbrev pub AllTenant : Bytes → Bytes → List PolicyRule → Type 0
AllTenant name namespace [] = Unit {0}
AllTenant name namespace (r ∷ rs) = IsTenant name namespace r × AllTenant name namespace rs

AllTenant-append :
    (name namespace : Bytes) (xs ys : List PolicyRule)
    → AllTenant name namespace xs
    → AllTenant name namespace ys
    → AllTenant name namespace (xs ++ ys)
AllTenant-append name namespace [] ys p q = q
AllTenant-append name namespace (x ∷ xs) ys p q = (p.0, AllTenant-append name namespace xs ys p.1 q)

>>=-eq-some :
    {A B : Type 0} (m : M A) (f : A → M B) (c : Compiler) {r : B × Compiler}
    → (m >>= f) c ≡ some r
    → (a : A) × (d : Compiler) × (m c ≡ some (a, d)) × (f a d ≡ some r)
>>=-eq-some m f c h = elim (Option-cases (m c)) [
  | inl e ↦ absurd (ground (arith, e, h))
  | inr ((a, d), e) ↦ (a, d, e, ground (arith, e, h))
]

returned {ℓ} :
    {A : Type ℓ} {a b : A} (c d : Compiler)
    → ◌≡◌ {A = Option (A × Compiler)} (some (a, c)) (some (b, d))
    → a ≡ b
returned c d h = ground arith

module _ (digest : Bytes → Bytes) (name namespace : Bytes) where
  -- A way to make rules that makes tenants' rules.
  abbrev Makes : (ℕ → ℕ → NetworkPolicyPort → PolicyRule) → Type 0
  Makes make = (i j : ℕ) (p : NetworkPolicyPort) → IsTenant name namespace (make i j p)

  map-AllTenant :
      (make : NetworkPolicyPort → PolicyRule)
      → ((p : NetworkPolicyPort) → IsTenant name namespace (make p))
      → (ports : List NetworkPolicyPort) → AllTenant name namespace (map make ports)
  map-AllTenant make t [] = tt
  map-AllTenant make t (p ∷ ps) = (t p, map-AllTenant make t ps)

  rules_for_peer-AllTenant :
      (make : ℕ → NetworkPolicyPort → PolicyRule)
      → ((i : ℕ) (p : NetworkPolicyPort) → IsTenant name namespace (make i p))
      → (peers : List ℕ) (ports : List NetworkPolicyPort)
      → AllTenant name namespace (rules_for_peer digest make peers ports)
  unfolding rules_for_peer
  rules_for_peer-AllTenant make t [] ports = tt
  rules_for_peer-AllTenant make t (i ∷ is) ports =
      AllTenant-append name namespace (map (make i) ports) _ (map-AllTenant (make i) (t i) ports)
        (rules_for_peer-AllTenant make t is ports)

  rules_for-AllTenant :
      (make : ℕ → ℕ → NetworkPolicyPort → PolicyRule)
      → Makes make
      → (selected peers : List ℕ) (ports : List NetworkPolicyPort)
      → AllTenant name namespace (rules_for digest make selected peers ports)
  unfolding rules_for
  rules_for-AllTenant make t [] peers ports = tt
  rules_for-AllTenant make t (i ∷ is) peers ports =
      AllTenant-append name namespace (rules_for_peer digest (make i) peers ports) _
        (rules_for_peer-AllTenant (make i) (t i) peers ports)
        (rules_for-AllTenant make t is peers ports)

  compile_rules-AllTenant :
      (make : ℕ → ℕ → NetworkPolicyPort → PolicyRule)
      → Makes make
      → (selected : List ℕ) (rs : List NetworkPolicyRule) (rules : List PolicyRule) (c d : Compiler)
        (out : List PolicyRule)
      → AllTenant name namespace rules
      → compile_rules digest make selected rs rules c ≡ some (out, d)
      → AllTenant name namespace out
  unfolding compile_rules
  compile_rules-AllTenant make t selected [] rules c d out a h =
      subst (AllTenant name namespace) (returned c d h) a
  compile_rules-AllTenant make t selected (r ∷ rs) rules c d out a h =
      elim (Option-cases (resolve_peers digest r.peers c)) [
        | inl e ↦ absurd (ground (arith, e))
        | inr ((peers, c'), e) ↦
            compile_rules-AllTenant make t selected rs _ c' d out
              (AllTenant-append name namespace rules _ a
                (rules_for-AllTenant make t selected peers (ports_or_any r.ports)))
              (ground (arith, e, h))
      ]

  -- Where CompilePolicy returns, each rule of the result allows, stands in the tenants' tier and
  -- carries the name and the namespace of the policy, whatever the policy says.
  pub compile_policy-AllTenant :
      (now version : ℕ) (spec : NetworkPolicySpec) (c d : Compiler) (p : CompiledPolicy)
      → compile_policy digest now version name namespace spec c ≡ some (p, d)
      → AllTenant name namespace p.rules
  unfolding compile_policy
  compile_policy-AllTenant now version spec c d p h =
      let (selected, c1, _, h1) = >>=-eq-some (resolve_selector digest spec.pod_selector) _ c h in
      let (ingress, c2, e2, h2) =
        >>=-eq-some (compile_rules digest _ selected spec.ingress []) _ c1 h1 in
      let (rules, c3, e3, h3) =
        >>=-eq-some (compile_rules digest _ selected spec.egress ingress) _ c2 h2 in
      let first =
        compile_rules-AllTenant _ (λ i j p. own) selected spec.ingress [] c1 c2 ingress tt e2 in
      let both =
        compile_rules-AllTenant _ (λ i j p. own) selected spec.egress ingress c2 c3 rules first
          e3 in
      subst (λ (x : CompiledPolicy). AllTenant name namespace x.rules) (returned c3 d h3) both
    where
      own :
          {i j : ℕ} {p : NetworkPolicyPort}
          → IsTenant name namespace (tenant_rule digest name namespace i j p)
      own = record { allows = refl; tenant = refl; named = refl; in_namespace = refl }
