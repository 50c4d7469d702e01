-- ===== src/Policy/Store/Platform.antt =====
-- What every recompilation of pkg/policy/policy_store.go keeps of the platform's rules.
use coordino.Base.{
  ℕ, ◌+◌, ◌%◌, ◌^◌, ◌≤◌, ◌≡◌, refl, ap, subst, inl, inr, Option, none, some, List, [], ◌∷◌, ◌++◌,
  Bytes, bytes_eq, arith,
}
use coordino.Base.GoMap.{GoMap}
use coordino.Policy.Rules.{
  PolicyRule, CompiledPolicy, PlatformRules, generate_rules, rule_key, tier_platform_mandated,
}
use coordino.Policy.Merge.{merge_and_prioritize, collect_rules}
use coordino.Policy.Merge.Order.{In}
use coordino.Policy.Merge.Winner.{first_with, merge_winner}
use coordino.Policy.Compiler.{Compiler, ◌>>=◌}
use coordino.Policy.Compiler.Total.{IsLinked, compile_policy_total}
use coordino.Policy.Store.{StoredPolicy, PolicyStore, platform_policies, compile_stored, recompile}

-- The first rule of every key that the platform mandates is in the platform's tier or above it.
abbrev pub Mandates : PlatformRules → CompiledPolicy → Type 0
Mandates p c =
    (r : PolicyRule)
    → In r (generate_rules p)
    → (w : PolicyRule) × (first_with (rule_key r) c.rules ≡ some w)
      × (w.tier ≤ tier_platform_mandated)

append-In :
    (r : PolicyRule) (qs ys zs : List PolicyRule)
    → (In r ys → In r zs)
    → In r (qs ++ ys)
    → In r (qs ++ zs)
append-In r [] ys zs f i = f i
append-In r (q ∷ qs) ys zs f (inl e) = inl e
append-In r (q ∷ qs) ys zs f (inr i) = inr (append-In r qs ys zs f i)

collect-append :
    (r : PolicyRule) (ps : List (Option CompiledPolicy)) (x : CompiledPolicy)
    → In r (collect_rules ps)
    → In r (collect_rules (ps ++ (some x ∷ [])))
unfolding collect_rules
collect-append r [] x i = elim i [ ]
collect-append r (none ∷ ps) x i = collect-append r ps x i
collect-append r (some p ∷ ps) x i = append-In r p.rules _ _ (collect-append r ps x) i

generated_tier :
    (p : PlatformRules) (r : PolicyRule) → In r (generate_rules p) → r.tier ≡ tier_platform_mandated
unfolding generate_rules
generated_tier p r (inl e) = ap (λ (x : PolicyRule). x.tier) e
generated_tier p r (inr (inl e)) = ap (λ (x : PolicyRule). x.tier) e
generated_tier p r (inr (inr (inl e))) = ap (λ (x : PolicyRule). x.tier) e
generated_tier p r (inr (inr (inr i))) = elim i [ ]

In-append : (r : PolicyRule) (xs ys : List PolicyRule) → In r xs → In r (xs ++ ys)
In-append r [] ys i = elim i [ ]
In-append r (x ∷ xs) ys (inl e) = inl e
In-append r (x ∷ xs) ys (inr i) = inr (In-append r xs ys i)

module _ (digest : Bytes → Bytes) (now stamp : ℕ) where
  -- The rules collected before the loop are collected after it.
  Extends : List (Option CompiledPolicy) → List (Option CompiledPolicy) → Type 0
  Extends old new = (r : PolicyRule) → In r (collect_rules old) → In r (collect_rules new)

  compile_stored_lem :
      (ps : GoMap Bytes StoredPolicy) (merged : List (Option CompiledPolicy)) (c : Compiler)
      → IsLinked c.identity_allocator
      → (out : List (Option CompiledPolicy)) × (d : Compiler) × (compile_stored digest now stamp ps
            merged c
          ≡ some (out, d))
        × IsLinked d.identity_allocator
        × Extends merged out
  unfolding compile_stored Extends
  compile_stored_lem [] merged c v = (merged, c, refl, v, λ r i. i)
  compile_stored_lem ((k, p) ∷ ps) merged c v =
      let (x, c', e, v') = compile_policy_total digest now stamp p.name p.namespace p.spec c v in
      let (out, d, e', w, more) = compile_stored_lem ps (merged ++ (some x ∷ [])) c' v' in
      (out, d, rw (e, compile_stored, ◌>>=◌) e', w, λ r i. more r (collect-append r merged x i))

  merge-Mandates :
      (p : PlatformRules) (merged : List (Option CompiledPolicy))
      → Extends (platform_policies now stamp (some p)) merged
      → Mandates p (merge_and_prioritize now stamp merged)
  unfolding Extends collect_rules
  merge-Mandates p merged more r i =
      let (w, at, inside, key, least, tier) =
        merge_winner now stamp merged r (more r (In-append r (generate_rules p) [] i)) in
      (w, at, omega (arith, tier, generated_tier p r i))

  -- What a recompilation promises of the store before it and the store after it.
  pub record Recompiled (p : PlatformRules) (s t : PolicyStore) : Type 0 where
    pub compiled : CompiledPolicy
    pub is_latest : t.compiled ≡ some compiled
    pub mandates : Mandates p compiled
    pub same_policies : t.policies ≡ s.policies
    pub next_version : t.version ≡ (s.version + 1) % 2 ^ 64
    pub is_linked : IsLinked t.compiler.identity_allocator

  -- Where every hash of the identity allocator leads to an identity and the store has platform
  -- rules, Recompile returns without a panic. It keeps the stored policies and counts the version
  -- up, and in its result the first rule of every key that the platform mandates is in the
  -- platform's tier or above it, whatever the tenants' policies are.
  pub recompile_lem :
      (s : PolicyStore) (p : PlatformRules)
      → s.platform ≡ some p
      → IsLinked s.compiler.identity_allocator
      → (t : PolicyStore) × (recompile digest now stamp s ≡ some (t, s.on_change))
        × Recompiled p s t
  unfolding recompile
  recompile_lem s p e v =
      let (merged, d, h, w, more) =
        compile_stored_lem s.policies (platform_policies now stamp s.platform) s.compiler v in
      let compiled = merge_and_prioritize now stamp merged in
      let t = record s {
        compiler = d;
        compiled = some compiled;
        version = (s.version + 1) % 2 ^ 64;
      } in
      (
        t,
        ap
            (λ o. elim o [
              | none ↦ none
              | some (m, c) ↦ some (
                record s {
                  compiler = c;
                  compiled = some (merge_and_prioritize now stamp m);
                  version = (s.version + 1) % 2 ^ 64;
                },
                s.on_change,
              )
            ])
            h,
        record {
          compiled = compiled;
          is_latest = refl;
          mandates =
              merge-Mandates p merged
                (subst (λ o. Extends (platform_policies now stamp o) merged) e more);
          same_policies = refl;
          next_version = refl;
          is_linked = w;
        },
      )
