-- ===== src/Policy/Compiler/Total.antt =====
-- The compiler of pkg/policy/compiler.go does not panic.
use coordino.Base.{
  ℕ, ◌+◌, ◌≡◌, refl, sym, ap, ◌∙◌, inl, inr, List, [], ◌∷◌, ◌++◌, none, some, arith, Bytes,
  bytes_eq, nat_eq, ok, err, Option-cases, Bool-cases, ◌==◌,
}
use coordino.Base.GoMap.{GoMap, lookup, insert, lookup-insert, lookup-insert_self}
use coordino.Policy.Labels.{Labels, hash_labels}
use coordino.Policy.Identity.{
  Identity, IdentityAllocator, with_ref_count, new_identity, add_identity, allocate_identity,
  get_identity_by_labels,
}
use coordino.Policy.Selector.{PodSet, evaluate_selector}
use coordino.Policy.Rules.{
  PolicyRule, CompiledPolicy, NetworkPolicyPort, NetworkPolicyPeer, NetworkPolicyRule,
  NetworkPolicySpec,
}
use coordino.Policy.Compiler.{
  Compiler, M, ◌>>=◌, labels_of, add_unseen, add_all_unseen, ports_or_any, collect_ids,
  allocate_for_selector, resolve_selector, resolve_peers_from, resolve_peers, rules_for,
  compile_rules, compile_policy,
}

-- No hash leads to a number without an identity.
abbrev pub IsLinked : IdentityAllocator → Type 0
IsLinked a =
    (h : Bytes) (i : ℕ)
    → lookup h a.hash_to_id ≡ some i
    → (d : Identity) × (lookup i a.identities ≡ some d)

insert-present :
    (i j : ℕ) (x : Identity) (m : GoMap ℕ Identity)
    → (d : Identity) × (lookup j m ≡ some d)
    → (d : Identity) × (lookup j (insert i x m) ≡ some d)
insert-present i j x m (d, at) = elim (Bool-cases (i == j)) [
  | inl e ↦ (x, lookup-insert i j x m ∙ rw e)
  | inr e ↦ (d, lookup-insert i j x m ∙ rw e at)
]

module _ (digest : Bytes → Bytes) where
  add_identity-IsLinked :
      (a : IdentityAllocator) (labels : Labels)
      → IsLinked a
      → IsLinked (add_identity digest a labels)
  unfolding add_identity
  add_identity-IsLinked a labels v h i l =
      let d = new_identity digest a labels in
      elim (Bool-cases (hash_labels digest labels == h)) [
        | inl e ↦
            let same : a.next_id ≡ i =
              ground
                (arith, l, lookup-insert (hash_labels digest labels) h a.next_id a.hash_to_id) in
            (
              d,
              ap (λ n. lookup n (insert a.next_id d a.identities)) (sym same)
                  ∙ lookup-insert_self a.next_id d a.identities,
            )
        | inr e ↦ insert-present a.next_id i d a.identities (
            v h i (
              ground
                (arith, l, lookup-insert (hash_labels digest labels) h a.next_id a.hash_to_id)))
      ]

  allocate_identity-IsLinked :
      (a : IdentityAllocator) (labels : Labels)
      → IsLinked a
      → (b : IdentityAllocator) × (d : Identity) × (allocate_identity digest a labels ≡ (b, ok d))
        × IsLinked b
  unfolding allocate_identity
  allocate_identity-IsLinked a labels v =
      elim (Option-cases (lookup (hash_labels digest labels) a.hash_to_id)) [
        | inl e ↦ (
          add_identity digest a labels,
          new_identity digest a labels,
          rw (e, allocate_identity) refl,
          add_identity-IsLinked a labels v,
        )
        | inr (i, e) ↦
            let (d, at) = v _ i e in
            let up = with_ref_count d (d.ref_count + 1) in
            (
              record a { identities = insert i up a.identities },
              up,
              rw (e, at, allocate_identity) refl,
              λ h j l. insert-present i j up a.identities (v h j l),
            )
      ]

  -- A step that returns, and leaves the allocator linked.
  abbrev pub Total : {A : Type 0} → M A → Type 0
  Total {A} m =
      (c : Compiler)
      → IsLinked c.identity_allocator
      → (a : A) × (d : Compiler) × (m c ≡ some (a, d)) × IsLinked d.identity_allocator

  >>=-Total :
      {A B : Type 0} (m : M A) (f : A → M B) → Total m → ((a : A) → Total (f a)) → Total (m >>= f)
  >>=-Total m f t u c v =
      let (a, d, e, w) = t c v in let (b, d', e', w') = u a d w in (b, d', rw (e, ◌>>=◌) e', w')

  collect_ids_total :
      (a : IdentityAllocator) (pods : GoMap Bytes Labels) (keys : PodSet) (ids : List ℕ)
      → IsLinked a
      → (out : List ℕ) × (collect_ids digest a pods keys ids ≡ some out)
  unfolding collect_ids get_identity_by_labels
  collect_ids_total a pods [] ids v = (ids, refl)
  collect_ids_total a pods ((key, b) ∷ rest) ids v =
      elim (Option-cases (lookup (hash_labels digest (labels_of pods key)) a.hash_to_id)) [
        | inl e ↦ rw (e, get_identity_by_labels, collect_ids) (collect_ids_total a pods rest ids v)
        | inr (i, e) ↦
            let (d, at) = v _ i e in
            rw (e, at, get_identity_by_labels, collect_ids)
              (collect_ids_total a pods rest (add_unseen d.id ids) v)
      ]

  allocate_for_selector_ok :
      (selector : Labels) (c : Compiler) (b : IdentityAllocator) (d : Identity)
      → allocate_identity digest c.identity_allocator selector ≡ (b, ok d)
      → allocate_for_selector digest selector c
        ≡ some (d.id ∷ [], record { identity_allocator = b; selector_cache = c.selector_cache })
  unfolding allocate_for_selector
  allocate_for_selector_ok selector c b d e =
      ap
        (λ p. elim p.1 [
          | ok x ↦ some (x.id ∷ [], record c { identity_allocator = p.0 })
          | err _ ↦ none
        ])
        e

  allocate_for_selector-Total : (selector : Labels) → Total (allocate_for_selector digest selector)
  allocate_for_selector-Total selector c v =
      let (b, d, e, w) = allocate_identity-IsLinked c.identity_allocator selector v in
      (_, _, allocate_for_selector_ok selector c b d e, w)

  resolve_selector_found :
      (selector : Labels) (c : Compiler) (out : List ℕ)
      → (let found = evaluate_selector digest (λ x. x) c.selector_cache selector in
          collect_ids digest c.identity_allocator found.0.pod_labels found.1 [] ≡ some out)
      → IsLinked c.identity_allocator
      → (a : List ℕ) × (d : Compiler) × (resolve_selector digest selector c ≡ some (a, d))
        × IsLinked d.identity_allocator
  unfolding resolve_selector
  resolve_selector_found selector c [] f v =
      let found = evaluate_selector digest (λ x. x) c.selector_cache selector in
      rw (f, resolve_selector)
        (allocate_for_selector-Total selector (record c { selector_cache = found.0 }) v)
  resolve_selector_found selector c (i ∷ ids) f v =
      let found = evaluate_selector digest (λ x. x) c.selector_cache selector in
      (i ∷ ids, record c { selector_cache = found.0 }, rw (f, resolve_selector) refl, v)

  resolve_selector-Total : (selector : Labels) → Total (resolve_selector digest selector)
  resolve_selector-Total selector c v =
      let found = evaluate_selector digest (λ x. x) c.selector_cache selector in
      let (out, f) = collect_ids_total c.identity_allocator found.0.pod_labels found.1 [] v in
      resolve_selector_found selector c out f v

  resolve_peers_from-Total :
      (ps : List NetworkPolicyPeer) (ids : List ℕ) → Total (resolve_peers_from digest ps ids)
  unfolding resolve_peers_from
  resolve_peers_from-Total [] ids c v = (ids, c, refl, v)
  resolve_peers_from-Total (p ∷ ps) ids c v = elim (Option-cases p.ip_block) [
    | inr (b, e) ↦ rw (e, resolve_peers_from) (resolve_peers_from-Total ps ids c v)
    | inl e ↦
        rw (e, resolve_peers_from)
          (>>=-Total (resolve_selector digest p.pod_selector) _
            (resolve_selector-Total p.pod_selector)
            (λ found. resolve_peers_from-Total ps (add_all_unseen digest found ids)) c v)
  ]

  resolve_peers-Total : (ps : List NetworkPolicyPeer) → Total (resolve_peers digest ps)
  unfolding resolve_peers
  resolve_peers-Total [] c v = (0 ∷ [], c, refl, v)
  resolve_peers-Total (p ∷ ps) c v = resolve_peers_from-Total (p ∷ ps) [] c v

  compile_rules-Total :
      (make : ℕ → ℕ → NetworkPolicyPort → PolicyRule) (selected : List ℕ)
      (rs : List NetworkPolicyRule) (rules : List PolicyRule)
      → Total (compile_rules digest make selected rs rules)
  unfolding compile_rules
  compile_rules-Total make selected [] rules c v = (rules, c, refl, v)
  compile_rules-Total make selected (r ∷ rs) rules c v =
      >>=-Total (resolve_peers digest r.peers) _ (resolve_peers-Total r.peers)
        (λ peers.
          compile_rules-Total make selected rs
            (rules ++ rules_for digest make selected peers (ports_or_any r.ports)))
        c v

  compile_policy-Total :
      (now version : ℕ) (name namespace : Bytes) (spec : NetworkPolicySpec)
      → Total (compile_policy digest now version name namespace spec)
  unfolding compile_policy
  compile_policy-Total now version name namespace spec =
      >>=-Total (resolve_selector digest spec.pod_selector) _
        (resolve_selector-Total spec.pod_selector)
        λ selected.
          >>=-Total (compile_rules digest _ selected spec.ingress []) _
            (compile_rules-Total _ selected spec.ingress [])
            λ ingress.
              >>=-Total (compile_rules digest _ selected spec.egress ingress) _
                (compile_rules-Total _ selected spec.egress ingress) λ rules c v. (_, c, refl, v)

  -- Where every hash of the identity allocator leads to an identity, CompilePolicy does not panic:
  -- it returns a policy, and every hash leads to an identity after it.
  pub compile_policy_total :
      (now version : ℕ) (name namespace : Bytes) (spec : NetworkPolicySpec) (c : Compiler)
      → IsLinked c.identity_allocator
      → (p : CompiledPolicy) × (d : Compiler) × (compile_policy digest now version name namespace
            spec c
          ≡ some (p, d))
        × IsLinked d.identity_allocator
  compile_policy_total now version name namespace spec =
      compile_policy-Total now version name namespace spec
