-- ===== src/Policy/Selector/Evaluate.antt =====
-- EvaluateSelector of SelectorCache (pkg/policy/selector_cache.go), and histories of calls.
use coordino.Base.{
  ℕ, ◌≡◌, refl, ap, subst, ◌∙◌, inl, inr, Bool, true, [], ◌∷◌, Option, none, some, arith, Bytes,
  bytes_eq, if◌then◌else◌, ◌==◌, Bool-cases, Option-cases,
}
use coordino.Base.GoMap.{GoMap, lookup, insert, Distinct, lookup-insert, insert-Distinct}
use coordino.Policy.Labels.{Labels, hash_selector}
use coordino.Policy.Selector.{
  PodSet, SelectorCache, matches_selector, copy_map, matching_pods, evaluate_locked,
  evaluate_selector,
}
use coordino.Policy.Selector.Coherence.{expected_of, expected, Agrees, IsCoherent}

copy_map_lem : (m : PodSet) → copy_map m ≡ m
unfolding copy_map
copy_map_lem [] = refl
copy_map_lem ((k, v) ∷ m) = ap (◌∷◌ (k, v)) (copy_map_lem m)

abbrev or_else : Option Bool → Option Labels → Labels → Option Bool
or_else old none selector = old
or_else old (some labels) selector = if matches_selector labels selector then some true else old

lookup-matching_pods :
    (selector : Labels) (k : Bytes) (pods : GoMap Bytes Labels) (result : PodSet)
    → Distinct pods
    → lookup k (matching_pods selector pods result)
      ≡ or_else (lookup k result) (lookup k pods) selector
unfolding matching_pods lookup
lookup-matching_pods selector k [] result d = refl
lookup-matching_pods selector k ((j, labels) ∷ pods) result d =
    elim (Bool-cases (matches_selector labels selector)) [
      | inl hit ↦ rw hit (
          ground (
            arith,
            hit,
            lookup-matching_pods selector k pods (insert j true result) d.1,
            lookup-insert j k true result,
            bytes_eq.beq_iff j k,
            λ (e : j ≡ k). ap (λ x. lookup x pods) e,
          ))
      | inr miss ↦ rw miss (
          ground (
            arith,
            miss,
            lookup-matching_pods selector k pods result d.1,
            bytes_eq.beq_iff j k,
            λ (e : j ≡ k). ap (λ x. lookup x pods) e,
          ))
    ]

fresh_result :
    (selector : Labels) (pods : GoMap Bytes Labels) (k : Bytes)
    → Distinct pods
    → lookup k (matching_pods selector pods []) ≡ expected pods selector k
unfolding lookup
fresh_result selector pods k d = lookup-matching_pods selector k pods [] d ∙ same (lookup k pods)
  where
    same : (o : Option Labels) → or_else none o selector ≡ expected_of selector o
    same none = refl
    same (some labels) = refl

-- A cached set is that of its selector.
cached_result :
    (pods : GoMap Bytes Labels) (o : Option Labels) (selector : Labels) (s : PodSet) (k : Bytes)
    → ((t : Labels) → o ≡ some t → t ≡ selector)
    → Agrees pods o (some s)
    → lookup k s ≡ expected pods selector k
cached_result pods none selector s k only a = elim a [ ]
cached_result pods (some t) selector s k only a = a k ∙ ap (λ x. expected pods x k) (only t refl)

module _ (digest : Bytes → Bytes) where
  -- No other selector is cached under the selector's hash.
  abbrev pub Unshared : SelectorCache → Labels → Type 0
  Unshared sc selector =
      (t : Labels)
      → lookup (hash_selector digest selector) sc.selector_specs ≡ some t
      → t ≡ selector

  with_hits : (sc : SelectorCache) (n : ℕ) → IsCoherent sc → IsCoherent (record sc { hits = n })
  with_hits sc n c = record {
    agrees = c.agrees;
    distinct_specs = c.distinct_specs;
    distinct_pods = c.distinct_pods;
  }

  pub with_misses :
      (sc : SelectorCache) (n : ℕ) → IsCoherent sc → IsCoherent (record sc { misses = n })
  with_misses sc n c = record {
    agrees = c.agrees;
    distinct_specs = c.distinct_specs;
    distinct_pods = c.distinct_pods;
  }

  -- What a call should leave and return: a coherent cache, and the pods that match now.
  abbrev pub IsAnswer : Labels → SelectorCache × PodSet → Type 0
  IsAnswer selector r =
      IsCoherent r.0 × ((k : Bytes) → lookup k r.1 ≡ expected r.0.pod_labels selector k)

  insert-Agrees :
      (h k : Bytes) (selector : Labels) (sc : SelectorCache) (s : PodSet)
      → IsCoherent sc
      → ((j : Bytes) → lookup j s ≡ expected sc.pod_labels selector j)
      → Agrees sc.pod_labels
          (lookup k (insert h selector sc.selector_specs))
          (lookup k (insert h s sc.selector_results))
  insert-Agrees h k selector sc s c right =
      rw (lookup-insert h k selector sc.selector_specs, lookup-insert h k s sc.selector_results)
        (elim (Bool-cases (h == k)) [ inl e ↦ rw e right | inr e ↦ rw e (c.agrees k) ])

  evaluate_locked-IsAnswer :
      (sc : SelectorCache) (selector : Labels)
      → IsCoherent sc
      → Unshared sc selector
      → IsAnswer selector (evaluate_locked digest sc selector)
  unfolding evaluate_locked
  evaluate_locked-IsAnswer sc selector c only =
      elim (Option-cases (lookup (hash_selector digest selector) sc.selector_results)) [
        | inr (s, e) ↦
            rw (e, evaluate_locked, copy_map_lem s)
              (
                c,
                λ k. cached_result sc.pod_labels _ selector s k only (
                    subst
                      (Agrees sc.pod_labels
                        (lookup (hash_selector digest selector) sc.selector_specs))
                      e (c.agrees (hash_selector digest selector))),
              )
        | inl e ↦
            let right = λ (k : Bytes). fresh_result selector sc.pod_labels k c.distinct_pods in
            rw (e, evaluate_locked, copy_map_lem (matching_pods selector sc.pod_labels []))
              (
                record {
                  agrees = λ k.
                      insert-Agrees (hash_selector digest selector) k selector sc
                        (matching_pods selector sc.pod_labels []) c right;
                  distinct_specs = insert-Distinct _ _ sc.selector_specs c.distinct_specs;
                  distinct_pods = c.distinct_pods;
                },
                right,
              )
      ]

  -- On a coherent cache, where no other selector is cached under the selector's hash,
  -- EvaluateSelector leaves a coherent cache and returns exactly the pods of that cache that match
  -- the selector, on a hit and on a miss, if what other goroutines do between its two locks keeps
  -- the cache coherent and caches no other selector under the hash.
  pub evaluate_selector-IsAnswer :
      (between : SelectorCache → SelectorCache) (sc : SelectorCache) (selector : Labels)
      → IsCoherent sc
      → Unshared sc selector
      → ((x : SelectorCache) → IsCoherent x → IsCoherent (between x))
      → ((x : SelectorCache) → Unshared x selector → Unshared (between x) selector)
      → IsAnswer selector (evaluate_selector digest between sc selector)
  unfolding evaluate_selector
  evaluate_selector-IsAnswer between sc selector c only keeps shares =
      elim (Option-cases (lookup (hash_selector digest selector) sc.selector_results)) [
        | inr (s, e) ↦
            rw (e, evaluate_selector, copy_map_lem s)
              (
                with_hits sc _ c,
                λ k. cached_result sc.pod_labels _ selector s k only (
                    subst
                      (Agrees sc.pod_labels
                        (lookup (hash_selector digest selector) sc.selector_specs))
                      e (c.agrees (hash_selector digest selector))),
              )
        | inl e ↦
            rw (e, evaluate_selector)
              (evaluate_locked-IsAnswer _ selector (keeps _ (with_misses sc _ c)) (shares _ only))
      ]
