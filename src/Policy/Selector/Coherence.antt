-- ===== src/Policy/Selector/Coherence.antt =====
-- The cached results of SelectorCache (pkg/policy/selector_cache.go) agree with the pods.
use coordino.Base.{
  ◌≡◌, refl, ap, inl, inr, Bool, true, [], ◌∷◌, Option, none, some, arith, Bytes, bytes_eq,
  if◌then◌else◌, ◌==◌, Bool-cases, Option-cases, beq_refl,
}
use coordino.Base.GoMap.{
  GoMap, lookup, insert, delete, Distinct, lookup-insert, lookup-delete, insert-Distinct,
  delete-Distinct,
}
use coordino.Policy.Labels.{Labels, hash_selector}
use coordino.Policy.Selector.{
  PodSet, SelectorCache, new_selector_cache, matches_selector, pods_of, forget_pod, reevaluate,
  remove_pod_internal, put_pod, invalidate_selector,
}

-- What the set of a selector should say of a pod, by the pod's labels.
abbrev pub expected_of : Labels → Option Labels → Option Bool
expected_of selector none = none
expected_of selector (some labels) = if matches_selector labels selector then some true else none

abbrev pub expected : GoMap Bytes Labels → Labels → Bytes → Option Bool
expected pods selector k = expected_of selector (lookup k pods)

-- A selector is cached with a set exactly as large as it should be, or not at all.
abbrev pub Agrees : GoMap Bytes Labels → Option Labels → Option PodSet → Type 0
Agrees pods none none = Unit {0}
Agrees pods none (some s) = ⊥
Agrees pods (some selector) none = ⊥
Agrees pods (some selector) (some s) = (k : Bytes) → lookup k s ≡ expected pods selector k

pub record IsCoherent (sc : SelectorCache) : Type 0 where
  pub agrees :
      (h : Bytes) → Agrees sc.pod_labels (lookup h sc.selector_specs) (lookup h sc.selector_results)
  pub distinct_specs : Distinct sc.selector_specs
  pub distinct_pods : Distinct sc.pod_labels

pub new_selector_cache-IsCoherent : IsCoherent new_selector_cache
unfolding new_selector_cache lookup
new_selector_cache-IsCoherent = record { agrees = λ h. tt; distinct_specs = tt; distinct_pods = tt }

abbrev without : Bytes → Option PodSet → Option PodSet
without key none = none
without key (some s) = some (delete key s)

lookup-forget_pod :
    (key h : Bytes) (m : GoMap Bytes PodSet)
    → lookup h (forget_pod key m) ≡ without key (lookup h m)
unfolding forget_pod lookup
lookup-forget_pod key h [] = refl
lookup-forget_pod key h ((j, s) ∷ m) = ground (arith, lookup-forget_pod key h m)

Agrees-forget :
    (key : Bytes) (pods : GoMap Bytes Labels) (o : Option Labels) (r : Option PodSet)
    → Agrees pods o r
    → Agrees (delete key pods) o (without key r)
Agrees-forget key pods none none a = tt
Agrees-forget key pods none (some s) a = a
Agrees-forget key pods (some selector) none a = a
Agrees-forget key pods (some selector) (some s) a =
    λ k. ground (arith, a k, lookup-delete key k s, lookup-delete key k pods)

-- The result of a selector after the re-evaluation for one pod.
abbrev reevaluated : Bytes → Labels → Option Labels → Option PodSet → PodSet → Option PodSet
reevaluated key labels none old s = old
reevaluated key labels (some selector) old s =
    if matches_selector labels selector then some (insert key true s) else old

lookup-reevaluate :
    (key : Bytes) (labels : Labels) (h : Bytes) (specs : GoMap Bytes Labels)
    (results : GoMap Bytes PodSet)
    → Distinct specs
    → lookup h (reevaluate key labels specs results)
      ≡ reevaluated key labels (lookup h specs) (lookup h results) (pods_of h results)
unfolding reevaluate lookup pods_of
lookup-reevaluate key labels h [] results d = refl
lookup-reevaluate key labels h ((j, selector) ∷ specs) results d =
    elim (Bool-cases (matches_selector labels selector)) [
      | inl hit ↦
          let grown = insert key true (pods_of j results) in
          rw hit (
            ground (
              arith,
              hit,
              lookup-reevaluate key labels h specs (insert j grown results) d.1,
              lookup-insert j h grown results,
              bytes_eq.beq_iff j h,
              λ (e : j ≡ h). ap (λ x. lookup x specs) e,
              λ (e : j ≡ h). ap (λ x. pods_of x results) e,
            ))
      | inr miss ↦ rw miss (
          ground (
            arith,
            miss,
            lookup-reevaluate key labels h specs results d.1,
            bytes_eq.beq_iff j h,
            λ (e : j ≡ h). ap (λ x. lookup x specs) e,
          ))
    ]

Agrees-put :
    (key : Bytes) (labels : Labels) (pods : GoMap Bytes Labels) (o : Option Labels)
    (r : Option PodSet) (s : PodSet)
    → lookup key pods ≡ none
    → ((t : PodSet) → r ≡ some t → s ≡ t)
    → Agrees pods o r
    → Agrees (insert key labels pods) o (reevaluated key labels o r s)
Agrees-put key labels pods none none s new same a = tt
Agrees-put key labels pods none (some t) s new same a = a
Agrees-put key labels pods (some selector) none s new same a = elim a [ ]
Agrees-put key labels pods (some selector) (some t) s new same a =
    elim (Bool-cases (matches_selector labels selector)) [
      | inl hit ↦ rw hit (λ k.
          rw (same t refl)
            (ground (arith, hit, a k, lookup-insert key k true t, lookup-insert key k labels pods)))
      | inr miss ↦ rw miss (λ k. ground (
        arith,
        miss,
        new,
        a k,
        a key,
        lookup-insert key k labels pods,
        bytes_eq.beq_iff key k,
        λ (e : key ≡ k). ap (λ x. lookup x t) e,
      ))
    ]

pods_of-some :
    (h : Bytes) (m : GoMap Bytes PodSet) (t : PodSet) → lookup h m ≡ some t → pods_of h m ≡ t
unfolding pods_of
pods_of-some h m t e = ground (arith, e)

module _ (digest : Bytes → Bytes) where
  pub removed_lookup :
      (sc : SelectorCache) (key : Bytes)
      → lookup key (remove_pod_internal digest sc key).pod_labels ≡ none
  unfolding remove_pod_internal
  removed_lookup sc key = ground (arith, lookup-delete key key sc.pod_labels, beq_refl key)

  pub remove_pod_internal-IsCoherent :
      (sc : SelectorCache) (key : Bytes)
      → IsCoherent sc
      → IsCoherent (remove_pod_internal digest sc key)
  unfolding remove_pod_internal
  remove_pod_internal-IsCoherent sc key c = elim (Option-cases (lookup key sc.pod_labels)) [
    | inl e ↦ rw (e, remove_pod_internal) c
    | inr (labels, e) ↦
        rw (e, remove_pod_internal)
          (record {
            agrees = λ h.
                rw (lookup-forget_pod key h sc.selector_results)
                  (Agrees-forget key sc.pod_labels _ _ (c.agrees h));
            distinct_specs = c.distinct_specs;
            distinct_pods = delete-Distinct key sc.pod_labels c.distinct_pods;
          })
  ]

  pub put_pod-IsCoherent :
      (sc : SelectorCache) (key : Bytes) (labels : Labels)
      → lookup key sc.pod_labels ≡ none
      → IsCoherent sc
      → IsCoherent (put_pod digest sc key labels)
  unfolding put_pod
  put_pod-IsCoherent sc key labels new c = record {
    agrees = λ h.
        rw (lookup-reevaluate key labels h sc.selector_specs sc.selector_results c.distinct_specs) (
          Agrees-put key labels sc.pod_labels (lookup h sc.selector_specs)
            (lookup h sc.selector_results) (pods_of h sc.selector_results) new
            (pods_of-some h sc.selector_results) (c.agrees h));
    distinct_specs = c.distinct_specs;
    distinct_pods = insert-Distinct key labels sc.pod_labels c.distinct_pods;
  }

  pub invalidate_selector-IsCoherent :
      (sc : SelectorCache) (selector : Labels)
      → IsCoherent sc
      → IsCoherent (invalidate_selector digest sc selector)
  unfolding invalidate_selector
  invalidate_selector-IsCoherent sc selector c = record {
    agrees = λ h.
        let key = hash_selector digest selector in
        rw (lookup-delete key h sc.selector_specs, lookup-delete key h sc.selector_results)
          (elim (Bool-cases (key == h)) [ inl e ↦ rw e tt | inr e ↦ rw e (c.agrees h) ]);
    distinct_specs = delete-Distinct _ sc.selector_specs c.distinct_specs;
    distinct_pods = c.distinct_pods;
  }
