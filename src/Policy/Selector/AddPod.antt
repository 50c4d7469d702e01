-- ===== src/Policy/Selector/AddPod.antt =====
-- AddPod of SelectorCache (pkg/policy/selector_cache.go): the labels and the cached results after it.
use coordino.Base.{
  ◌≡◌, refl, ap, subst, ◌∙◌, inl, inr, Option, none, some, arith, Bytes, bytes_eq, if◌then◌else◌,
  ◌==◌, Option-cases,
}
use coordino.Base.GoMap.{GoMap, lookup, insert, delete, lookup-insert, lookup-delete}
use coordino.Policy.Labels.{Labels}
use coordino.Policy.Selector.{PodSet, SelectorCache, remove_pod_internal, put_pod, add_pod}
use coordino.Policy.Selector.Coherence.{
  expected_of, Agrees, IsCoherent, removed_lookup, remove_pod_internal-IsCoherent,
  put_pod-IsCoherent,
}

-- Only what the pods' labels look up to counts.
Agrees-lookup :
    (pods pods' : GoMap Bytes Labels) (o : Option Labels) (r : Option PodSet)
    → ((k : Bytes) → lookup k pods ≡ lookup k pods')
    → Agrees pods o r
    → Agrees pods' o r
Agrees-lookup pods pods' none none same a = tt
Agrees-lookup pods pods' none (some s) same a = a
Agrees-lookup pods pods' (some selector) none same a = a
Agrees-lookup pods pods' (some selector) (some s) same a =
    λ k. a k ∙ ap (expected_of selector) (same k)

module _ (digest : Bytes → Bytes) where
  add_pod-IsCoherent' :
      (sc : SelectorCache) (key : Bytes) (labels : Labels)
      → IsCoherent sc
      → IsCoherent (add_pod digest sc key labels)
  unfolding add_pod
  add_pod-IsCoherent' sc key labels c =
      put_pod-IsCoherent digest (remove_pod_internal digest sc key) key labels
        (removed_lookup digest sc key) (remove_pod_internal-IsCoherent digest sc key c)

  add_pod-pod_labels :
      (sc : SelectorCache) (key : Bytes) (labels : Labels) (k : Bytes)
      → lookup k (add_pod digest sc key labels).pod_labels
        ≡ lookup k (insert key labels sc.pod_labels)
  unfolding add_pod put_pod remove_pod_internal
  add_pod-pod_labels sc key labels k = elim (Option-cases (lookup key sc.pod_labels)) [
    | inl e ↦ rw (e, remove_pod_internal) refl
    | inr (old, e) ↦
        rw (e, remove_pod_internal)
          (ground (
            arith,
            lookup-insert key k labels (delete key sc.pod_labels),
            lookup-insert key k labels sc.pod_labels,
            lookup-delete key k sc.pod_labels,
          ))
  ]

  add_pod-selector_specs :
      (sc : SelectorCache) (key : Bytes) (labels : Labels)
      → (add_pod digest sc key labels).selector_specs ≡ sc.selector_specs
  unfolding add_pod put_pod remove_pod_internal
  add_pod-selector_specs sc key labels = ground arith

  -- On a coherent cache, which may hold the pod already, AddPod leaves a coherent cache. The pod has
  -- the new labels then, every other pod has its own, and each selector that was cached has exactly
  -- the pods that match it by these labels.
  pub add_pod-IsCoherent :
      (sc : SelectorCache) (key : Bytes) (labels : Labels)
      → IsCoherent sc
      → IsCoherent (add_pod digest sc key labels)
        × ((k : Bytes)
            → lookup k (add_pod digest sc key labels).pod_labels
              ≡ (if key == k then some labels else lookup k sc.pod_labels))
        × ((h : Bytes)
            → Agrees
                (insert key labels sc.pod_labels)
                (lookup h sc.selector_specs)
                (lookup h (add_pod digest sc key labels).selector_results))
  add_pod-IsCoherent sc key labels c =
      let r = add_pod digest sc key labels in
      let c' = add_pod-IsCoherent' sc key labels c in
      (
        c',
        λ k. add_pod-pod_labels sc key labels k ∙ lookup-insert key k labels sc.pod_labels,
        λ h.
            Agrees-lookup r.pod_labels (insert key labels sc.pod_labels)
              (lookup h sc.selector_specs) (lookup h r.selector_results)
              (add_pod-pod_labels sc key labels)
              (subst (λ m. Agrees r.pod_labels (lookup h m) (lookup h r.selector_results))
                (add_pod-selector_specs sc key labels) (c'.agrees h)),
      )
