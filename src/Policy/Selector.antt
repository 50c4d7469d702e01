-- ===== src/Policy/Selector.antt =====
-- pkg/policy/selector_cache.go: SelectorCache. `digest` stands for the hex text of a sha256 sum.
-- Each method holds the lock throughout, but EvaluateSelector gives it up between its read and its
-- write: what other goroutines do in that gap is its argument `between`.
pub mod Coherence
pub mod AddPod
pub mod Evaluate
use coordino.Base.{
  ℕ, zero, suc, ◌+◌, ◌%◌, ◌^◌, Bool, true, false, List, [], ◌∷◌, Option, none, some, Bytes,
  bytes_eq, length, nat_beq, if◌then◌else◌, ◌==◌,
}
use coordino.Base.GoMap.{GoMap, lookup, insert, delete}
use coordino.Policy.Labels.{Labels, hash_selector}

-- A set of pod keys, `map[string]bool`.
abbrev pub PodSet : Type 0
PodSet = GoMap Bytes Bool

pub record SelectorCache : Type 0 where
  pub pods_by_labels : GoMap Bytes PodSet
  pub pod_labels : GoMap Bytes Labels
  pub selector_results : GoMap Bytes PodSet
  pub selector_specs : GoMap Bytes Labels
  pub hits : ℕ
  pub misses : ℕ

pub record CacheStats : Type 0 where
  pub pod_count : ℕ
  pub selector_count : ℕ
  pub cache_hits : ℕ
  pub cache_misses : ℕ

unfoldable pub new_selector_cache : SelectorCache
new_selector_cache = record {
  pods_by_labels = [];
  pod_labels = [];
  selector_results = [];
  selector_specs = [];
  hits = 0;
  misses = 0;
}

-- The loop of `MatchesSelector`.
unfoldable pub matches_from : Labels → Labels → Bool
matches_from pod_labels [] = true
matches_from pod_labels ((k, v) ∷ rest) =
    let more = matches_from pod_labels rest in
    elim (lookup k pod_labels) [ none ↦ false | some val ↦ if val == v then more else false ]

unfoldable pub matches_selector : Labels → Labels → Bool
unfolding matches_from
matches_selector pod_labels selector =
    if nat_beq (length selector) 0 then true else matches_from pod_labels selector

unfoldable pub copy_map : PodSet → PodSet
copy_map [] = []
copy_map ((k, v) ∷ m) = (k, v) ∷ copy_map m

-- The nil map where the key is missing.
unfoldable pub pods_of : Bytes → GoMap Bytes PodSet → PodSet
pods_of h m = elim (lookup h m) [ none ↦ [] | some s ↦ s ]

-- `delete(sc.selectorResults[hash], key)` for every hash.
unfoldable pub forget_pod : Bytes → GoMap Bytes PodSet → GoMap Bytes PodSet
forget_pod key [] = []
forget_pod key ((h, s) ∷ m) = (h, delete key s) ∷ forget_pod key m

-- The pods of a label hash without one pod; an empty set is dropped.
unfoldable pub drop_by_labels : Bytes → Bytes → GoMap Bytes PodSet → GoMap Bytes PodSet
drop_by_labels h key m = elim (lookup h m) [
  | none ↦ m
  | some pods ↦
      let left = delete key pods in if nat_beq (length left) 0 then delete h m else insert h left m
]

-- The loop of `AddPod` over the selectors that `range` has still to visit.
unfoldable pub reevaluate :
    Bytes → Labels → GoMap Bytes Labels → GoMap Bytes PodSet → GoMap Bytes PodSet
unfolding matches_selector pods_of
reevaluate key labels [] results = results
reevaluate key labels ((h, selector) ∷ rest) results = reevaluate key labels rest (
    if matches_selector labels selector
    then insert h (insert key true (pods_of h results)) results
    else results)

-- The loop of `EvaluateSelector` over the pods.
unfoldable pub matching_pods : Labels → GoMap Bytes Labels → PodSet → PodSet
unfolding matches_selector
matching_pods selector [] result = result
matching_pods selector ((key, labels) ∷ rest) result =
    matching_pods selector rest
      (if matches_selector labels selector then insert key true result else result)

-- `atomic.AddInt64(&n, 1)`, on the bit pattern.
abbrev pub add_one_64 : ℕ → ℕ
add_one_64 n = (n + 1) % 2 ^ 64

module _ (digest : Bytes → Bytes) where
  unfoldable pub remove_pod_internal : SelectorCache → Bytes → SelectorCache
  unfolding forget_pod drop_by_labels
  remove_pod_internal sc key = elim (lookup key sc.pod_labels) [
    | none ↦ sc
    | some labels ↦ record sc {
      pods_by_labels = drop_by_labels (hash_selector digest labels) key sc.pods_by_labels;
      pod_labels = delete key sc.pod_labels;
      selector_results = forget_pod key sc.selector_results;
    }
  ]

  unfoldable pub remove_pod : SelectorCache → Bytes → SelectorCache
  remove_pod sc key = remove_pod_internal sc key

  -- `AddPod` after the old references are gone.
  unfoldable pub put_pod : SelectorCache → Bytes → Labels → SelectorCache
  unfolding reevaluate pods_of
  put_pod sc key labels =
      let h = hash_selector digest labels in
      record sc {
        pods_by_labels = insert h (insert key true (pods_of h sc.pods_by_labels)) sc.pods_by_labels;
        pod_labels = insert key labels sc.pod_labels;
        selector_results = reevaluate key labels sc.selector_specs sc.selector_results;
      }

  unfoldable pub add_pod : SelectorCache → Bytes → Labels → SelectorCache
  add_pod sc key labels = put_pod (remove_pod_internal sc key) key labels

  unfoldable pub invalidate_selector : SelectorCache → Labels → SelectorCache
  invalidate_selector sc selector = record sc {
    selector_results = delete (hash_selector digest selector) sc.selector_results;
    selector_specs = delete (hash_selector digest selector) sc.selector_specs;
  }

  -- The part of `EvaluateSelector` under the write lock, with its double check.
  unfoldable pub evaluate_locked : SelectorCache → Labels → SelectorCache × PodSet
  unfolding copy_map matching_pods
  evaluate_locked sc selector =
      let h = hash_selector digest selector in
      elim (lookup h sc.selector_results) [
        | some result ↦ (sc, copy_map result)
        | none ↦
            let result = matching_pods selector sc.pod_labels [] in
            (
              record sc {
                selector_specs = insert h selector sc.selector_specs;
                selector_results = insert h result sc.selector_results;
              },
              copy_map result,
            )
      ]

  unfoldable pub evaluate_selector :
      (SelectorCache → SelectorCache) → SelectorCache → Labels → SelectorCache × PodSet
  unfolding copy_map
  evaluate_selector between sc selector =
      elim (lookup (hash_selector digest selector) sc.selector_results) [
        | some result ↦ (record sc { hits = add_one_64 sc.hits }, copy_map result)
        | none ↦ evaluate_locked (between (record sc { misses = add_one_64 sc.misses })) selector
      ]

unfoldable pub get_cache_stats : SelectorCache → CacheStats
get_cache_stats sc = record {
  pod_count = length sc.pod_labels;
  selector_count = length sc.selector_specs;
  cache_hits = sc.hits;
  cache_misses = sc.misses;
}
