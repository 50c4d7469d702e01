-- ===== src/Examples/Identities.antt =====
-- Examples for pkg/policy/identity.go and pkg/policy/selector_cache.go, with the text itself for its
-- digest.
use coordino.Base.{
  ℕ, List, length, some, bytes_ltb, ◌+◌, ◌<◌, ◌≡◌, ◌↔◌, refl, ap, arith, [], ◌∷◌, Bytes, bytes,
  bytes_eq, bytes_beq, nat_eq, ok, if◌then◌else◌, ◌==◌,
}
use coordino.Base.GoMap.{lookup, insert}
use coordino.Net.{u32_mod}
use coordino.Policy.Labels.{
  sort_keys, insert_key, write_pairs, Labels, serialize, hash_labels, hash_selector,
}
use coordino.Policy.Identity.{
  Identity, IdentityAllocator, new_identity_allocator, allocate_identity, release_identity,
  new_identity, add_identity,
}
use coordino.Policy.Identity.Invariant.{IsValid, new_identity_allocator-IsValid}
use coordino.Policy.Identity.Methods.{allocate_identity-IsValid}
use coordino.Policy.Identity.History.{Call, run, no_shared_identity}
use coordino.Policy.Identity.Counting.{release-allocate_identity, allocate_identity-eq_iff}
use coordino.Policy.Selector.{
  SelectorCache, new_selector_cache, put_pod, remove_pod_internal, add_pod, evaluate_selector,
}
use coordino.Policy.Selector.Coherence.{Agrees, IsCoherent, new_selector_cache-IsCoherent}
use coordino.Policy.Selector.AddPod.{add_pod-IsCoherent}
use coordino.Policy.Selector.Evaluate.{Unshared, IsAnswer, evaluate_selector-IsAnswer}

abbrev plain : Bytes → Bytes
plain b = b

abbrev web : Labels
web = (bytes "app", bytes "web") ∷ []

abbrev db : Labels
db = (bytes "app", bytes "db") ∷ []

abbrev web_identity : Identity
web_identity = new_identity plain new_identity_allocator web

abbrev one : IdentityAllocator
one = (allocate_identity plain new_identity_allocator web).0

abbrev db_identity : Identity
db_identity = new_identity plain one db

room : new_identity_allocator.next_id + 1 < u32_mod
unfolding new_identity_allocator
room = omega arith

one-IsValid : IsValid plain one
one-IsValid =
    allocate_identity-IsValid plain new_identity_allocator web
      (new_identity_allocator-IsValid plain) room

web_allocated : (allocate_identity plain new_identity_allocator web).1 ≡ ok web_identity
unfolding allocate_identity new_identity_allocator lookup
web_allocated = refl

db_allocated : (allocate_identity plain one db).1 ≡ ok db_identity
unfolding allocate_identity new_identity_allocator lookup hash_labels bytes_beq insert add_identity
    serialize
db_allocated = refl

release-allocate_identity_example :
    ((release_identity one web_identity.id).0.identities ≡ new_identity_allocator.identities)
    × ((release_identity one web_identity.id).0.hash_to_id ≡ new_identity_allocator.hash_to_id)
release-allocate_identity_example =
    release-allocate_identity plain new_identity_allocator web web_identity
      (new_identity_allocator-IsValid plain) web_allocated

allocate_identity-eq_iff_example :
    (web_identity.id ≡ db_identity.id) ↔ (hash_labels plain web ≡ hash_labels plain db)
allocate_identity-eq_iff_example =
    allocate_identity-eq_iff plain new_identity_allocator web db web_identity db_identity
      (new_identity_allocator-IsValid plain) room web_allocated db_allocated

abbrev cache : SelectorCache
cache = add_pod plain new_selector_cache (bytes "d/p") web

cache-IsCoherent : IsCoherent cache
cache-IsCoherent =
    (add_pod-IsCoherent plain new_selector_cache (bytes "d/p") web new_selector_cache-IsCoherent).0

nothing_cached : cache.selector_specs ≡ []
unfolding add_pod put_pod remove_pod_internal lookup new_selector_cache
nothing_cached = refl

cache-Unshared : Unshared plain cache web
unfolding lookup
cache-Unshared t h =
    absurd (ground (arith, h, ap (lookup (hash_selector plain web)) nothing_cached))

-- Nothing happens between the two locks.
abbrev quiet : SelectorCache → SelectorCache
quiet sc = sc

evaluate_selector-IsAnswer_example : IsAnswer plain web (evaluate_selector plain quiet cache web)
evaluate_selector-IsAnswer_example =
    evaluate_selector-IsAnswer plain quiet cache web cache-IsCoherent cache-Unshared (λ x c. c)
      (λ x u. u)

-- The selector of `web` is cached with the pod, which then gets other labels.
abbrev web_cached : SelectorCache
web_cached = (evaluate_selector plain quiet cache web).0

web_cached-IsCoherent : IsCoherent web_cached
web_cached-IsCoherent =
    (evaluate_selector-IsAnswer plain quiet cache web cache-IsCoherent cache-Unshared (λ x c. c)
      (λ x u. u)).0

add_pod-IsCoherent_example :
    IsCoherent (add_pod plain web_cached (bytes "d/p") db)
    × ((k : Bytes)
        → lookup k (add_pod plain web_cached (bytes "d/p") db).pod_labels
          ≡ (if bytes "d/p" == k then some db else lookup k web_cached.pod_labels))
    × ((h : Bytes)
        → Agrees
            (insert (bytes "d/p") db web_cached.pod_labels)
            (lookup h web_cached.selector_specs)
            (lookup h (add_pod plain web_cached (bytes "d/p") db).selector_results))
add_pod-IsCoherent_example =
    add_pod-IsCoherent plain web_cached (bytes "d/p") db web_cached-IsCoherent

-- Two sets of labels, one of them twice.
abbrev calls : List Call
calls = Call.allocates web ∷ Call.allocates db ∷ Call.allocates web ∷ Call.releases 1 ∷ []

calls_room : length calls + 1 < u32_mod
calls_room = omega arith

web_stored : lookup 1 (run plain calls new_identity_allocator).identities ≡ some web_identity
unfolding allocate_identity release_identity lookup insert new_identity_allocator add_identity
    hash_labels serialize sort_keys insert_key write_pairs bytes_beq bytes_ltb
web_stored = refl

no_shared_identity_example :
    (◌≡◌ {A = ℕ} 1 1) × (0 < 1) × (0 < web_identity.ref_count) × (web_identity.id ≡ 1)
no_shared_identity_example =
    no_shared_identity plain calls 1 1 web_identity web_identity calls_room web_stored web_stored
      refl
