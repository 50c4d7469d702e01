-- ===== src/Policy/Identity.antt =====
-- pkg/policy/identity.go: IdentityAllocator. Each method runs under the allocator's mutex. An
-- `*Identity` is the entry of the map; a reference count is never negative, since an entry whose
-- count falls to 0 is deleted, so `- 1` on ℕ is the source's.
pub mod Invariant
pub mod Methods
pub mod Counting
pub mod History
use coordino.Base.{
  ℕ, zero, suc, ◌+◌, ◌-◌, ◌%◌, Bool, true, false, List, [], ◌∷◌, Option, none, some, Bytes,
  bytes_eq, nat_eq, Result, ok, err, leb, if◌then◌else◌,
}
use coordino.Base.GoMap.{GoMap, lookup, insert, delete}
use coordino.Net.{u32_mod}
use coordino.Policy.Labels.{Labels, hash_labels}

pub record Identity : Type 0 where
  pub id : ℕ
  pub labels : Labels
  pub label_hash : Bytes
  pub ref_count : ℕ
  pub nodes : GoMap Bytes Bool

pub record IdentityAllocator : Type 0 where
  pub identities : GoMap ℕ Identity
  pub hash_to_id : GoMap Bytes ℕ
  pub next_id : ℕ

pub data Error : Type 0 where
  identity_not_found nil_dereference : Error

unfoldable pub new_identity_allocator : IdentityAllocator
new_identity_allocator = record { identities = []; hash_to_id = []; next_id = 1 }

-- A missing key of a `map[string]bool` reads as false.
unfoldable pub on_node : Identity → Bytes → Bool
on_node d node = elim (lookup node d.nodes) [ none ↦ false | some b ↦ b ]

abbrev pub with_ref_count : Identity → ℕ → Identity
with_ref_count d n = record d { ref_count = n }

module _ (digest : Bytes → Bytes) where
  abbrev pub new_identity : IdentityAllocator → Labels → Identity
  new_identity a labels = record {
    id = a.next_id;
    labels = labels;
    label_hash = hash_labels digest labels;
    ref_count = 1;
    nodes = [];
  }

  unfoldable pub add_identity : IdentityAllocator → Labels → IdentityAllocator
  add_identity a labels = record {
    identities = insert a.next_id (new_identity a labels) a.identities;
    hash_to_id = insert (hash_labels digest labels) a.next_id a.hash_to_id;
    next_id = (a.next_id + 1) % u32_mod;
  }

  -- A hash whose identity is missing makes `identity.RefCount++` dereference nil.
  unfoldable pub allocate_identity :
      IdentityAllocator → Labels → IdentityAllocator × Result Error Identity
  allocate_identity a labels = elim (lookup (hash_labels digest labels) a.hash_to_id) [
    | none ↦ (add_identity a labels, ok (new_identity a labels))
    | some i ↦ elim (lookup i a.identities) [
      | none ↦ (a, err nil_dereference)
      | some d ↦ (
        record a { identities = insert i (with_ref_count d (d.ref_count + 1)) a.identities },
        ok (with_ref_count d (d.ref_count + 1)),
      )
    ]
  ]

  -- `none` and `some none` are the source's `(nil, false)` and `(nil, true)`.
  unfoldable pub get_identity_by_labels : IdentityAllocator → Labels → Option (Option Identity)
  get_identity_by_labels a labels = elim (lookup (hash_labels digest labels) a.hash_to_id) [
    | none ↦ none
    | some i ↦ some (lookup i a.identities)
  ]

unfoldable pub release_identity :
    IdentityAllocator → ℕ → IdentityAllocator × Result Error (Unit {0})
release_identity a i = elim (lookup i a.identities) [
  | none ↦ (a, err identity_not_found)
  | some d ↦ (
    if leb (d.ref_count - 1) 0
        then record a {
          identities = delete i a.identities;
          hash_to_id = delete d.label_hash a.hash_to_id;
        }
        else record a { identities = insert i (with_ref_count d (d.ref_count - 1)) a.identities },
    ok tt,
  )
]

unfoldable pub get_identity : IdentityAllocator → ℕ → Option Identity
get_identity a i = lookup i a.identities

-- The loop of `GetIdentitiesForNode` over the entries that `range` has still to visit.
unfoldable pub identities_on : Bytes → GoMap ℕ Identity → List Identity
unfolding on_node
identities_on node [] = []
identities_on node ((i, d) ∷ m) =
    let rest = identities_on node m in if on_node d node then d ∷ rest else rest

unfoldable pub get_identities_for_node : IdentityAllocator → Bytes → List Identity
unfolding identities_on
get_identities_for_node a node = identities_on node a.identities

unfoldable pub add_node_reference :
    IdentityAllocator → ℕ → Bytes → IdentityAllocator × Result Error (Unit {0})
add_node_reference a i node = elim (lookup i a.identities) [
  | none ↦ (a, err identity_not_found)
  | some d ↦ (
    record a { identities = insert i (record d { nodes = insert node true d.nodes }) a.identities },
    ok tt,
  )
]

unfoldable pub remove_node_reference :
    IdentityAllocator → ℕ → Bytes → IdentityAllocator × Result Error (Unit {0})
remove_node_reference a i node = elim (lookup i a.identities) [
  | none ↦ (a, err identity_not_found)
  | some d ↦ (
    record a { identities = insert i (record d { nodes = delete node d.nodes }) a.identities },
    ok tt,
  )
]
