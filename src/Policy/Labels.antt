-- ===== src/Policy/Labels.antt =====
-- Label sets and their hashes: `hashLabels` of pkg/policy/identity.go and of
-- pkg/policy/selector_cache.go. `digest` stands for `hex.EncodeToString` of the sha256 sum.
use coordino.Base.{List, [], ◌∷◌, ◌++◌, none, some, Bytes, bytes_eq, bytes_ltb, if◌then◌else◌, map}
use coordino.Base.GoMap.{GoMap, lookup}

abbrev pub Labels : Type 0
Labels = GoMap Bytes Bytes

-- `sort.Strings`
unfoldable pub insert_key : Bytes → List Bytes → List Bytes
insert_key k [] = k ∷ []
insert_key k (j ∷ js) = if bytes_ltb j k then j ∷ insert_key k js else k ∷ j ∷ js

unfoldable pub sort_keys : List Bytes → List Bytes
unfolding insert_key
sort_keys [] = []
sort_keys (k ∷ ks) = insert_key k (sort_keys ks)

-- The value of a key, the empty string where it is missing.
abbrev pub value_of : Labels → Bytes → Bytes
value_of m k = elim (lookup k m) [ none ↦ [] | some v ↦ v ]

unfoldable pub write_pairs : Labels → List Bytes → Bytes
write_pairs m [] = []
write_pairs m (k ∷ ks) = k ++ (b'=' ∷ (value_of m k ++ (b';' ∷ write_pairs m ks)))

-- What both `hashLabels` write into the digest.
unfoldable pub serialize : Labels → Bytes
unfolding sort_keys write_pairs
serialize m = write_pairs m (sort_keys (map (λ e. e.0) m))

module _ (digest : Bytes → Bytes) where
  unfoldable pub hash_labels : Labels → Bytes
  hash_labels m = digest (serialize m)

  -- The selector cache's version, which tests for the empty set first.
  unfoldable pub hash_selector : Labels → Bytes
  hash_selector [] = []
  hash_selector (e ∷ m) = digest (serialize (e ∷ m))
