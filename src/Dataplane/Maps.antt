-- ===== src/Dataplane/Maps.antt =====
-- MapManager of pkg/dataplane/maps.go. A map's storage is a Go map under the key's hexadecimal text.
use coordino.Base.{ℕ, Bytes, bytes, bytes_eq, Option, none, some, List, [], ◌∷◌, Result, ok, err}
use coordino.Base.GoMap.{GoMap, lookup, insert, delete}
use coordino.Base.Hex.{encode_to_string}

pub record PinnedMap : Type 0 where
  pub name : Bytes
  pub type : Bytes
  pub pin_path : Bytes
  pub key_size : ℕ
  pub value_size : ℕ
  pub max_entries : ℕ

abbrev pub Storage : Type 0
Storage = GoMap Bytes (GoMap Bytes Bytes)

pub record MapManager : Type 0 where
  pub base_path : Bytes
  pub maps : GoMap Bytes PinnedMap
  pub storage : Storage

pub data Error : Type 0 where
  map_not_found : Bytes → Error
  key_not_found : Bytes → Error

unfoldable pub new_map_manager : Bytes → MapManager
new_map_manager base_path = record { base_path = base_path; maps = []; storage = [] }

abbrev standard_map : Bytes → Bytes → ℕ → ℕ → PinnedMap
standard_map name type key_size value_size = record {
  name = name;
  type = type;
  pin_path = name;
  key_size = key_size;
  value_size = value_size;
  max_entries = 65536;
}

unfoldable pub default_maps : List PinnedMap
default_maps =
    standard_map (bytes "identity_map") (bytes "identity") 4 4
    ∷ standard_map (bytes "policy_map") (bytes "policy") 12 2
    ∷ standard_map (bytes "conntrack_map") (bytes "conntrack") 4 4
    ∷ standard_map (bytes "endpoint_map") (bytes "endpoint") 4 16
    ∷ []

-- An existing map keeps its entries.
abbrev ensure_storage : Bytes → Option (GoMap Bytes Bytes) → Storage → Storage
ensure_storage name none s = insert name [] s
ensure_storage name (some _) s = s

unfoldable pub ensure_map : PinnedMap → MapManager → MapManager
ensure_map pm m = record m {
  maps = insert pm.name pm m.maps;
  storage = ensure_storage pm.name (lookup pm.name m.storage) m.storage;
}

unfoldable pub delete_map : Bytes → MapManager → MapManager
delete_map name m = record m { maps = delete name m.maps; storage = delete name m.storage }

unfoldable pub get_map : Bytes → MapManager → Option PinnedMap
get_map name m = lookup name m.maps

-- The loop of CleanupStaleMaps over the entries of `storage`.
unfoldable pub clean_from : GoMap Bytes PinnedMap → Storage → Storage → Storage
clean_from maps [] s = s
clean_from maps ((name, _) ∷ rest) s = elim (lookup name maps) [
  | some _ ↦ clean_from maps rest s
  | none ↦ clean_from maps rest (delete name s)
]

unfoldable pub cleanup_stale_maps : MapManager → MapManager
unfolding clean_from
cleanup_stale_maps m = record m { storage = clean_from m.maps m.storage m.storage }

unfoldable pub update_map_entry : Bytes → Bytes → Bytes → MapManager → MapManager × Option Error
update_map_entry name key value m = elim (lookup name m.storage) [
  | none ↦ (m, some (Error.map_not_found name))
  | some s ↦
      (record m { storage = insert name (insert (encode_to_string key) value s) m.storage }, none)
]

unfoldable pub delete_map_entry : Bytes → Bytes → MapManager → MapManager × Option Error
delete_map_entry name key m = elim (lookup name m.storage) [
  | none ↦ (m, some (Error.map_not_found name))
  | some s ↦ (record m { storage = insert name (delete (encode_to_string key) s) m.storage }, none)
]

unfoldable pub lookup_map_entry : Bytes → Bytes → MapManager → Result Error Bytes
lookup_map_entry name key m = elim (lookup name m.storage) [
  | none ↦ err (Error.map_not_found name)
  | some s ↦ elim (lookup (encode_to_string key) s) [
    | none ↦ err (Error.key_not_found name)
    | some value ↦ ok value
  ]
]
