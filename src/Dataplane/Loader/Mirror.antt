-- ===== src/Dataplane/Loader/Mirror.antt =====
-- The kernel's identity map agrees with the loader's own in pkg/dataplane/loader.go.
use coordino.Base.{
  ℕ, ◌≡◌, refl, sym, ap, ◌∙◌, subst, inl, inr, Bytes, bytes_eq, nat_eq, bytes_beq, Option, none,
  some, [], ◌∷◌, arith, ◌==◌, Option-cases,
}
use coordino.Base.GoMap.{
  GoMap, lookup, insert, delete, lookup-insert, lookup-delete, lookup-insert_self,
}
use coordino.Base.Hex.{encode_to_string, AllBytes, encode_to_string-injective}
use coordino.Net.{big_endian}
use coordino.Dataplane.Maps.{MapManager, update_map_entry, delete_map_entry}
use coordino.Dataplane.Loader.{EbpfDataPlane, little_endian, identity_map_name, endpoint_map_name}

-- Four bytes.
abbrev pub IsV4 : Bytes → Type 0
IsV4 x =
    (a : ℕ) × (b : ℕ) × (c : ℕ) × (d : ℕ) × (x ≡ a ∷ b ∷ c ∷ d ∷ []) × AllBytes (a ∷ b ∷ c ∷ d ∷ [])

big_endian-injective : (x y : Bytes) → IsV4 x → IsV4 y → big_endian x ≡ big_endian y → x ≡ y
big_endian-injective x y (a, b, c, d, ex, p) (a', b', c', d', ey, q) e =
    let z = sym (ap big_endian ex) ∙ e ∙ ap big_endian ey in
    ex
    ∙ same_quad a b c d a' b' c' d' (omega arith) (omega arith) (omega arith) (omega arith)
    ∙ sym ey
  where
    same_quad :
        (a b c d a' b' c' d' : ℕ)
        → a ≡ a'
        → b ≡ b'
        → c ≡ c'
        → d ≡ d'
        → ◌≡◌ {A = Bytes} (a ∷ b ∷ c ∷ d ∷ []) (a' ∷ b' ∷ c' ∷ d' ∷ [])
    same_quad a b c d a' b' c' d' e f g h = cc

IsV4-AllBytes : (x : Bytes) → IsV4 x → AllBytes x
IsV4-AllBytes x (a, b, c, d, e, p) = subst AllBytes (sym e) p

-- The two keys of an address tell addresses apart in the same way.
same_key :
    (x y : Bytes)
    → IsV4 x
    → IsV4 y
    → (encode_to_string x == encode_to_string y) ≡ (big_endian x == big_endian y)
same_key x y p q =
    let hex = bytes_eq.beq_iff (encode_to_string x) (encode_to_string y) in
    let num = nat_eq.beq_iff (big_endian x) (big_endian y) in
    ground (
      arith,
      hex,
      num,
      encode_to_string-injective x y (IsV4-AllBytes x p) (IsV4-AllBytes y q),
      big_endian-injective x y p q,
      λ (e : x ≡ y). ap encode_to_string e,
      λ (e : x ≡ y). ap big_endian e,
    )

-- The value that stands for an identity in the kernel's map.
abbrev pub stored : Option ℕ → Option Bytes
stored none = none
stored (some id) = some (little_endian id)

abbrev pub Mirrors : GoMap Bytes Bytes → GoMap ℕ ℕ → Type 0
Mirrors s m =
    (ip : Bytes) → IsV4 ip → lookup (encode_to_string ip) s ≡ stored (lookup (big_endian ip) m)

pub insert-Mirrors :
    (x : Bytes) (id : ℕ) (s : GoMap Bytes Bytes) (m : GoMap ℕ ℕ)
    → IsV4 x
    → Mirrors s m
    → Mirrors (insert (encode_to_string x) (little_endian id) s) (insert (big_endian x) id m)
insert-Mirrors x id s m p v ip q = ground (
  arith,
  v ip q,
  same_key x ip p q,
  lookup-insert (encode_to_string x) (encode_to_string ip) (little_endian id) s,
  lookup-insert (big_endian x) (big_endian ip) id m,
)

pub delete-Mirrors :
    (x : Bytes) (s : GoMap Bytes Bytes) (m : GoMap ℕ ℕ)
    → IsV4 x
    → Mirrors s m
    → Mirrors (delete (encode_to_string x) s) (delete (big_endian x) m)
delete-Mirrors x s m p v ip q = ground (
  arith,
  v ip q,
  same_key x ip p q,
  lookup-delete (encode_to_string x) (encode_to_string ip) s,
  lookup-delete (big_endian x) (big_endian ip) m,
)

-- The storage of the kernel's identity map exists and mirrors the loader's map.
abbrev pub IsMirrored : EbpfDataPlane → Type 0
IsMirrored e =
    (s : GoMap Bytes Bytes) × (lookup identity_map_name e.map_manager.storage ≡ some s)
    × Mirrors s e.identity_map

-- A write to the endpoint map leaves the identity map alone.
pub other_update :
    (key value : Bytes) (m : MapManager)
    → lookup identity_map_name (update_map_entry endpoint_map_name key value m).0.storage
      ≡ lookup identity_map_name m.storage
unfolding update_map_entry bytes_beq
other_update key value m = elim (Option-cases (lookup endpoint_map_name m.storage)) [
  | inl e ↦ rw (e, update_map_entry) refl
  | inr (s, e) ↦
      rw (e, update_map_entry)
        (lookup-insert endpoint_map_name identity_map_name (insert (encode_to_string key) value s)
          m.storage)
]

pub other_delete :
    (key : Bytes) (m : MapManager)
    → lookup identity_map_name (delete_map_entry endpoint_map_name key m).0.storage
      ≡ lookup identity_map_name m.storage
unfolding delete_map_entry bytes_beq
other_delete key m = elim (Option-cases (lookup endpoint_map_name m.storage)) [
  | inl e ↦ rw (e, delete_map_entry) refl
  | inr (s, e) ↦
      rw (e, delete_map_entry)
        (lookup-insert endpoint_map_name identity_map_name (delete (encode_to_string key) s)
          m.storage)
]

pub own_update :
    (key value : Bytes) (s : GoMap Bytes Bytes) (m : MapManager)
    → lookup identity_map_name m.storage ≡ some s
    → lookup identity_map_name (update_map_entry identity_map_name key value m).0.storage
      ≡ some (insert (encode_to_string key) value s)
unfolding update_map_entry
own_update key value s m e =
    rw (e, update_map_entry) (lookup-insert_self identity_map_name _ m.storage)

pub own_delete :
    (key : Bytes) (s : GoMap Bytes Bytes) (m : MapManager)
    → lookup identity_map_name m.storage ≡ some s
    → lookup identity_map_name (delete_map_entry identity_map_name key m).0.storage
      ≡ some (delete (encode_to_string key) s)
unfolding delete_map_entry
own_delete key s m e = rw (e, delete_map_entry) (lookup-insert_self identity_map_name _ m.storage)
