-- ===== src/Dataplane/Loader/Runs.antt =====
-- The methods of EBPFDataPlane in pkg/dataplane/loader.go, called in any order.
use coordino.Base.{
  ℕ, ◌≡◌, refl, ◌∙◌, inl, inr, Bytes, bytes_eq, bytes_beq, nat_eq, Option, none, some, List, [],
  ◌∷◌, Option-cases, Result, ok, err,
}
use coordino.Base.GoMap.{GoMap, lookup, insert, delete}
use coordino.Base.Decimal.{ℤ}
use coordino.Base.Hex.{encode_to_string}
use coordino.Net.{Ip, to4, big_endian}
use coordino.Dataplane.Maps.{
  Error, MapManager, lookup_map_entry, default_maps, new_map_manager, ensure_map,
}
use coordino.Dataplane.Loader.{
  LoaderConfig, EbpfDataPlane, new_ebpf_data_plane, init, load_programs, ensure_maps,
  attach_to_interface, detach_from_interface, add_pod_endpoint, remove_pod_endpoint,
  update_identity, close, little_endian, identity_map_name,
}
use coordino.Dataplane.Loader.Mirror.{
  IsV4, IsMirrored, stored, insert-Mirrors, delete-Mirrors, other_update, other_delete, own_update,
  own_delete,
}

-- One call of a method that changes the data plane.
pub data Call : Type 0 where
  adds : ℕ → Ip → ℕ → ℤ → Call
  removes : Ip → Call
  updates : Ip → ℕ → Call
  attaches : Bytes → Call
  detaches : Bytes → Call
  inits : LoaderConfig → Call
  closes : Call

-- The IPv4 form of an address is made of bytes.
abbrev pub IsByteIp : Ip → Type 0
IsByteIp ip = (b : Bytes) → to4 ip ≡ some b → IsV4 b

abbrev pub IsByteCall : Call → Type 0
IsByteCall (Call.adds now ip id i) = IsByteIp ip
IsByteCall (Call.removes ip) = IsByteIp ip
IsByteCall (Call.updates ip id) = IsByteIp ip
IsByteCall (Call.attaches name) = Unit {0}
IsByteCall (Call.detaches name) = Unit {0}
IsByteCall (Call.inits config) = Unit {0}
IsByteCall Call.closes = Unit {0}

abbrev pub AreByteCalls : List Call → Type 0
AreByteCalls [] = Unit {0}
AreByteCalls (c ∷ cs) = IsByteCall c × AreByteCalls cs

module _ (ip_string : Ip → Bytes) where
  abbrev pub step : Call → EbpfDataPlane → EbpfDataPlane
  step (Call.adds now ip id i) e = (add_pod_endpoint ip_string now ip id i e).0
  step (Call.removes ip) e = (remove_pod_endpoint ip_string ip e).0
  step (Call.updates ip id) e = (update_identity ip_string ip id e).0
  step (Call.attaches name) e = attach_to_interface name e
  step (Call.detaches name) e = detach_from_interface name e
  step (Call.inits config) e = init config e
  step Call.closes e = close e

  abbrev pub run : List Call → EbpfDataPlane → EbpfDataPlane
  run [] e = e
  run (c ∷ cs) e = run cs (step c e)

  add_pod_endpoint-IsMirrored :
      (now : ℕ) (ip : Ip) (id : ℕ) (i : ℤ) (e : EbpfDataPlane)
      → IsByteIp ip
      → IsMirrored e
      → IsMirrored (add_pod_endpoint ip_string now ip id i e).0
  unfolding add_pod_endpoint
  add_pod_endpoint-IsMirrored now ip id i e p (s, at, m) = elim (Option-cases (to4 ip)) [
    | inl none_e ↦ rw (none_e, add_pod_endpoint) (s, at, m)
    | inr (b, some_e) ↦
        rw (some_e, add_pod_endpoint)
          (
            insert (encode_to_string b) (little_endian id) s,
            other_update b _ _ ∙ own_update b (little_endian id) s e.map_manager at,
            insert-Mirrors b id s e.identity_map (p b some_e) m,
          )
  ]

  remove_pod_endpoint-IsMirrored :
      (ip : Ip) (e : EbpfDataPlane)
      → IsByteIp ip
      → IsMirrored e
      → IsMirrored (remove_pod_endpoint ip_string ip e).0
  unfolding remove_pod_endpoint
  remove_pod_endpoint-IsMirrored ip e p (s, at, m) = elim (Option-cases (to4 ip)) [
    | inl none_e ↦ rw (none_e, remove_pod_endpoint) (s, at, m)
    | inr (b, some_e) ↦
        rw (some_e, remove_pod_endpoint)
          (
            delete (encode_to_string b) s,
            other_delete b _ ∙ own_delete b s e.map_manager at,
            delete-Mirrors b s e.identity_map (p b some_e) m,
          )
  ]

  update_identity-IsMirrored :
      (ip : Ip) (id : ℕ) (e : EbpfDataPlane)
      → IsByteIp ip
      → IsMirrored e
      → IsMirrored (update_identity ip_string ip id e).0
  unfolding update_identity
  update_identity-IsMirrored ip id e p (s, at, m) = elim (Option-cases (to4 ip)) [
    | inl none_e ↦ rw (none_e, update_identity) (s, at, m)
    | inr (b, some_e) ↦
        rw (some_e, update_identity)
          (
            insert (encode_to_string b) (little_endian id) s,
            own_update b (little_endian id) s e.map_manager at,
            insert-Mirrors b id s e.identity_map (p b some_e) m,
          )
  ]

  step-IsMirrored :
      (c : Call) (e : EbpfDataPlane) → IsByteCall c → IsMirrored e → IsMirrored (step c e)
  unfolding attach_to_interface detach_from_interface init close
  step-IsMirrored (Call.adds now ip id i) e p v = add_pod_endpoint-IsMirrored now ip id i e p v
  step-IsMirrored (Call.removes ip) e p v = remove_pod_endpoint-IsMirrored ip e p v
  step-IsMirrored (Call.updates ip id) e p v = update_identity-IsMirrored ip id e p v
  step-IsMirrored (Call.attaches name) e p v = v
  step-IsMirrored (Call.detaches name) e p v = v
  step-IsMirrored (Call.inits config) e p v = v
  step-IsMirrored Call.closes e p v = v

  run_from-IsMirrored :
      (cs : List Call) (e : EbpfDataPlane) → AreByteCalls cs → IsMirrored e → IsMirrored (run cs e)
  run_from-IsMirrored [] e p v = v
  run_from-IsMirrored (c ∷ cs) e p v =
      run_from-IsMirrored cs (step c e) p.1 (step-IsMirrored c e p.0 v)

  loaded-IsMirrored :
      (config : LoaderConfig) → IsMirrored (load_programs (new_ebpf_data_plane config))
  unfolding load_programs new_ebpf_data_plane ensure_maps ensure_map default_maps new_map_manager
      lookup insert bytes_beq
  loaded-IsMirrored config = ([], refl, λ ip v. refl)

  -- What a lookup in the kernel's identity map returns for an identity.
  abbrev pub answer : Option ℕ → Result Error Bytes
  answer none = err (Error.key_not_found identity_map_name)
  answer (some id) = ok (little_endian id)

  answered :
      (m : MapManager) (s : GoMap Bytes Bytes) (ip : Bytes) (o : Option ℕ)
      → lookup identity_map_name m.storage ≡ some s
      → lookup (encode_to_string ip) s ≡ stored o
      → lookup_map_entry identity_map_name ip m ≡ answer o
  unfolding lookup_map_entry
  answered m s ip none at e = rw (at, lookup_map_entry, e) refl
  answered m s ip (some id) at e = rw (at, lookup_map_entry, e) refl

  -- After LoadPrograms on a new data plane, and then any calls of its other methods with addresses
  -- made of bytes, a lookup of an IPv4 address in the pinned identity map answers exactly what the
  -- data plane's own identity map holds for it: the identity in little-endian bytes, or that the key
  -- is not found.
  pub run-lookup_map_entry :
      (config : LoaderConfig) (cs : List Call) (ip : Bytes)
      → AreByteCalls cs
      → IsV4 ip
      → (let e = run cs (load_programs (new_ebpf_data_plane config)) in
          lookup_map_entry identity_map_name ip e.map_manager
          ≡ answer (lookup (big_endian ip) e.identity_map))
  run-lookup_map_entry config cs ip p q =
      let start = load_programs (new_ebpf_data_plane config) in
      let (s, at, m) = run_from-IsMirrored cs start p (loaded-IsMirrored config) in
      answered _ s ip _ at (m ip q)
