-- ===== src/Dataplane/Loader.antt =====
-- EBPFDataPlane of pkg/dataplane/loader.go. `ip_string` is `net.IP.String`; `now` is the clock's
-- reading. The errors of the map manager that the code drops are dropped here.
pub mod Mirror
pub mod Runs
use coordino.Base.{
  ℕ, zero, suc, ◌/◌, ◌%◌, ◌^◌, Bytes, bytes, bytes_eq, nat_eq, Bool, true, false, Option, none,
  some, List, [], ◌∷◌, ◌++◌, replicate, if◌then◌else◌, ◌==◌,
}
use coordino.Base.GoMap.{GoMap, lookup, insert, delete}
use coordino.Base.Decimal.{ℤ, pos, negsuc}
use coordino.Net.{Ip, to4, big_endian, sub32, u32_mod}
use coordino.Dataplane.Maps.{
  Error, MapManager, new_map_manager, default_maps, PinnedMap, ensure_map, update_map_entry,
  delete_map_entry,
}

pub record LoaderConfig : Type 0 where
  pub bpf_mount_path : Bytes
  pub program_dir : Bytes
  pub pin_path : Bytes

pub record EndpointEntry : Type 0 where
  pub pod_ip : Ip
  pub identity_id : ℕ
  pub if_index : ℤ
  pub mac : Bytes
  pub created_at : ℕ

pub record EbpfDataPlane : Type 0 where
  pub config : LoaderConfig
  pub loaded : Bool
  pub attached_interfaces : GoMap Bytes Bool
  pub endpoints : GoMap Bytes EndpointEntry
  pub identity_map : GoMap ℕ ℕ
  pub policy_entries : GoMap Bytes Bool
  pub program_fds : GoMap Bytes ℕ
  pub map_manager : MapManager

pub data LoaderError : Type 0 where
  only_ipv4 : LoaderError
  of_map : Error → LoaderError

unfoldable pub new_ebpf_data_plane : LoaderConfig → EbpfDataPlane
new_ebpf_data_plane config = record {
  config = config;
  loaded = false;
  attached_interfaces = [];
  endpoints = [];
  identity_map = [];
  policy_entries = [];
  program_fds = [];
  map_manager = new_map_manager config.pin_path;
}

unfoldable pub init : LoaderConfig → EbpfDataPlane → EbpfDataPlane
init config e = record e {
  config = record config {
    bpf_mount_path =
        if config.bpf_mount_path == [] then bytes "/sys/fs/bpf" else config.bpf_mount_path;
  };
}

unfoldable pub ensure_maps : List PinnedMap → MapManager → MapManager
ensure_maps [] m = m
ensure_maps (pm ∷ pms) m = ensure_maps pms (ensure_map pm m)

unfoldable pub load_programs : EbpfDataPlane → EbpfDataPlane
load_programs e = record e {
  loaded = true;
  program_fds =
      insert (bytes "cni_tc_egress") 101 (insert (bytes "cni_tc_ingress") 100 e.program_fds);
  map_manager = ensure_maps default_maps e.map_manager;
}

unfoldable pub attach_to_interface : Bytes → EbpfDataPlane → EbpfDataPlane
attach_to_interface name e = record e {
  attached_interfaces = insert name true e.attached_interfaces;
}

unfoldable pub detach_from_interface : Bytes → EbpfDataPlane → EbpfDataPlane
detach_from_interface name e = record e { attached_interfaces = delete name e.attached_interfaces }

-- `binary.LittleEndian.PutUint32`
abbrev pub little_endian : ℕ → Bytes
little_endian v = v % 256 ∷ v / 2 ^ 8 % 256 ∷ v / 2 ^ 16 % 256 ∷ v / 2 ^ 24 % 256 ∷ []

-- `uint32(i)`
abbrev pub to_uint32 : ℤ → ℕ
to_uint32 (pos n) = n % u32_mod
to_uint32 (negsuc n) = sub32 0 (suc n % u32_mod)

abbrev pub identity_map_name : Bytes
identity_map_name = bytes "identity_map"

abbrev pub endpoint_map_name : Bytes
endpoint_map_name = bytes "endpoint_map"

abbrev endpoint_info : ℕ → ℤ → Bytes
endpoint_info id if_index = little_endian (to_uint32 if_index) ++ little_endian id ++ replicate 8 0

module _ (ip_string : Ip → Bytes) where
  unfoldable pub add_pod_endpoint :
      ℕ → Ip → ℕ → ℤ → EbpfDataPlane → EbpfDataPlane × Option LoaderError
  add_pod_endpoint now pod_ip id if_index e = elim (to4 pod_ip) [
    | none ↦ (e, some LoaderError.only_ipv4)
    | some ip ↦
        let entry : EndpointEntry = record {
          pod_ip = pod_ip;
          identity_id = id;
          if_index = if_index;
          mac = [];
          created_at = now;
        } in
        let m = (update_map_entry identity_map_name ip (little_endian id) e.map_manager).0 in
        (
          record e {
            endpoints = insert (ip_string pod_ip) entry e.endpoints;
            identity_map = insert (big_endian ip) id e.identity_map;
            map_manager = (update_map_entry endpoint_map_name ip (endpoint_info id if_index) m).0;
          },
          none,
        )
  ]

  unfoldable pub remove_pod_endpoint : Ip → EbpfDataPlane → EbpfDataPlane × Option LoaderError
  remove_pod_endpoint pod_ip e = elim (to4 pod_ip) [
    | none ↦ (e, some LoaderError.only_ipv4)
    | some ip ↦
        let m = (delete_map_entry identity_map_name ip e.map_manager).0 in
        (
          record e {
            endpoints = delete (ip_string pod_ip) e.endpoints;
            identity_map = delete (big_endian ip) e.identity_map;
            map_manager = (delete_map_entry endpoint_map_name ip m).0;
          },
          none,
        )
  ]

  abbrev reidentify :
      ℕ → Bytes → Option EndpointEntry → GoMap Bytes EndpointEntry → GoMap Bytes EndpointEntry
  reidentify id key none endpoints = endpoints
  reidentify id key (some entry) endpoints =
      insert key (record entry { identity_id = id }) endpoints

  abbrev of_map_error : Option Error → Option LoaderError
  of_map_error none = none
  of_map_error (some x) = some (LoaderError.of_map x)

  unfoldable pub update_identity : Ip → ℕ → EbpfDataPlane → EbpfDataPlane × Option LoaderError
  update_identity pod_ip id e = elim (to4 pod_ip) [
    | none ↦ (e, some LoaderError.only_ipv4)
    | some ip ↦
        let key = ip_string pod_ip in
        let (m, r) = update_map_entry identity_map_name ip (little_endian id) e.map_manager in
        (
          record e {
            endpoints = reidentify id key (lookup key e.endpoints) e.endpoints;
            identity_map = insert (big_endian ip) id e.identity_map;
            map_manager = m;
          },
          of_map_error r,
        )
  ]

unfoldable pub close : EbpfDataPlane → EbpfDataPlane
close e = record e { attached_interfaces = []; loaded = false }

unfoldable pub is_healthy : EbpfDataPlane → Bool
is_healthy e = e.loaded

unfoldable pub get_endpoints : EbpfDataPlane → GoMap Bytes EndpointEntry
get_endpoints e = e.endpoints

unfoldable pub get_identity_map : EbpfDataPlane → GoMap ℕ ℕ
get_identity_map e = e.identity_map
