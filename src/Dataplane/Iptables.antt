-- ===== src/Dataplane/Iptables.antt =====
-- IptablesDataPlane of pkg/dataplane/loader.go, and DetectKernelSupport, which chooses it.
use coordino.Base.{
  ℕ, Bool, true, false, ◌||◌, none, some, List, [], ◌∷◌, ◌++◌, Bytes, bytes, bytes_eq, nat_beq,
  if◌then◌else◌, Result, ok, err,
}
use coordino.Base.GoMap.{GoMap, lookup, insert, delete}
use coordino.Base.Decimal.{ℤ, pos}
use coordino.Net.{Ip}
use coordino.Dataplane.Loader.{LoaderConfig, EndpointEntry}

pub record IptablesRule : Type 0 where
  pub chain : Bytes
  pub rule : Bytes
  pub position : ℤ

pub record IptablesDataPlane : Type 0 where
  pub config : LoaderConfig
  pub chains : GoMap Bytes (List IptablesRule)
  pub endpoints : GoMap Bytes EndpointEntry
  pub running : Bool

abbrev pub forward_chain : Bytes
forward_chain = bytes "COORDINO-FORWARD"

unfoldable pub new_iptables_data_plane : LoaderConfig → IptablesDataPlane
new_iptables_data_plane config = record {
  config = config;
  chains = [];
  endpoints = [];
  running = false;
}

unfoldable pub init : LoaderConfig → IptablesDataPlane → IptablesDataPlane
init config i = record i { config = config }

unfoldable pub load_programs : IptablesDataPlane → IptablesDataPlane
load_programs i = record i { running = true; chains = insert forward_chain [] i.chains }

-- A missing key of a map of slices reads as nil.
abbrev pub rules_in : Bytes → GoMap Bytes (List IptablesRule) → List IptablesRule
rules_in chain chains = elim (lookup chain chains) [ none ↦ [] | some rules ↦ rules ]

module _ (ip_string : Ip → Bytes) where
  abbrev pub accept_rule : Ip → IptablesRule
  accept_rule pod_ip = record {
    chain = forward_chain;
    rule = bytes "-s " ++ ip_string pod_ip ++ bytes " -j ACCEPT";
    position = pos 0;
  }

  unfoldable pub add_pod_endpoint : ℕ → Ip → ℕ → ℤ → IptablesDataPlane → IptablesDataPlane
  add_pod_endpoint now pod_ip id if_index i =
      let entry : EndpointEntry = record {
        pod_ip = pod_ip;
        identity_id = id;
        if_index = if_index;
        mac = [];
        created_at = now;
      } in
      record i {
        endpoints = insert (ip_string pod_ip) entry i.endpoints;
        chains =
            insert forward_chain (rules_in forward_chain i.chains ++ (accept_rule pod_ip ∷ []))
              i.chains;
      }

  unfoldable pub remove_pod_endpoint : Ip → IptablesDataPlane → IptablesDataPlane
  remove_pod_endpoint pod_ip i = record i { endpoints = delete (ip_string pod_ip) i.endpoints }

unfoldable pub close : IptablesDataPlane → IptablesDataPlane
close i = record i { running = false }

unfoldable pub is_healthy : IptablesDataPlane → Bool
is_healthy i = i.running

-- `strings.HasPrefix`
abbrev pub has_prefix : Bytes → Bytes → Bool
has_prefix s [] = true
has_prefix [] (p ∷ ps) = false
has_prefix (b ∷ bs) (p ∷ ps) = if nat_beq b p then has_prefix bs ps else false

-- `strings.Contains`
abbrev pub contains : Bytes → Bytes → Bool
contains [] part = has_prefix [] part
contains (b ∷ bs) part = has_prefix (b ∷ bs) part || contains bs part

-- What the kernel shows: whether /sys/fs/bpf and the BTF file exist, and what /proc/version reads.
unfoldable pub detect_kernel_support : Bool → Result Bytes Bytes → Bool → Bool × Bytes
detect_kernel_support false version btf = (false, bytes "BPF filesystem not mounted at /sys/fs/bpf")
detect_kernel_support true (err e) btf = (false, bytes "Could not read /proc/version")
detect_kernel_support true (ok version) btf =
    if contains version (bytes "Linux")
    then (if btf then (true, []) else (false, bytes "BTF not supported by kernel"))
    else (false, bytes "Not a Linux kernel")
