-- ===== src/Dataplane/Interface.antt =====
-- The interface DataPlane of pkg/dataplane/loader.go, as a record of operations on an unknown state,
-- and its two implementations. An error is its text, `none` is nil.
use coordino.Base.{ℕ, Bool, Option, none, some, Bytes, bytes, ◌++◌}
use coordino.Base.Decimal.{ℤ}
use coordino.Net.{Ip}
use coordino.Dataplane.Maps.{Error}
use coordino.Dataplane.Loader.{LoaderConfig, EbpfDataPlane, LoaderError}
use coordino.Dataplane.Loader
use coordino.Dataplane.Iptables.{IptablesDataPlane}
use coordino.Dataplane.Iptables

pub record DataPlane : Type 1 where
  pub State : Type 0
  pub init : LoaderConfig → State → State × Option Bytes
  pub load_programs : State → State × Option Bytes
  pub attach_to_existing_maps : State → State × Option Bytes
  pub attach_to_interface : Bytes → State → State × Option Bytes
  pub detach_from_interface : Bytes → State → State × Option Bytes
  pub add_pod_endpoint : ℕ → Ip → ℕ → ℤ → State → State × Option Bytes
  pub remove_pod_endpoint : Ip → State → State × Option Bytes
  pub close : State → State × Option Bytes
  pub is_healthy : State → Bool

-- `nil` for the error, whatever the call did.
abbrev always {ℓ} : {S : Type ℓ} → S → S × Option Bytes
always s = (s, none)

abbrev pub loader_error : Option LoaderError → Option Bytes
loader_error none = none
loader_error (some LoaderError.only_ipv4) = some (bytes "only IPv4 supported")
loader_error (some (LoaderError.of_map (Error.map_not_found name))) =
    some (bytes "map " ++ name ++ bytes " not found")
loader_error (some (LoaderError.of_map (Error.key_not_found name))) =
    some (bytes "key not found in map " ++ name)

abbrev with_error {ℓ} : {S : Type ℓ} → S × Option LoaderError → S × Option Bytes
with_error r = (r.0, loader_error r.1)

module _ (ip_string : Ip → Bytes) where
  -- RecoverMaps is a stub, so AttachToExistingMaps changes nothing.
  abbrev pub ebpf_data_plane : DataPlane
  ebpf_data_plane = record {
    State = EbpfDataPlane;
    init = λ config e. always (Loader.init config e);
    load_programs = λ e. always (Loader.load_programs e);
    attach_to_existing_maps = always;
    attach_to_interface = λ name e. always (Loader.attach_to_interface name e);
    detach_from_interface = λ name e. always (Loader.detach_from_interface name e);
    add_pod_endpoint =
        λ now ip id if_index e. with_error (Loader.add_pod_endpoint ip_string now ip id if_index e);
    remove_pod_endpoint = λ ip e. with_error (Loader.remove_pod_endpoint ip_string ip e);
    close = λ e. always (Loader.close e);
    is_healthy = Loader.is_healthy;
  }

  abbrev pub iptables_data_plane : DataPlane
  iptables_data_plane = record {
    State = IptablesDataPlane;
    init = λ config i. always (Iptables.init config i);
    load_programs = λ i. always (Iptables.load_programs i);
    attach_to_existing_maps = always;
    attach_to_interface = λ name. always;
    detach_from_interface = λ name. always;
    add_pod_endpoint =
        λ now ip id if_index i. always (Iptables.add_pod_endpoint ip_string now ip id if_index i);
    remove_pod_endpoint = λ ip i. always (Iptables.remove_pod_endpoint ip_string ip i);
    close = λ i. always (Iptables.close i);
    is_healthy = Iptables.is_healthy;
  }
