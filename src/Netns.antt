-- ===== src/Netns.antt =====
-- LinuxNetnsManager of pkg/netns/netns.go, over any implementation of NetlinkOperator
-- (pkg/netns/netlink.go). An error is its text, and `none` is nil. `sha256` is `sha256.Sum256`.
pub mod Simulated
pub mod Paired
pub mod Cleanup
use coordino.Base.{
  nat_beq, ◌≡◌, ◌++◌, Bool, true, false, not, Option, none, some, List, [], ◌∷◌, Bytes, bytes,
  bytes_eq, Result, ok, err, if◌then◌else◌, ◌==◌,
}
use coordino.Base.Decimal.{ℤ, pos, negsuc}
use coordino.Base.Hex.{encode_to_string}
use coordino.Net.{take}

pub record VethPair : Type 0 where
  pub host_name : Bytes
  pub pod_name : Bytes
  pub host_mac : Bytes
  pub pod_mac : Bytes

pub record NetnsConfig : Type 0 where
  pub container_id : Bytes
  pub netns : Bytes
  pub if_name : Bytes
  pub ip : Bytes
  pub gateway : Bytes
  pub mtu : ℤ

pub record NetlinkOperator : Type 1 where
  pub State : Type 0
  pub create_veth_pair : State → Bytes → Bytes → State × Option Bytes
  pub set_interface_up : State → Bytes → State × Option Bytes
  pub move_to_netns : State → Bytes → Bytes → State × Option Bytes
  pub add_address : State → Bytes → Bytes → State × Option Bytes
  pub add_route : State → Bytes → Bytes → Bytes → State × Option Bytes
  pub set_mtu : State → Bytes → ℤ → State × Option Bytes
  pub delete_link : State → Bytes → State × Option Bytes
  pub link_exists : State → Bytes → Bool
  pub get_mac : State → Bytes → Result Bytes Bytes

-- RealNetlinkOperator, whose methods are stubs.
abbrev pub real_netlink_operator : NetlinkOperator
real_netlink_operator = record {
  State = Unit {0};
  create_veth_pair = λ s host pod. (s, none);
  set_interface_up = λ s name. (s, none);
  move_to_netns = λ s name path. (s, none);
  add_address = λ s name addr. (s, none);
  add_route = λ s name dst gw. (s, none);
  set_mtu = λ s name mtu. (s, none);
  delete_link = λ s name. (s, none);
  link_exists = λ s name. false;
  get_mac = λ s name. ok (bytes "00:00:00:00:00:00");
}

abbrev pub host_if_prefix : Bytes
host_if_prefix = bytes "veth"

unfoldable pub generate_host_veth_name : (Bytes → Bytes) → Bytes → Bytes
generate_host_veth_name sha256 container_id =
    host_if_prefix ++ encode_to_string (take 4 (sha256 container_id))

abbrev pub is_positive : ℤ → Bool
is_positive (pos n) = not (nat_beq n 0)
is_positive (negsuc n) = false

-- `if err := call; err != nil { return nil, fmt.Errorf(text + ": %v", err) }`, and then the rest.
unfoldable pub check {ℓ} :
    {S : Type 0} {A : Type ℓ}
    → S × Option Bytes
    → Bytes
    → (S → S × Result Bytes A)
    → S × Result Bytes A
check (s, none) text next = next s
check (s, some e) text next = (s, err (text ++ e))

unfoldable pub veth_pair :
    Bytes → Bytes → Result Bytes Bytes → Result Bytes Bytes → Result Bytes VethPair
veth_pair host pod (err e) r = err (bytes "failed to get host MAC: " ++ e)
veth_pair host pod (ok host_mac) (err e) = err (bytes "failed to get pod MAC: " ++ e)
veth_pair host pod (ok host_mac) (ok pod_mac) =
    ok (record { host_name = host; pod_name = pod; host_mac = host_mac; pod_mac = pod_mac })

module _ (N : NetlinkOperator) where
  -- The route of step 5 of SetupPodNetwork, if there is a gateway.
  unfoldable pub add_default_route :
      NetnsConfig
      → (N.State → N.State × Result Bytes VethPair)
      → N.State
      → N.State × Result Bytes VethPair
  add_default_route config next s =
      if config.gateway == []
      then next s
      else check (N.add_route s config.if_name (bytes "0.0.0.0/0") config.gateway)
          (bytes "failed to add default route: ") next

  -- Step 6, if there is an MTU.
  unfoldable pub set_mtus :
      Bytes
      → NetnsConfig
      → (N.State → N.State × Result Bytes VethPair)
      → N.State
      → N.State × Result Bytes VethPair
  set_mtus host config next s =
      if is_positive config.mtu
      then check (N.set_mtu s host config.mtu) (bytes "failed to set MTU on host interface: ") (λ t.
        check (N.set_mtu t config.if_name config.mtu) (bytes "failed to set MTU on pod interface: ")
          next)
      else next s

  -- The two calls of GetMAC, which change nothing, and the result.
  unfoldable pub read_macs : Bytes → NetnsConfig → N.State → N.State × Result Bytes VethPair
  read_macs host config s =
      (s, veth_pair host config.if_name (N.get_mac s host) (N.get_mac s config.if_name))

  -- SetupPodNetwork from step 2 on.
  unfoldable pub setup_steps : Bytes → NetnsConfig → N.State → N.State × Result Bytes VethPair
  setup_steps host config s =
      check (N.move_to_netns s config.if_name config.netns)
        (bytes "failed to move interface "
          ++ config.if_name
          ++ bytes " to netns "
          ++ config.netns
          ++ bytes ": ")
        (λ s2.
          check (N.add_address s2 config.if_name config.ip)
            (bytes "failed to add address to " ++ config.if_name ++ bytes ": ")
            (λ s3.
              check (N.set_interface_up s3 host)
                (bytes "failed to set host interface " ++ host ++ bytes " up: ")
                (λ s4.
                  check (N.set_interface_up s4 config.if_name)
                    (bytes "failed to set pod interface " ++ config.if_name ++ bytes " up: ")
                    (add_default_route config (set_mtus host config (read_macs host config))))))

  -- The deferred function: the host's link is deleted unless `success` was set.
  unfoldable pub undo_unless_done :
      Bytes → N.State × Result Bytes VethPair → N.State × Result Bytes VethPair
  undo_unless_done host (s, ok pair) = (s, ok pair)
  undo_unless_done host (s, err e) = ((N.delete_link s host).0, err e)

abbrev pub teardown_error : Bytes → Option Bytes → Option Bytes
teardown_error host none = none
teardown_error host (some e) = some (bytes "failed to delete host veth " ++ host ++ bytes ": " ++ e)

module _ (N : NetlinkOperator) (sha256 : Bytes → Bytes) where
  unfoldable pub setup_pod_network : NetnsConfig → N.State → N.State × Result Bytes VethPair
  setup_pod_network config s =
      let host = generate_host_veth_name sha256 config.container_id in
      check (N.create_veth_pair s host config.if_name) (bytes "failed to create veth pair: ")
        (λ t. undo_unless_done N host (setup_steps N host config t))

  unfoldable pub teardown_pod_network : NetnsConfig → N.State → N.State × Option Bytes
  teardown_pod_network config s =
      let host = generate_host_veth_name sha256 config.container_id in
      let r = N.delete_link s host in (r.0, teardown_error host r.1)

  unfoldable pub check_pod_network : NetnsConfig → N.State → Option Bytes
  check_pod_network config s =
      let host = generate_host_veth_name sha256 config.container_id in
      if not (N.link_exists s host)
      then some (bytes "host veth " ++ host ++ bytes " does not exist")
      else if not (N.link_exists s config.if_name)
      then some (bytes "pod interface " ++ config.if_name ++ bytes " does not exist")
      else none
