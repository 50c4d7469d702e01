-- ===== src/Agent/Startup.antt =====
-- NewNodeAgent, Start and Stop of NodeAgent (cmd/node-agent/main.go). An error of Start is its text. The
-- server, the HTTP endpoints and the loop's goroutine are left out, but for the server's error.
use coordino.Base.{
  ℕ, Bool, true, false, not, Option, none, some, [], ◌∷◌, ◌++◌, Bytes, bytes, bytes_eq, Result, ok,
  err, if◌then◌else◌, ◌==◌,
}
use coordino.Net.{Ip}
use coordino.Ipam.Node.{NodeAllocator, Error, new_node_allocator, allocate}
use coordino.Ipam.Checkpoint.{load, restore}
use coordino.Policy.Identity.{new_identity_allocator}
use coordino.Policy.Compiler.{new_compiler}
use coordino.Policy.Store.{new_policy_store}
use coordino.Dataplane.Loader.{LoaderConfig, new_ebpf_data_plane}
use coordino.Dataplane.Iptables.{new_iptables_data_plane}
use coordino.Dataplane.Interface.{DataPlane, ebpf_data_plane, iptables_data_plane}
use coordino.Routing.{Mode, NodeInfo}
use coordino.Routing
use coordino.Routing.Bgp
use coordino.Routing.Vxlan
use coordino.Routing.Select.{RoutingBackend, new_routing_backend}
use coordino.Agent.{Environment, NodeAgent, with_dp}
use coordino.Agent.Reconcile.{save_checkpoint}

-- The data plane that DetectKernelSupport's answer chooses, and its first state.
abbrev pub data_plane_for : (Ip → Bytes) → Bool → DataPlane
data_plane_for ip_string true = ebpf_data_plane ip_string
data_plane_for ip_string false = iptables_data_plane ip_string

unfoldable pub new_data_plane :
    (ip_string : Ip → Bytes) (supported : Bool)
    → LoaderConfig
    → (data_plane_for ip_string supported).State
new_data_plane ip_string true config = new_ebpf_data_plane config
new_data_plane ip_string false config = new_iptables_data_plane config

-- `routing.Mode(routingMode)`
abbrev pub mode_of : Bytes → Mode
mode_of name =
    if name == bytes "bgp"
    then Mode.bgp
    else if name == bytes "vxlan"
    then Mode.vxlan
    else Mode.other name

-- Why NewNodeAgent stops; the allocator's `make_panics` is a panic.
pub data StartupError : Type 0 where
  of_allocator : Error → StartupError
  of_routing : Routing.Error → StartupError

-- The command's flags.
pub record Flags : Type 0 where
  pub node_name : Bytes
  pub node_ip : Bytes
  pub pod_cidr : Bytes
  pub bpf_mount_path : Bytes
  pub checkpoint_path : Bytes
  pub routing_mode : Bytes

abbrev init_routing : NodeInfo → RoutingBackend → RoutingBackend
init_routing node (RoutingBackend.over_bgp b) = RoutingBackend.over_bgp (Bgp.init node b)
init_routing node (RoutingBackend.over_vxlan b) = RoutingBackend.over_vxlan (Vxlan.init node b)

abbrev close_routing : RoutingBackend → RoutingBackend
close_routing (RoutingBackend.over_bgp b) = RoutingBackend.over_bgp (Bgp.close b)
close_routing (RoutingBackend.over_vxlan b) = RoutingBackend.over_vxlan (Vxlan.close b)

module _ (E : Environment) where
  -- The allocator after the checkpoint, if there is one that loads; an error of Restore is dropped.
  unfoldable pub restored_allocator : ℕ → Bytes → E.files.State → NodeAllocator → NodeAllocator
  restored_allocator now path files a =
      if not (E.files.exists files path) then a else elim (load E.files E.codec path files) [
        | err e ↦ a
        | ok checkpoint ↦ (restore E.ip_string E.cidr_string now checkpoint.records a).allocator
      ]

  -- The gateway's address is reserved last.
  unfoldable pub first_allocator : ℕ → Bytes → E.files.State → NodeAllocator → NodeAllocator
  first_allocator now path files a =
      (allocate (restored_allocator now path files a) (bytes "gateway") (bytes "kube-system") now).0

  unfoldable pub new_node_agent :
      ℕ
      → Flags
      → E.data_plane.State
      → E.netlink.State
      → E.files.State
      → Result StartupError (NodeAgent E)
  new_node_agent now flags dp netns files =
      elim (new_node_allocator (E.parse_cidr flags.pod_cidr)) [
        | err e ↦ err (StartupError.of_allocator e)
        | ok allocator ↦
            elim (new_routing_backend (mode_of flags.routing_mode)
              ((bytes "node-ip", flags.node_ip) ∷ [])) [
                | err e ↦ err (StartupError.of_routing e)
                | ok backend ↦ ok (record {
                  node_name = flags.node_name;
                  node_ip = flags.node_ip;
                  pod_cidr = flags.pod_cidr;
                  bpf_mount_path = flags.bpf_mount_path;
                  checkpoint_path = flags.checkpoint_path;
                  allocator = first_allocator now flags.checkpoint_path files allocator;
                  dp = dp;
                  netns = netns;
                  files = files;
                  identity_allocator = new_identity_allocator;
                  policy_store = new_policy_store (new_compiler new_identity_allocator) none;
                  routing_backend = backend;
                  pod_endpoints = [];
                })
              ]
      ]

  abbrev failing :
      Bytes
      → Option Bytes
      → NodeAgent E
      → (NodeAgent E → NodeAgent E × Option Bytes)
      → NodeAgent E × Option Bytes
  failing text none a next = next a
  failing text (some e) a next = (a, some (text ++ e))

  abbrev local_node : NodeAgent E → NodeInfo
  local_node a = record {
    name = a.node_name;
    pod_cidr = a.pod_cidr;
    node_ip = a.node_ip;
    public_ip = [];
  }

  -- The backends' Init returns no error. `server` is the error of the server's Start.
  unfoldable pub start : Option Bytes → NodeAgent E → NodeAgent E × Option Bytes
  start server a =
      let config : LoaderConfig = record {
        bpf_mount_path = a.bpf_mount_path;
        program_dir = [];
        pin_path = [];
      } in
      let r = E.data_plane.init config a.dp in
      failing (bytes "failed to init data plane: ") r.1 (with_dp E r.0 a) (λ b.
        let q = E.data_plane.load_programs b.dp in
        failing (bytes "failed to load eBPF programs: ") q.1 (with_dp E q.0 b) (λ c.
          let d = with_dp E (E.data_plane.attach_to_existing_maps c.dp).0 c in
          let routed : NodeAgent E = record d {
            routing_backend = init_routing (local_node d) d.routing_backend;
          } in
          failing (bytes "failed to start gRPC server: ") server routed (λ e. (e, none))))

  unfoldable pub stop : ℕ → NodeAgent E → NodeAgent E
  stop now a =
      let b = save_checkpoint E now a in
      let c : NodeAgent E = record b { routing_backend = close_routing b.routing_backend } in
      with_dp E (E.data_plane.close c.dp).0 c
