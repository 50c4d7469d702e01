-- ===== src/Examples/Agents.antt =====
-- Examples for cmd/node-agent/main.go: an agent with the simulated operator and the iptables data
-- plane, whose texts and digests are the bytes themselves.
use coordino.Base.{
  ◌≤◌, ◌+◌, ◌^◌, ◌≡◌, ◌≢◌, refl, arith, none, some, [], ◌∷◌, replicate, Bytes, bytes, bytes_eq,
  bytes_beq, ok, false, ◌==◌,
}
use coordino.Base.Hex.{encode_to_string}
use coordino.Base.GoMap.{lookup, insert}
use coordino.Base.Decimal.{pos}
use coordino.Net.{IpNet, ip_to_uint32, to4, uint32_to_ip}
use coordino.Ipam.Node.{
  NodeAllocator, new_node_allocator, block_size_of, allocate, assign, first_free, pod_key,
}
use coordino.Ipam.Node.Invariant.{IsValid}
use coordino.Ipam.Node.History.{new_node_allocator-IsValid}
use coordino.Ipam.Checkpoint.{Checkpoint, load, restore}
use coordino.Policy.Identity.{new_identity_allocator, allocate_identity}
use coordino.Policy.Identity.Invariant.{new_identity_allocator-IsValid}
use coordino.Policy.Compiler.{new_compiler}
use coordino.Policy.Store.{new_policy_store}
use coordino.Routing.Bgp.{new_bgp_backend}
use coordino.Routing.Select.{RoutingBackend, new_routing_backend}
use coordino.Dataplane.Iptables.{new_iptables_data_plane}
use coordino.Dataplane.Interface.{iptables_data_plane}
use coordino.Netns.{
  check, setup_steps, undo_unless_done, setup_pod_network, generate_host_veth_name,
  add_default_route, set_mtus, read_macs, veth_pair,
}
use coordino.Netns.Simulated.{
  Simulated, simulated_netlink_operator, create_veth_pair, change_link, set_interface_up,
  move_to_netns, delete_link, add_address, add_route, set_mtu, get_mac,
}
use coordino.Rpc.{AddRequest, AddResponse, DelRequest}
use coordino.Agent.{
  Environment, NodeAgent, PodEndpointInfo, handle_add, address_pod, connect_pod, program_pod,
  handle_del, next_ip, add_error,
}
use coordino.Agent.Reconcile.{reconcile_agent, gateway_key}
use coordino.Agent.Startup.{Flags, new_node_agent, restored_allocator, first_allocator}
use coordino.Agent.Handler.{info_of}
use coordino.Agent.Undo.{SamePods, handle_add_fails, handle_del-handle_add}
use coordino.Agent.Reach.{here, then, adds}
use coordino.Agent.Safety.{no_shared_pod_ip, reconcile_agent-new_node_agent}
use coordino.Examples.Files.{memory}

abbrev plain : Bytes → Bytes
plain b = b

abbrev pub net : IpNet
net = record { ip = 10 ∷ 0 ∷ 0 ∷ 0 ∷ []; ones = 29; bits = 32 }

-- A checkpoint with one pod.
abbrev checkpoint : Checkpoint
checkpoint = record {
  pod_cidr = net.ip;
  records =
      record {
        pod_name = bytes "web";
        pod_namespace = bytes "default";
        ip = 10 ∷ 0 ∷ 0 ∷ 2 ∷ [];
        allocated_at = 4;
      }
      ∷ [];
  timestamp = 4;
  version = 1;
}

abbrev pub env : Environment
env = record {
  netlink = simulated_netlink_operator;
  data_plane = iptables_data_plane plain;
  files = memory;
  codec = record { marshal = λ c. ok (bytes "{}"); unmarshal = λ content. ok checkpoint };
  digest = plain;
  sha256 = plain;
  ip_string = plain;
  cidr_string = λ n. n.ip;
  parse_cidr = λ text. some net;
  interface_index = λ name. none;
}

abbrev fresh : NodeAllocator
fresh = record {
  pod_cidr = net;
  bitmap = replicate 8 false;
  allocated = [];
  base_ip = net.ip;
  block_size = 8;
}

abbrev flags : Flags
flags = record {
  node_name = bytes "n1";
  node_ip = bytes "192.168.0.1";
  pod_cidr = bytes "10.0.0.0/29";
  bpf_mount_path = [];
  checkpoint_path = bytes "/cp";
  routing_mode = bytes "bgp";
}

-- The operator fails on one operation.
abbrev pub links : Bytes → Simulated
links fail_on = record { links = []; operations = []; fail_on = fail_on }

fresh_made : new_node_allocator (some net) ≡ ok fresh
unfolding new_node_allocator block_size_of
fresh_made = refl

fresh_fits : ip_to_uint32 net.ip + fresh.block_size ≤ 2 ^ 32
unfolding ip_to_uint32 to4
fresh_fits = omega arith

fresh-IsValid : IsValid fresh
fresh-IsValid = new_node_allocator-IsValid net fresh fresh_made fresh_fits

abbrev agent : NodeAllocator → Bytes → memory.State → NodeAgent env
agent m fail_on files = record {
  node_name = flags.node_name;
  node_ip = flags.node_ip;
  pod_cidr = flags.pod_cidr;
  bpf_mount_path = [];
  checkpoint_path = flags.checkpoint_path;
  allocator = m;
  dp = new_iptables_data_plane (record { bpf_mount_path = []; program_dir = []; pin_path = [] });
  netns = links fail_on;
  files = files;
  identity_allocator = new_identity_allocator;
  policy_store = new_policy_store (new_compiler new_identity_allocator) none;
  routing_backend = RoutingBackend.over_bgp (
      new_bgp_backend (record {
        local_asn = 0;
        router_id = [];
        peer_asn = 0;
        peer_address = [];
        hold_time = pos 0;
      }));
  pod_endpoints = [];
}

abbrev pub web : AddRequest
web = record {
  container_id = bytes "c1";
  netns = bytes "/ns";
  if_name = bytes "eth0";
  pod_name = bytes "web";
  pod_namespace = bytes "default";
  args = [];
}

abbrev pub result_of : NodeAgent env → NodeAgent env × AddResponse
result_of a = elim (handle_add env 5 web a) [ some r ↦ r | none ↦ (a, add_error []) ]

web_unknown : lookup (pod_key web.pod_name web.pod_namespace) fresh.allocated ≡ none
unfolding lookup
web_unknown = refl

abbrev bad : NodeAgent env
bad = agent fresh (bytes "MoveToNetns:eth0") []

answers : handle_add env 5 web bad ≡ some (result_of bad)
unfolding handle_add address_pod allocate_identity lookup new_identity_allocator allocate first_free
answers = refl

web_fails : (result_of bad).1.error ≢ []
unfolding handle_add address_pod connect_pod allocate_identity new_identity_allocator allocate
    first_free lookup setup_pod_network check create_veth_pair setup_steps move_to_netns change_link
    undo_unless_done delete_link generate_host_veth_name insert bytes_beq
web_fails e = ground (arith, e)

handle_add_fails_example : SamePods env bad (result_of bad).0
handle_add_fails_example =
    handle_add_fails env 5 web bad (result_of bad).0 (result_of bad).1 fresh-IsValid
      (new_identity_allocator-IsValid plain) web_unknown answers web_fails

abbrev pub good : NodeAgent env
good = agent fresh [] []

abbrev web_del : DelRequest
web_del = record {
  container_id = bytes "c1";
  netns = bytes "/ns";
  if_name = bytes "eth0";
  pod_name = bytes "web";
  pod_namespace = bytes "default";
}

good_answers : handle_add env 5 web good ≡ some (result_of good)
unfolding handle_add address_pod allocate_identity lookup new_identity_allocator allocate first_free
good_answers = refl

web_works : (result_of good).1.error ≡ []
unfolding handle_add address_pod connect_pod program_pod allocate_identity new_identity_allocator
    allocate first_free lookup setup_pod_network check create_veth_pair setup_steps move_to_netns
    change_link undo_unless_done delete_link generate_host_veth_name insert bytes_beq add_address
    set_interface_up add_default_route add_route set_mtus set_mtu read_macs get_mac veth_pair
    encode_to_string next_ip to4
web_works = refl

untracked : lookup (pod_key web.pod_name web.pod_namespace) good.pod_endpoints ≡ none
unfolding lookup
untracked = refl

handle_del-handle_add_example : SamePods env good (handle_del env web_del (result_of good).0).0
handle_del-handle_add_example =
    handle_del-handle_add env 5 web web_del good (result_of good).0 (result_of good).1 fresh-IsValid
      (new_identity_allocator-IsValid plain) web_unknown untracked refl refl good_answers web_works

-- The agent as NewNodeAgent makes it, with the gateway's address taken.
abbrev first : NodeAgent env
first = agent (first_allocator env 5 flags.checkpoint_path [] fresh) [] []

first_started : new_node_agent env 5 flags first.dp first.netns [] ≡ ok first
unfolding new_node_agent new_routing_backend new_node_allocator block_size_of bytes_beq
first_started = refl

first_answers : handle_add env 5 web first ≡ some (result_of first)
unfolding handle_add address_pod allocate_identity lookup new_identity_allocator allocate first_free
    first_allocator restored_allocator pod_key assign insert bytes_beq
first_answers = refl

first_untracked : lookup (pod_key web.pod_name web.pod_namespace) first.pod_endpoints ≡ none
unfolding lookup
first_untracked = refl

abbrev pub web_key : Bytes
web_key = pod_key web.pod_name web.pod_namespace

abbrev web_info : PodEndpointInfo
web_info = info_of env 5 web (uint32_to_ip (167772160 + 2)) 1

web_tracked : lookup web_key (result_of first).0.pod_endpoints ≡ some web_info
unfolding handle_add address_pod connect_pod program_pod allocate_identity new_identity_allocator
    allocate first_free lookup setup_pod_network check create_veth_pair setup_steps move_to_netns
    change_link undo_unless_done delete_link generate_host_veth_name insert bytes_beq add_address
    set_interface_up add_default_route add_route set_mtus set_mtu read_macs get_mac veth_pair
    first_allocator restored_allocator pod_key assign uint32_to_ip ip_to_uint32 to4 encode_to_string
    next_ip
web_tracked = refl

no_shared_pod_ip_example : web_key ≡ web_key
no_shared_pod_ip_example =
    no_shared_pod_ip env 5 flags first.dp first.netns [] first fresh net (result_of first).0 web_key
      web_key web_info web_info refl fresh_made fresh_fits first_started
      (then first (result_of first).0 here
        (adds 5 web (result_of first).0 (result_of first).1 first_untracked first_answers))
      web_tracked web_tracked refl

not_gateway : (web_key == gateway_key env) ≡ false
unfolding pod_key bytes_beq
not_gateway = refl

-- The agent that finds the checkpoint, in which the pod has its address again.
abbrev disk : memory.State
disk = (flags.checkpoint_path, bytes "{}") ∷ []

abbrev pub again : NodeAgent env
again = agent (first_allocator env 5 flags.checkpoint_path disk fresh) [] disk

again_started : new_node_agent env 5 flags again.dp again.netns disk ≡ ok again
unfolding new_node_agent new_routing_backend new_node_allocator block_size_of bytes_beq
again_started = refl

restored_web : lookup web_key again.allocator.allocated ≢ none
unfolding first_allocator restored_allocator load restore allocate first_free lookup insert assign
    pod_key bytes_beq
restored_web e = ground (arith, e)

reconcile_agent-new_node_agent_example :
    lookup web_key (reconcile_agent env 65 again).0.allocator.allocated ≡ none
reconcile_agent-new_node_agent_example =
    reconcile_agent-new_node_agent env 5 flags again.dp again.netns disk again fresh net 65 web_key
      refl fresh_made fresh_fits again_started not_gateway
