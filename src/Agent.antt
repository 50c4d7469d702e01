-- ===== src/Agent.antt =====
-- The node agent (cmd/node-agent/main.go): NodeAgent with what it keeps, its handlers of ADD, DEL and
-- CHECK. A handler runs under the agent's lock, so it is one step;
-- `none` is a panic. Logging and the metrics of the no-op registry keep nothing.
pub mod Handler
pub mod Reconcile
pub mod Undo
pub mod Reach
pub mod Safety
pub mod Startup
use coordino.Base.{
  ℕ, ◌+◌, ◌/◌, ◌%◌, ◌^◌, Bool, true, false, ◌||◌, not, Option, none, some, List, [], ◌∷◌, ◌++◌,
  Bytes, bytes, bytes_eq, Result, ok, err, if◌then◌else◌, ◌==◌,
}
use coordino.Base.GoMap.{GoMap, lookup, insert, delete}
use coordino.Base.Decimal.{ℤ, pos}
use coordino.Net.{Ip, IpNet, to4, big_endian, add32, ipv4}
use coordino.Ipam.Node.{NodeAllocator, pod_key, allocate, release, reconcile}
use coordino.Ipam.Checkpoint.{FileSystem, Codec, checkpoint_of, allocate_error, save}
use coordino.Policy.Identity.{Identity, IdentityAllocator, allocate_identity, release_identity}
use coordino.Policy.Labels.{Labels}
use coordino.Policy.Store.{PolicyStore, get_compiled_policy}
use coordino.Policy.Writer.{PolicyMapKey, PolicyMapValue, compile_rules_to_map_entries}
use coordino.Dataplane.Interface.{DataPlane}
use coordino.Netns.{
  NetnsConfig, NetlinkOperator, VethPair, setup_pod_network, teardown_pod_network,
  check_pod_network,
}
use coordino.Routing.Select.{RoutingBackend}
use coordino.Rpc.{
  AddRequest, Route, DnsConfig, AddResponse, DelRequest, DelResponse, CheckRequest, CheckResponse,
  Handled, RequestHandler,
}

pub record PodEndpointInfo : Type 0 where
  pub ip : Ip
  pub identity_id : ℕ
  pub if_name : Bytes
  pub netns : Bytes

-- What the agent calls: the operator of its namespaces, its data plane, the file system, the JSON of
-- checkpoints, the hashes, and the texts and parsers of package net. `interface_index` is
-- `net.InterfaceByName`, with `none` for its error.
pub record Environment : Type 1 where
  pub netlink : NetlinkOperator
  pub data_plane : DataPlane
  pub files : FileSystem
  pub codec : Codec
  pub digest : Bytes → Bytes
  pub sha256 : Bytes → Bytes
  pub ip_string : Ip → Bytes
  pub cidr_string : IpNet → Bytes
  pub parse_cidr : Bytes → Option IpNet
  pub interface_index : Bytes → Option ℤ

-- The parts of NodeAgent that its methods read or write. `netns` and `files` are the states behind
-- the operator and the file system. The store's compiler shares the identity allocator, but nothing
-- here adds a policy, so the compiler never runs.
pub record NodeAgent (E : Environment) : Type 0 where
  pub node_name : Bytes
  pub node_ip : Bytes
  pub pod_cidr : Bytes
  pub bpf_mount_path : Bytes
  pub checkpoint_path : Bytes
  pub allocator : NodeAllocator
  pub dp : E.data_plane.State
  pub netns : E.netlink.State
  pub files : E.files.State
  pub identity_allocator : IdentityAllocator
  pub policy_store : PolicyStore
  pub routing_backend : RoutingBackend
  pub pod_endpoints : GoMap Bytes PodEndpointInfo

unfoldable pub next_ip : Ip → Ip
next_ip ip = elim (to4 ip) [
  | none ↦ ip
  | some i ↦
      let v = add32 (big_endian i) 1 in
      ipv4 (v / 2 ^ 24 % 256) (v / 2 ^ 16 % 256) (v / 2 ^ 8 % 256) (v % 256)
]

abbrev pub put_all : GoMap Bytes Bytes → Labels → Labels
put_all [] labels = labels
put_all ((k, v) ∷ rest) labels = put_all rest (insert k v labels)

-- The labels of step 1 of HandleAdd; the arguments come last and win.
unfoldable pub labels_of_request : AddRequest → Labels
labels_of_request req = put_all req.args (
    insert (bytes "coordino.io/ns") req.pod_namespace
      (insert (bytes "coordino.io/pod-name") req.pod_name []))

abbrev pub add_error : Bytes → AddResponse
add_error text = record {
  ip = [];
  gateway = [];
  routes = [];
  dns = record { nameservers = []; domain = []; search = [] };
  error = text;
}

abbrev pub add_config : AddRequest → Bytes → Bytes → NetnsConfig
add_config req address gateway = record {
  container_id = req.container_id;
  netns = req.netns;
  if_name = req.if_name;
  ip = address;
  gateway = gateway;
  mtu = pos 1500;
}

abbrev pub del_config : Bytes → PodEndpointInfo → NetnsConfig
del_config container_id info = record {
  container_id = container_id;
  netns = info.netns;
  if_name = info.if_name;
  ip = [];
  gateway = [];
  mtu = pos 0;
}

abbrev pub added : Bytes → Bytes → AddResponse
added address gateway = record {
  ip = address;
  gateway = gateway;
  routes = record { dst = bytes "0.0.0.0/0"; gw = gateway } ∷ [];
  dns = record { nameservers = bytes "8.8.8.8" ∷ []; domain = []; search = [] };
  error = [];
}

-- `ifIndex`: the index of the host's interface, or 0.
abbrev pub index_or_zero : Option ℤ → ℤ
index_or_zero none = pos 0
index_or_zero (some i) = i

module _ (E : Environment) where
  abbrev pub with_identities : IdentityAllocator → NodeAgent E → NodeAgent E
  with_identities i a = record a { identity_allocator = i }

  abbrev pub with_allocator : NodeAllocator → NodeAgent E → NodeAgent E
  with_allocator m a = record a { allocator = m }

  abbrev pub with_netns : E.netlink.State → NodeAgent E → NodeAgent E
  with_netns n a = record a { netns = n }

  abbrev pub with_dp : E.data_plane.State → NodeAgent E → NodeAgent E
  with_dp d a = record a { dp = d }

  abbrev pub with_endpoints : GoMap Bytes PodEndpointInfo → NodeAgent E → NodeAgent E
  with_endpoints m a = record a { pod_endpoints = m }

  -- `allocator.Release` and then `identityAllocator.ReleaseIdentity`.
  unfoldable pub release_pod : Bytes → Bytes → ℕ → NodeAgent E → NodeAgent E
  release_pod name namespace id a =
      with_identities (release_identity a.identity_allocator id).0
        (with_allocator (release a.allocator name namespace) a)

  -- Steps 5 and 6 of HandleAdd, after the pod's network is set up with the host's end `host`.
  unfoldable pub program_pod :
      ℕ → AddRequest → Ip → ℕ → NetnsConfig → Bytes → NodeAgent E → NodeAgent E × AddResponse
  program_pod now req ip id config host a =
      let r =
        E.data_plane.add_pod_endpoint now ip id (index_or_zero (E.interface_index host)) a.dp in
      elim r.1 [
        | some e ↦
            let torn = teardown_pod_network E.netlink E.sha256 config a.netns in
            (
              release_pod req.pod_name req.pod_namespace id (with_netns torn.0 (with_dp r.0 a)),
              add_error (bytes "dataplane programming failed: " ++ e),
            )
        | none ↦
            let info : PodEndpointInfo = record {
              ip = ip;
              identity_id = id;
              if_name = req.if_name;
              netns = req.netns;
            } in
            (
              with_endpoints (insert (pod_key req.pod_name req.pod_namespace) info a.pod_endpoints)
                  (with_dp r.0 a),
              added config.ip config.gateway,
            )
      ]

  -- Step 4, the network of the pod, and the steps after it.
  unfoldable pub connect_pod :
      ℕ → AddRequest → Ip → ℕ → Bytes → NodeAgent E → NodeAgent E × AddResponse
  connect_pod now req ip id gateway a =
      let config = add_config req (E.ip_string ip ++ bytes "/24") gateway in
      let r = setup_pod_network E.netlink E.sha256 config a.netns in
      elim r.1 [
        | err e ↦ (
          release_pod req.pod_name req.pod_namespace id (with_netns r.0 a),
          add_error (bytes "netns setup failed: " ++ e),
        )
        | ok veth ↦ program_pod now req ip id config veth.host_name (with_netns r.0 a)
      ]

  -- Steps 2 and 3, with the identity of step 1. The CIDR's nil network makes `ipnet.IP` panic.
  unfoldable pub address_pod : ℕ → AddRequest → ℕ → NodeAgent E → Option (NodeAgent E × AddResponse)
  address_pod now req id a =
      let r = allocate a.allocator req.pod_name req.pod_namespace now in
      elim r.1 [
        | err e ↦ some (
          with_identities (release_identity a.identity_allocator id).0 (with_allocator r.0 a),
          add_error (bytes "IP allocation failed: " ++ allocate_error E.cidr_string a.allocator),
        )
        | ok ip ↦ elim (E.parse_cidr a.pod_cidr) [
          | none ↦ none
          | some ipnet ↦
              some
                (connect_pod now req ip id (E.ip_string (next_ip ipnet.ip)) (with_allocator r.0 a))
        ]
      ]

  -- AllocateIdentity returns no error, but it may dereference nil.
  unfoldable pub handle_add : ℕ → AddRequest → NodeAgent E → Option (NodeAgent E × AddResponse)
  handle_add now req a =
      let r = allocate_identity E.digest a.identity_allocator (labels_of_request req) in
      elim r.1 [
        | err e ↦ none
        | ok identity ↦ address_pod now req identity.id (with_identities r.0 a)
      ]

  unfoldable pub remove_pod : DelRequest → PodEndpointInfo → NodeAgent E → NodeAgent E
  remove_pod req info a =
      let dp = (E.data_plane.remove_pod_endpoint info.ip a.dp).0 in
      let torn =
        (teardown_pod_network E.netlink E.sha256 (del_config req.container_id info) a.netns).0 in
      with_endpoints (delete (pod_key req.pod_name req.pod_namespace) a.pod_endpoints) (
        release_pod req.pod_name req.pod_namespace info.identity_id
          (with_netns torn (with_dp dp a)))

  unfoldable pub handle_del : DelRequest → NodeAgent E → NodeAgent E × DelResponse
  handle_del req a = elim (lookup (pod_key req.pod_name req.pod_namespace) a.pod_endpoints) [
    | none ↦ (
      with_allocator (release a.allocator req.pod_name req.pod_namespace) a,
      record { error = [] },
    )
    | some info ↦ (remove_pod req info a, record { error = [] })
  ]

  abbrev check_response : Option Bytes → CheckResponse
  check_response none = record { ok = true; error = [] }
  check_response (some e) = record { ok = false; error = e }

  unfoldable pub handle_check : CheckRequest → NodeAgent E → CheckResponse
  handle_check req a = elim (lookup (pod_key req.pod_name req.pod_namespace) a.pod_endpoints) [
    | none ↦ record { ok = false; error = bytes "pod not found in local state" }
    | some info ↦
        check_response
          (check_pod_network E.netlink E.sha256 (del_config req.container_id info) a.netns)
  ]

  -- The handlers return no error of their own.
  abbrev pub answered : {R : Type 0} → Option (NodeAgent E × R) → Handled (NodeAgent E) R
  answered none = none
  answered (some (b, resp)) = some (b, some resp, none)

  -- NodeAgentHandler as the server's handler.
  abbrev pub node_agent_handler : ℕ → RequestHandler
  node_agent_handler now = record {
    State = NodeAgent E;
    handle_add = λ req a. answered (handle_add now req a);
    handle_del = λ req a. some ((handle_del req a).0, some (handle_del req a).1, none);
    handle_check = λ req a. some (a, some (handle_check req a), none);
  }
