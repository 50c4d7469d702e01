-- ===== src/Control.antt =====
-- The controller command (cmd/controller/main.go): its state, and the body of each of its loops as
-- one step. The compiler and the controller hold one identity allocator, which is the compiler's.
-- `none` is a panic. Logging and the metrics of the no-op registry keep nothing.
use coordino.Base.{
  ℕ, ◌+◌, Bool, true, false, Option, none, some, List, [], ◌∷◌, ◌++◌, Bytes, bytes, bytes_eq,
  Result, ok, err, leb, if◌then◌else◌,
}
use coordino.Base.Decimal.{pos, itoa}
use coordino.Base.GoMap.{GoMap, insert}
use coordino.Net.{IpNet}
use coordino.Ipam.Controller.{
  IpamController, Error, BlockAssignment, new_ipam_controller, assign_block, get_all_assignments,
}
use coordino.Policy.Identity.{
  Identity, IdentityAllocator, new_identity_allocator, get_identities_for_node, release_identity,
}
use coordino.Policy.Rules.{NetworkPolicySpec, CompiledPolicy}
use coordino.Policy.Compiler.{Compiler, new_compiler, compile_policy}
use coordino.Encryption.{Manager, KeyPair, new_manager, rotate_keys}

-- The calls of the operating system on the lock file; a descriptor is its number. `open_file` and `flock`
-- may fail.
pub record LockFiles : Type 1 where
  pub State : Type 0
  pub open_file : State → Bytes → State × Option ℕ
  pub flock : State → ℕ → State × Bool
  pub unlock : State → ℕ → State
  pub close : State → ℕ → State

pub record LeaderElector : Type 0 where
  pub lock_path : Bytes
  pub lock_file : Option ℕ

unfoldable pub new_leader_elector : Bytes → LeaderElector
new_leader_elector id = record {
  lock_path = bytes "/tmp/" ++ id ++ bytes ".lock";
  lock_file = none;
}

unfoldable pub is_leader : LeaderElector → Bool
is_leader le = elim le.lock_file [ none ↦ false | some fd ↦ true ]

module _ (L : LockFiles) where
  -- Whether the lock was taken, with the elector and the state of the files.
  abbrev locked : LeaderElector → ℕ → L.State × Bool → LeaderElector × L.State × Bool
  locked le fd (s, true) = (record le { lock_file = some fd }, s, true)
  locked le fd (s, false) = (le, L.close s fd, false)

  unfoldable pub try_acquire : LeaderElector → L.State → LeaderElector × L.State × Bool
  try_acquire le s = elim le.lock_file [
    | some fd ↦ (le, s, true)
    | none ↦
        let opened = L.open_file s le.lock_path in
        elim opened.1 [
          | none ↦ (le, opened.0, false)
          | some fd ↦ locked le fd (L.flock opened.0 fd)
        ]
  ]

  unfoldable pub release_lock : LeaderElector → L.State → LeaderElector × L.State
  release_lock le s = elim le.lock_file [
    | none ↦ (le, s)
    | some fd ↦ (record le { lock_file = none }, L.close (L.unlock s fd) fd)
  ]

pub record Controller : Type 0 where
  pub ipam_controller : IpamController
  pub compiler : Compiler
  pub wg_manager : Manager
  pub leader_elector : LeaderElector
  pub policies : GoMap Bytes NetworkPolicySpec

-- `net.ParseCIDR(clusterCIDR)` is given.
unfoldable pub new_controller : Option IpNet → ℕ → Bytes → Result Error Controller
new_controller cluster block_size election_id = elim (new_ipam_controller cluster block_size) [
  | err e ↦ err e
  | ok ipam ↦ ok (record {
    ipam_controller = ipam;
    compiler = new_compiler new_identity_allocator;
    wg_manager =
        new_manager
          (record { interface_name = []; listen_port = pos 0; private_key_path = []; mtu = pos 0 });
    leader_elector = new_leader_elector election_id;
    policies = [];
  })
]

-- What Run does to the state once it leads: the simulated policy.
unfoldable pub add_default_policy : Controller → Controller
add_default_policy c = record c {
  policies =
      insert (bytes "default-deny")
        (record { pod_selector = (bytes "env", bytes "prod") ∷ []; ingress = []; egress = [] })
        c.policies;
}

-- One tick of nodeRegistrationLoop with the loop's `nodeIdx`.
unfoldable pub register_node : ℕ → ℕ → Controller → Controller × ℕ
register_node now index c =
    let r = assign_block c.ipam_controller (bytes "node-" ++ itoa index) now in
    (record c { ipam_controller = r.0 }, elim r.1 [ ok cidr ↦ index + 1 | err e ↦ index ])

-- ReconcileNodeConfigs logs the first block of each node that has one.
unfoldable pub first_blocks : GoMap Bytes (List BlockAssignment) → GoMap Bytes IpNet
first_blocks [] = []
first_blocks ((node, []) ∷ rest) = first_blocks rest
first_blocks ((node, b ∷ bs) ∷ rest) = (node, b.cidr) ∷ first_blocks rest

unfoldable pub reconcile_node_configs : Controller → GoMap Bytes IpNet
unfolding first_blocks
reconcile_node_configs c = first_blocks (get_all_assignments c.ipam_controller)

module _ (digest : Bytes → Bytes) (now stamp : ℕ) where
  -- One tick of policyCompilationLoop: what is compiled is only logged.
  unfoldable pub compile_all :
      GoMap Bytes NetworkPolicySpec → Compiler → Option (List CompiledPolicy × Compiler)
  compile_all [] k = some ([], k)
  compile_all ((name, spec) ∷ rest) k =
      elim (compile_policy digest now stamp name (bytes "default") spec k) [
        | none ↦ none
        | some (compiled, k') ↦ elim (compile_all rest k') [
          | none ↦ none
          | some (others, k'') ↦ some (compiled ∷ others, k'')
        ]
      ]

  unfoldable pub compile_policies : Controller → Option (List CompiledPolicy × Controller)
  unfolding compile_all
  compile_policies c = elim (compile_all c.policies c.compiler) [
    | none ↦ none
    | some (compiled, k) ↦ some (compiled, record c { compiler = k })
  ]

-- The inner loop of identityGCLoop over the identities of a node.
unfoldable pub collect : List Identity → IdentityAllocator → IdentityAllocator
collect [] a = a
collect (d ∷ ds) a = collect ds (if leb d.ref_count 0 then (release_identity a d.id).0 else a)

unfoldable pub collect_nodes :
    GoMap Bytes (List BlockAssignment) → IdentityAllocator → IdentityAllocator
unfolding collect
collect_nodes [] a = a
collect_nodes ((node, blocks) ∷ rest) a =
    collect_nodes rest (collect (get_identities_for_node a node) a)

unfoldable pub collect_identities : Controller → Controller
unfolding collect_nodes
collect_identities c = record c {
  compiler = record (c.compiler) {
    identity_allocator =
        collect_nodes (get_all_assignments c.ipam_controller) c.compiler.identity_allocator;
  };
}

-- One tick of wireguardRotationLoop, with the key pair that it logs.
unfoldable pub rotate : ℕ → Controller → Controller × KeyPair
rotate now c = let r = rotate_keys now c.wg_manager in (record c { wg_manager = r.0 }, r.1)
