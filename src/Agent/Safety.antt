-- ===== src/Agent/Safety.antt =====
-- The addresses of the pods of a node agent, from NewNodeAgent on (cmd/node-agent/main.go).
use coordino.Base.{
  ℕ, ◌+◌, ◌≤◌, ◌≡◌, refl, sym, ap, ◌∙◌, subst, inl, inr, arith, false, none, some, [], ◌∷◌, Bytes,
  bytes, bytes_eq, Result, ok, err, Result-cases, Bool-cases, ◌==◌,
}
use coordino.Base.GoMap.{lookup}
use coordino.Net.{IpNet, ip_to_uint32, u32_mod}
use coordino.Ipam.Node.{NodeAllocator, new_node_allocator}
use coordino.Ipam.Node.Invariant.{IsValid}
use coordino.Ipam.Node.History.{new_node_allocator-IsValid}
use coordino.Ipam.Node.Allocate.{allocate-IsValid}
use coordino.Ipam.Checkpoint.{load}
use coordino.Ipam.Checkpoint.Restore.{restore-IsValid}
use coordino.Routing.Select.{new_routing_backend}
use coordino.Ipam.Node.Reconcile.{reconcile_lem}
use coordino.Agent.{Environment, NodeAgent, PodEndpointInfo}
use coordino.Agent.Reconcile.{gateway_key, is_active, reconcile_agent, save_checkpoint}
use coordino.Agent.Startup.{
  Flags, StartupError, mode_of, restored_allocator, first_allocator, new_node_agent,
}
use coordino.Agent.Reach.{Consistent, Reaches, Reaches-Consistent, Consistent-apart}

-- The agent that NewNodeAgent returned.
abbrev agent_or : {E : Environment} → NodeAgent E → Result StartupError (NodeAgent E) → NodeAgent E
agent_or a (ok b) = b
agent_or a (err e) = a

module _ (E : Environment) where
  restored_allocator-IsValid :
      (now : ℕ) (path : Bytes) (files : E.files.State) (m : NodeAllocator)
      → IsValid m
      → IsValid (restored_allocator E now path files m)
  unfolding restored_allocator
  restored_allocator-IsValid now path files m v = elim (Bool-cases (E.files.exists files path)) [
    | inr absent ↦ rw (absent, restored_allocator) v
    | inl there ↦ elim (Result-cases (load E.files E.codec path files)) [
      | inl (e, failed) ↦ rw (there, failed, restored_allocator) v
      | inr (checkpoint, loaded) ↦
          rw (there, loaded, restored_allocator)
            (restore-IsValid E.ip_string E.cidr_string now checkpoint.records m v)
    ]
  ]

  first_allocator-IsValid :
      (now : ℕ) (path : Bytes) (files : E.files.State) (m : NodeAllocator)
      → IsValid m
      → IsValid (first_allocator E now path files m)
  unfolding first_allocator
  first_allocator-IsValid now path files m v =
      allocate-IsValid (restored_allocator E now path files m) (bytes "gateway")
        (bytes "kube-system") now (restored_allocator-IsValid now path files m v)

  module _ (now : ℕ) (flags : Flags) (dp : E.data_plane.State) (netns : E.netlink.State)
      (files : E.files.State) (a : NodeAgent E) (m : NodeAllocator) where
    first_parts :
        new_node_allocator (E.parse_cidr flags.pod_cidr) ≡ ok m
        → new_node_agent E now flags dp netns files ≡ ok a
        → (a.allocator ≡ first_allocator E now flags.checkpoint_path files m)
          × (a.pod_endpoints ≡ [])
    unfolding new_node_agent
    first_parts made started =
        elim (Result-cases (
          new_routing_backend (mode_of flags.routing_mode)
            ((bytes "node-ip", flags.node_ip) ∷ []))) [
              | inl (e, failed) ↦
                  let stops : new_node_agent E now flags dp netns files
                      ≡ err (StartupError.of_routing e) =
                    rw (made, failed, new_node_agent) refl in
                  absurd (ground (arith, stops, started))
              | inr (backend, chosen) ↦
                  let runs = rw (made, chosen, new_node_agent) at started in
                  (
                    ap (λ r. (agent_or a r).allocator) (sym runs),
                    ap (λ r. (agent_or a r).pod_endpoints) (sym runs),
                  )
            ]

    first-Consistent :
        (net : IpNet)
        → E.parse_cidr flags.pod_cidr ≡ some net
        → new_node_allocator (some net) ≡ ok m
        → ip_to_uint32 net.ip + m.block_size ≤ u32_mod
        → new_node_agent E now flags dp netns files ≡ ok a
        → Consistent E a
    unfolding lookup
    first-Consistent net parsed made fits started =
        let (first, none_yet) = first_parts (ap new_node_allocator parsed ∙ made) started in
        record {
          valid = subst IsValid (sym first) (
              first_allocator-IsValid now flags.checkpoint_path files m
                (new_node_allocator-IsValid net m made fits));
          held = λ k info h. absurd (ground (arith, ap (λ l. lookup k l) none_yet, h));
        }

    -- Whatever calls a node agent handles after NewNodeAgent, of HandleAdd for pods that it does not
    -- track, of HandleDel and of its reconciliation, with any checkpoint found, any netlink operator
    -- and any data plane: two tracked pods with the same address are one pod, where the node's block
    -- ends within the IPv4 addresses.
    pub no_shared_pod_ip :
        (net : IpNet) (b : NodeAgent E) (j k : Bytes) (p q : PodEndpointInfo)
        → E.parse_cidr flags.pod_cidr ≡ some net
        → new_node_allocator (some net) ≡ ok m
        → ip_to_uint32 net.ip + m.block_size ≤ u32_mod
        → new_node_agent E now flags dp netns files ≡ ok a
        → Reaches E a b
        → lookup j b.pod_endpoints ≡ some p
        → lookup k b.pod_endpoints ≡ some q
        → p.ip ≡ q.ip
        → j ≡ k
    no_shared_pod_ip net b j k p q parsed made fits started reaches lj lk same =
        let c = Reaches-Consistent E a b reaches (first-Consistent net parsed made fits started) in
        Consistent-apart E b j k p q c lj lk same

    -- The first reconciliation after NewNodeAgent, where no pod was added in between, takes the
    -- address of every pod but the gateway, those restored from the checkpoint included.
    pub reconcile_agent-new_node_agent :
        (net : IpNet) (later : ℕ) (k : Bytes)
        → E.parse_cidr flags.pod_cidr ≡ some net
        → new_node_allocator (some net) ≡ ok m
        → ip_to_uint32 net.ip + m.block_size ≤ u32_mod
        → new_node_agent E now flags dp netns files ≡ ok a
        → (k == gateway_key E) ≡ false
        → lookup k (reconcile_agent E later a).0.allocator.allocated ≡ none
    unfolding reconcile_agent save_checkpoint is_active lookup
    reconcile_agent-new_node_agent net later k parsed made fits started other =
        let c = first-Consistent net parsed made fits started in
        let (first, none_yet) = first_parts (ap new_node_allocator parsed ∙ made) started in
        let inactive : is_active E a.pod_endpoints k ≡ false =
          ap (λ l. is_active E l k) none_yet ∙ other in
        (reconcile_lem a.allocator (is_active E a.pod_endpoints) c.valid).1 k ∙ rw inactive refl
