-- ===== src/Agent/Reconcile.antt =====
-- The periodic reconciliation of NodeAgent (cmd/node-agent/main.go).
use coordino.Base.{ℕ, Bool, true, Option, none, some, [], ◌∷◌, Bytes, bytes, bytes_eq, ◌==◌}
use coordino.Base.GoMap.{GoMap, lookup}
use coordino.Base.Decimal.{pos}
use coordino.Ipam.Node.{reconcile}
use coordino.Ipam.Checkpoint.{checkpoint_of, save}
use coordino.Policy.Store.{get_compiled_policy}
use coordino.Policy.Writer.{PolicyMapKey, PolicyMapValue, compile_rules_to_map_entries}
use coordino.Agent.{Environment, NodeAgent, PodEndpointInfo, with_allocator, with_dp}

module _ (E : Environment) where
  -- `activePods`: the tracked pods and the gateway.
  abbrev pub gateway_key : Bytes
  gateway_key = bytes "gateway/kube-system"

  unfoldable pub is_active : GoMap Bytes PodEndpointInfo → Bytes → Bool
  is_active endpoints key = elim (lookup key endpoints) [
    | some info ↦ true
    | none ↦ key == gateway_key
  ]

  -- Step 2 of reconcile, whose errors are logged.
  unfoldable pub program_endpoints :
      ℕ → GoMap Bytes PodEndpointInfo → E.data_plane.State → E.data_plane.State
  program_endpoints now [] d = d
  program_endpoints now ((key, info) ∷ rest) d =
      program_endpoints now rest
        (E.data_plane.add_pod_endpoint now info.ip info.identity_id (pos 0) d).0

  -- The checkpoint is saved, and an error is logged.
  unfoldable pub save_checkpoint : ℕ → NodeAgent E → NodeAgent E
  save_checkpoint now a = record a {
    files =
        (save E.files E.codec a.checkpoint_path
          (checkpoint_of E.ip_string E.cidr_string now a.allocator) a.files).0;
  }

  -- Step 3: the entries that reach SyncPolicyMap, which is a stub.
  unfoldable pub desired_entries : NodeAgent E → Option (GoMap PolicyMapKey PolicyMapValue)
  desired_entries a = elim (get_compiled_policy a.policy_store) [
    | none ↦ none
    | some compiled ↦ some (compile_rules_to_map_entries compiled.rules)
  ]

  -- The step of the reconciliation loop, and the entries of its step 3.
  unfoldable pub reconcile_agent :
      ℕ → NodeAgent E → NodeAgent E × Option (GoMap PolicyMapKey PolicyMapValue)
  reconcile_agent now a = (
    save_checkpoint now (
        with_dp E (program_endpoints now a.pod_endpoints a.dp)
          (with_allocator E (reconcile a.allocator (is_active a.pod_endpoints)).0 a)),
    desired_entries a,
  )
