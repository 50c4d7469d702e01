-- ===== src/Plugin/EndToEnd.antt =====
-- An ADD from the CNI plugin (cmd/cni-plugin/main.go) through the transport (internal/grpc/protocol.go)
-- to the node agent (cmd/node-agent/main.go) and back.
use coordino.Base.{
  ℕ, ◌≡◌, refl, ap, ◌∙◌, none, some, [], ◌∷◌, ◌++◌, Bytes, bytes, bytes_eq, bytes_beq, Result, ok,
  ◌==◌, true, false,
}
use coordino.Base.GoMap.{lookup, lookup-insert_self}
use coordino.Ipam.Node.{pod_key}
use coordino.Ipam.Node.Allocate.{allocate_records}
use coordino.Rpc.{AddRequest, AddResponse}
use coordino.Rpc.Transport.{Message, Reply, Wire, Connection, client_add}
use coordino.Rpc.Exchange.{Carried, client_add-handle_add}
use coordino.Agent.{
  Environment, NodeAgent, PodEndpointInfo, handle_add, node_agent_handler, answered,
}
use coordino.Agent.Handler.{no_address, addressed, undone, tracked, handle_add-Outcome, info_of}
use coordino.Agent.Reach.{Holds}
use coordino.Plugin.{
  CniConfig, Variables, Output, add_request, add_output, cni_result, run_command, run_plugin,
}

module _ (E : Environment) (now : ℕ) (req : AddRequest) (a b : NodeAgent E)
    (resp : AddResponse) where
  -- The pod is tracked with the address of the response, which the allocator holds for it.
  abbrev pub Served : Type 0
  Served =
      (info : PodEndpointInfo) × (lookup (pod_key req.pod_name req.pod_namespace) b.pod_endpoints
        ≡ some info)
      × (resp.ip ≡ E.ip_string info.ip ++ bytes "/24")
      × Holds b.allocator (pod_key req.pod_name req.pod_namespace) info.ip

  handle_add-Served : handle_add E now req a ≡ some (b, resp) → resp.error ≡ [] → Served
  handle_add-Served h worked = elim (handle_add-Outcome E now req a b resp h) [
    | no_address identity e named refused m i p x ↦ absurd (x worked)
    | addressed identity ip named found (undone u x) ↦ absurd (x worked)
    | addressed identity ip named found (tracked t e i) ↦
        let (r, at, same) =
          allocate_records a.allocator req.pod_name req.pod_namespace now ip found in
        (
          info_of E now req ip identity.id,
          ap (lookup (pod_key req.pod_name req.pod_namespace)) t.endpoints
              ∙ lookup-insert_self (pod_key req.pod_name req.pod_namespace) _ a.pod_endpoints,
          i,
          (
            r,
            ap (λ m. lookup (pod_key req.pod_name req.pod_namespace) m.allocated) t.allocator ∙ at,
            same,
          ),
        )
  ]

-- Over a connection that works and a JSON that carries this request and its response, an ADD of the
-- CNI plugin, for which the agent's HandleAdd answers without an error, leaves the agent in
-- HandleAdd's state and prints exactly the result made of its response, with the response's address
-- and gateway; the pod is tracked then, and the printed address is its own, which the allocator
-- holds for it.
pub run_plugin-handle_add :
    (E : Environment) (W : Wire) (now : ℕ) (conn : Connection) (config_text : Bytes)
    (config : CniConfig) (unmarshal : Bytes → Result Bytes CniConfig) (env : Variables)
    (a b : NodeAgent E) (resp : AddResponse)
    → conn.dial ≡ none
    → ((out : Bytes) → conn.read_all out ≡ ok out)
    → Carried W (bytes "ADD") (Message.add (add_request env)) W.unmarshal_add (add_request env)
    → W.unmarshal_added (W.encode_reply (Reply.added (some resp))) ≡ ok resp
    → unmarshal config_text ≡ ok config
    → env.command ≡ bytes "ADD"
    → handle_add E now (add_request env) a ≡ some (b, resp)
    → resp.error ≡ []
    → (run_plugin W (node_agent_handler E now) now conn (ok config_text) unmarshal env a
        ≡ some (b, Output.result (cni_result config resp)))
      × ((cni_result config resp).ips ≡ (record { address = resp.ip; gateway = resp.gateway } ∷ []))
      × Served E now (add_request env) a b resp
unfolding run_plugin run_command add_output cni_result bytes_beq
run_plugin-handle_add E W now conn config_text config unmarshal env a b resp dialled whole c
      readable parsed adds h worked =
    let H = node_agent_handler E now in
    let handled : H.handle_add (add_request env) a ≡ some (b, some resp, none) =
      ap (answered E) h in
    let called : client_add W H now conn (add_request env) a ≡ some (b, ok resp) =
      client_add-handle_add W H now conn dialled whole (add_request env) a b resp none c readable
        handled in
    let not_version : (env.command == bytes "VERSION") ≡ false =
      ap (λ x. x == bytes "VERSION") adds in
    let not_empty : (env.command == []) ≡ false = ap (λ x. x == []) adds in
    let is_add : (env.command == bytes "ADD") ≡ true = ap (λ x. x == bytes "ADD") adds in
    (
      rw (parsed, run_plugin)
          (rw (not_version, not_empty, is_add, run_plugin, run_command)
            (rw called (rw (worked, add_output) refl))),
      refl,
      handle_add-Served E now (add_request env) a b resp h worked,
    )
