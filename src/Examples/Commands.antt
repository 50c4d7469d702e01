-- ===== src/Examples/Commands.antt =====
-- An example for cmd/cni-plugin/main.go: an ADD of the plugin that the agent serves. The wire carries
-- this one request and its response.
use coordino.Base.{◌≡◌, refl, none, some, [], ◌∷◌, bytes, bytes_eq, bytes_beq, ok, err}
use coordino.Base.Hex.{encode_to_string}
use coordino.Base.GoMap.{lookup, insert}
use coordino.Net.{to4}
use coordino.Ipam.Node.{allocate, first_free}
use coordino.Policy.Identity.{new_identity_allocator, allocate_identity}
use coordino.Netns.{
  check, setup_steps, undo_unless_done, setup_pod_network, generate_host_veth_name,
  add_default_route, set_mtus, read_macs, veth_pair,
}
use coordino.Netns.Simulated.{
  create_veth_pair, change_link, set_interface_up, move_to_netns, delete_link, add_address,
  add_route, set_mtu, get_mac,
}
use coordino.Rpc.{AddResponse}
use coordino.Rpc.Transport.{Message, Wire, Connection}
use coordino.Rpc.Exchange.{Carried}
use coordino.Agent.{
  NodeAgent, handle_add, address_pod, connect_pod, program_pod, next_ip, add_error,
  node_agent_handler,
}
use coordino.Plugin.{CniConfig, Variables, Output, add_request, cni_result, run_plugin}
use coordino.Plugin.EndToEnd.{Served, run_plugin-handle_add}
use coordino.Examples.Agents.{env, good}

abbrev variables : Variables
variables = record {
  command = bytes "ADD";
  container_id = bytes "c1";
  netns = bytes "/ns";
  if_name = bytes "eth0";
  args_str = bytes "K8S_POD_NAME=web;K8S_POD_NAMESPACE=default";
}

abbrev result_of : NodeAgent env → NodeAgent env × AddResponse
result_of a = elim (handle_add env 5 (add_request variables) a) [
  | some r ↦ r
  | none ↦ (a, add_error [])
]

abbrev config : CniConfig
config = record { cni_version = bytes "1.0.0"; name = bytes "coordino"; type = bytes "coordino" }

abbrev wire : Wire
wire = record {
  encode_request = λ method message. ok (bytes "q");
  decode_wrapper = λ request. ok (bytes "ADD", bytes "d");
  unmarshal_add = λ raw. ok (add_request variables);
  unmarshal_del = λ raw. err (bytes "no del");
  unmarshal_check = λ raw. err (bytes "no check");
  encode_reply = λ reply. bytes "r";
  unmarshal_added = λ content. ok (result_of good).1;
  unmarshal_deleted = λ content. err (bytes "no del");
  unmarshal_checked = λ content. err (bytes "no check");
  unmarshal_health = λ content. err (bytes "no health");
}

abbrev conn : Connection
conn = record { dial = none; read_all = λ out. ok out }

carried :
    Carried wire
      (bytes "ADD")
      (Message.add (add_request variables))
      wire.unmarshal_add
      (add_request variables)
carried = record {
  request = bytes "q";
  raw = bytes "d";
  encoded = refl;
  decoded = refl;
  parsed = refl;
}

answers : handle_add env 5 (add_request variables) good ≡ some (result_of good)
unfolding handle_add address_pod allocate_identity lookup new_identity_allocator allocate first_free
answers = refl

works : (result_of good).1.error ≡ []
unfolding handle_add address_pod connect_pod program_pod allocate_identity new_identity_allocator
    allocate first_free lookup setup_pod_network check create_veth_pair setup_steps move_to_netns
    change_link undo_unless_done delete_link generate_host_veth_name insert bytes_beq add_address
    set_interface_up add_default_route add_route set_mtus set_mtu read_macs get_mac veth_pair
    encode_to_string next_ip to4 add_request
works = refl

run_plugin-handle_add_example :
    (run_plugin wire (node_agent_handler env 5) 5 conn (ok []) (λ text. ok config) variables good
      ≡ some ((result_of good).0, Output.result (cni_result config (result_of good).1)))
    × ((cni_result config (result_of good).1).ips
        ≡ (record { address = (result_of good).1.ip; gateway = (result_of good).1.gateway } ∷ []))
    × Served env 5 (add_request variables) good (result_of good).0 (result_of good).1
run_plugin-handle_add_example =
    run_plugin-handle_add env wire 5 conn [] config (λ text. ok config) variables good
      (result_of good).0 (result_of good).1 refl (λ out. refl) carried refl refl refl answers works
