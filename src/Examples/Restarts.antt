-- ===== src/Examples/Restarts.antt =====
-- Runs of the node agent (cmd/node-agent/main.go) after a restart, and with an ADD that is repeated.
use coordino.Base.{◌≡◌, ◌≢◌, refl, arith, Option, none, some, bytes, bytes_eq, bytes_beq, bytes_ltb}
use coordino.Base.Hex.{encode_to_string}
use coordino.Base.GoMap.{lookup, insert, delete}
use coordino.Net.{Ip, to4, ip_to_uint32, uint32_to_ip}
use coordino.Ipam.Node.{AllocRecord, allocate, assign, first_free, pod_key, release, free_record}
use coordino.Ipam.Checkpoint.{load, restore}
use coordino.Policy.Identity.{new_identity_allocator, allocate_identity, add_identity}
use coordino.Policy.Labels.{hash_labels, serialize}
use coordino.Netns.{
  check, setup_steps, undo_unless_done, setup_pod_network, generate_host_veth_name,
  add_default_route, set_mtus, read_macs, veth_pair,
}
use coordino.Netns.Simulated.{
  create_veth_pair, change_link, set_interface_up, move_to_netns, delete_link, add_address,
  add_route, set_mtu, get_mac,
}
use coordino.Agent.{
  NodeAgent, handle_add, address_pod, connect_pod, program_pod, release_pod, labels_of_request,
  next_ip, with_netns,
}
use coordino.Agent.Startup.{restored_allocator, first_allocator}
use coordino.Examples.Agents.{env, net, good, again, links, web_key, result_of}

abbrev ip_of : Option AllocRecord → Option Ip
ip_of none = none
ip_of (some r) = some r.ip

-- The restored pod holds the address that HandleAdd gives to pods as their gateway.
gateway_taken : ip_of (lookup web_key again.allocator.allocated) ≡ some (next_ip net.ip)
unfolding first_allocator restored_allocator load restore allocate first_free lookup insert assign
    pod_key bytes_beq next_ip to4 uint32_to_ip ip_to_uint32
gateway_taken = refl

-- The agent that tracks the pod, with an operator that now fails.
abbrev tracking : NodeAgent env
tracking = with_netns env (links (bytes "MoveToNetns:eth0")) (result_of good).0

abbrev repeated : NodeAgent env
repeated = (result_of tracking).0

-- The pod is still tracked, but its address is free.
released :
    (lookup web_key repeated.allocator.allocated ≡ none)
    × (lookup web_key repeated.pod_endpoints ≢ none)
unfolding handle_add address_pod connect_pod program_pod release_pod allocate_identity
    new_identity_allocator allocate first_free lookup setup_pod_network check create_veth_pair
    setup_steps move_to_netns change_link undo_unless_done delete_link generate_host_veth_name
    insert bytes_beq add_address set_interface_up add_default_route add_route set_mtus set_mtu
    read_macs get_mac veth_pair encode_to_string next_ip to4 pod_key assign release free_record
    delete labels_of_request add_identity hash_labels serialize bytes_ltb
released = (refl, λ e. ground (arith, e))
