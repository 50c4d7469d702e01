-- ===== src/Examples/Networks.antt =====
-- Examples for pkg/netns/netns.go: a pod's network on the simulated operator.
use coordino.Base.{◌≡◌, ◌≢◌, refl, arith, none, [], Bytes, bytes, bytes_eq, bytes_beq, ok, err}
use coordino.Base.Decimal.{pos}
use coordino.Base.Hex.{encode_to_string}
use coordino.Base.GoMap.{lookup, insert}
use coordino.Netns.{
  add_default_route, veth_pair, read_macs, set_mtus, VethPair, teardown_pod_network, NetnsConfig,
  check, setup_steps, undo_unless_done, setup_pod_network, generate_host_veth_name,
}
use coordino.Netns.Simulated.{
  set_interface_up, add_address, set_mtu, get_mac, Simulated, simulated_netlink_operator,
  create_veth_pair, change_link, move_to_netns, delete_link, delete_op,
}
use coordino.Netns.Cleanup.{SameLinks, setup_pod_network_fails, teardown-setup_pod_network}

-- The digest is the text itself.
abbrev plain : Bytes → Bytes
plain b = b

abbrev config : NetnsConfig
config = record {
  container_id = bytes "c1";
  netns = bytes "/ns";
  if_name = bytes "eth0";
  ip = bytes "10.0.0.2/24";
  gateway = [];
  mtu = pos 0;
}

-- Moving the pod's end fails.
abbrev host : Simulated
host = record { links = []; operations = []; fail_on = bytes "MoveToNetns:eth0" }

host_unknown : lookup (generate_host_veth_name plain config.container_id) host.links ≡ none
unfolding lookup
host_unknown = refl

pod_unknown : lookup config.if_name host.links ≡ none
unfolding lookup
pod_unknown = refl

pod_named : config.if_name ≢ []
pod_named e = ground (arith, e)

deletes : host.fail_on ≢ delete_op (generate_host_veth_name plain config.container_id)
deletes e = ground (arith, e)

abbrev text : Bytes
text = bytes "failed to move interface eth0 to netns /ns: simulated error on MoveToNetns:eth0"

fails : (setup_pod_network simulated_netlink_operator plain config host).1 ≡ err text
unfolding setup_pod_network check create_veth_pair setup_steps move_to_netns change_link
    undo_unless_done delete_link generate_host_veth_name lookup insert bytes_beq
fails = refl

setup_pod_network_fails_example :
    SameLinks host (setup_pod_network simulated_netlink_operator plain config host).0
setup_pod_network_fails_example =
    setup_pod_network_fails plain config host text host_unknown pod_unknown pod_named deletes fails

-- Nothing fails.
abbrev quiet : Simulated
quiet = record { links = []; operations = []; fail_on = [] }

abbrev pair : VethPair
pair = record {
  host_name = generate_host_veth_name plain config.container_id;
  pod_name = bytes "eth0";
  host_mac = bytes "00:00:00:00:00:00";
  pod_mac = bytes "00:00:00:00:00:01";
}

quiet_deletes : quiet.fail_on ≢ delete_op (generate_host_veth_name plain config.container_id)
quiet_deletes e = ground (arith, e)

works : (setup_pod_network simulated_netlink_operator plain config quiet).1 ≡ ok pair
unfolding setup_pod_network check create_veth_pair setup_steps move_to_netns change_link
    undo_unless_done add_address set_interface_up add_default_route set_mtus set_mtu read_macs
    get_mac veth_pair generate_host_veth_name lookup insert bytes_beq encode_to_string
works = refl

teardown-setup_pod_network_example :
    (let t = (setup_pod_network simulated_netlink_operator plain config quiet).0 in
      ((teardown_pod_network simulated_netlink_operator plain config t).1 ≡ none)
      × SameLinks quiet (teardown_pod_network simulated_netlink_operator plain config t).0)
teardown-setup_pod_network_example =
    teardown-setup_pod_network plain config quiet pair host_unknown pod_unknown pod_named
      quiet_deletes works
