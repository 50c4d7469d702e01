-- ===== src/Routing/Select.antt =====
-- NewRoutingBackend of pkg/routing/routing.go: the backend of a mode, with the zero configuration.
use coordino.Base.{[], Result, ok, err, Bytes}
use coordino.Base.Decimal.{pos}
use coordino.Base.GoMap.{GoMap}
use coordino.Routing.{Mode, Error}
use coordino.Routing.Bgp.{BgpBackend, new_bgp_backend}
use coordino.Routing.Vxlan.{VxlanBackend, new_vxlan_backend}

pub data RoutingBackend : Type 0 where
  over_bgp : BgpBackend → RoutingBackend
  over_vxlan : VxlanBackend → RoutingBackend

-- The configuration map is not read.
unfoldable pub new_routing_backend : Mode → GoMap Bytes Bytes → Result Error RoutingBackend
new_routing_backend Mode.bgp config = ok (
    RoutingBackend.over_bgp (
      new_bgp_backend (record {
        local_asn = 0;
        router_id = [];
        peer_asn = 0;
        peer_address = [];
        hold_time = pos 0;
      })))
new_routing_backend Mode.vxlan config = ok (
    RoutingBackend.over_vxlan
      (new_vxlan_backend (record { vni = pos 0; port = pos 0; interface_name = []; mtu = pos 0 })))
new_routing_backend (Mode.other name) config = err (Error.unsupported_mode (Mode.other name))
