-- ===== src/Netns/Simulated.antt =====
-- SimulatedNetlinkOperator of pkg/netns/netlink.go.
use coordino.Base.{
  ℕ, ◌+◌, ◌++◌, Bool, true, false, not, Option, none, some, List, [], ◌∷◌, Bytes, bytes, bytes_eq,
  Result, ok, err, length, if◌then◌else◌, ◌==◌,
}
use coordino.Base.GoMap.{GoMap, lookup, insert, delete}
use coordino.Base.Decimal.{ℤ, pos}
use coordino.Base.Hex.{hex_padded}
use coordino.Netns.{NetlinkOperator}

pub record SimLink : Type 0 where
  pub name : Bytes
  pub mac : Bytes
  pub up : Bool
  pub netns : Bytes
  pub addr : Bytes
  pub mtu : ℤ
  pub peer : Bytes

pub record Simulated : Type 0 where
  pub links : GoMap Bytes SimLink
  pub operations : List Bytes
  pub fail_on : Bytes

unfoldable pub new_simulated : Simulated
new_simulated = record { links = []; operations = []; fail_on = [] }

abbrev pub logged : Bytes → Simulated → Simulated
logged op s = record s { operations = s.operations ++ (op ∷ []) }

-- `recordOp`; the second part is its error.
abbrev pub record_op : Bytes → Simulated → Option Bytes
record_op op s = if s.fail_on == op then some (bytes "simulated error on " ++ op) else none

abbrev pub link_not_found : Bytes → Bytes
link_not_found name = bytes "link " ++ name ++ bytes " not found"

abbrev pub new_link : Bytes → ℕ → Bytes → SimLink
new_link name n peer = record {
  name = name;
  mac = bytes "00:00:00:00:00:" ++ hex_padded n;
  up = false;
  netns = [];
  addr = [];
  mtu = pos 0;
  peer = peer;
}

unfoldable pub create_veth_pair : Simulated → Bytes → Bytes → Simulated × Option Bytes
create_veth_pair s host pod = elim (record_op (bytes "CreateVethPair") s) [
  | some e ↦ (logged (bytes "CreateVethPair") s, some e)
  | none ↦
      let n = length s.links in
      (
        record (logged (bytes "CreateVethPair") s) {
          links =
              insert pod (new_link pod (n + 1) host) (insert host (new_link host n pod) s.links);
        },
        none,
      )
]

-- What SetInterfaceUp, MoveToNetns, AddAddress and SetMTU share: the operation is recorded, and the
-- link is written if there is one.
unfoldable pub change_link :
    Bytes → Bytes → (SimLink → SimLink) → Simulated → Simulated × Option Bytes
change_link op name f s = elim (record_op op s) [
  | some e ↦ (logged op s, some e)
  | none ↦ elim (lookup name s.links) [
    | some link ↦ (record (logged op s) { links = insert name (f link) s.links }, none)
    | none ↦ (logged op s, some (link_not_found name))
  ]
]

unfoldable pub set_interface_up : Simulated → Bytes → Simulated × Option Bytes
set_interface_up s name =
    change_link (bytes "SetInterfaceUp:" ++ name) name (λ link. record link { up = true }) s

unfoldable pub move_to_netns : Simulated → Bytes → Bytes → Simulated × Option Bytes
move_to_netns s name path =
    change_link (bytes "MoveToNetns:" ++ name) name (λ link. record link { netns = path }) s

unfoldable pub add_address : Simulated → Bytes → Bytes → Simulated × Option Bytes
add_address s name addr =
    change_link (bytes "AddAddress:" ++ name) name (λ link. record link { addr = addr }) s

unfoldable pub add_route : Simulated → Bytes → Bytes → Bytes → Simulated × Option Bytes
add_route s name dst gw =
    let op = bytes "AddRoute:" ++ name ++ bytes ":" ++ dst ++ bytes ":" ++ gw in
    (logged op s, record_op op s)

unfoldable pub set_mtu : Simulated → Bytes → ℤ → Simulated × Option Bytes
set_mtu s name mtu =
    change_link (bytes "SetMTU:" ++ name) name (λ link. record link { mtu = mtu }) s

abbrev pub delete_op : Bytes → Bytes
delete_op name = bytes "DeleteLink:" ++ name

unfoldable pub delete_link : Simulated → Bytes → Simulated × Option Bytes
delete_link s name = elim (record_op (delete_op name) s) [
  | some e ↦ (logged (delete_op name) s, some e)
  | none ↦ elim (lookup name s.links) [
    | none ↦ (logged (delete_op name) s, some (link_not_found name))
    | some link ↦
        let left = delete name s.links in
        (
          record (logged (delete_op name) s) {
            links = if not (link.peer == []) then delete link.peer left else left;
          },
          none,
        )
  ]
]

unfoldable pub link_exists : Simulated → Bytes → Bool
link_exists s name = elim (lookup name s.links) [ none ↦ false | some link ↦ true ]

unfoldable pub get_mac : Simulated → Bytes → Result Bytes Bytes
get_mac s name = elim (lookup name s.links) [
  | none ↦ err (link_not_found name)
  | some link ↦ ok link.mac
]

abbrev pub simulated_netlink_operator : NetlinkOperator
simulated_netlink_operator = record {
  State = Simulated;
  create_veth_pair = create_veth_pair;
  set_interface_up = set_interface_up;
  move_to_netns = move_to_netns;
  add_address = add_address;
  add_route = add_route;
  set_mtu = set_mtu;
  delete_link = delete_link;
  link_exists = link_exists;
  get_mac = get_mac;
}
