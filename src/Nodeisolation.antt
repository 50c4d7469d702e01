-- ===== src/Nodeisolation.antt =====
-- HostPolicy of pkg/nodeisolation/host_policy.go: the list of isolation rules of a node. An error is
-- its text, `none` is nil; the enforcer of the rules is a parameter.
use coordino.Base.{
  ℕ, suc, zero, ◌||◌, not, Option, none, some, List, [], ◌∷◌, ◌++◌, Bytes, bytes, bytes_eq, ltb,
  length, if◌then◌else◌, ◌==◌,
}
use coordino.Base.Decimal.{ℤ, pos, negsuc}

pub record PortRule : Type 0 where
  pub protocol : Bytes
  pub port : ℤ

-- A direction is its string.
pub record IsolationRule : Type 0 where
  pub direction : Bytes
  pub cidr : Bytes
  pub ports : List PortRule
  pub action : Bytes
  pub description : Bytes

abbrev pub direction_ingress : Bytes
direction_ingress = bytes "Ingress"

abbrev pub direction_egress : Bytes
direction_egress = bytes "Egress"

-- Enforcing a rule changes the state of the data plane.
pub record PolicyEnforcer : Type 1 where
  pub State : Type 0
  pub enforce_isolation_rule : IsolationRule → State → State × Option Bytes
  pub remove_isolation_rule : IsolationRule → State → State × Option Bytes

pub record HostPolicy : Type 0 where
  pub rules : List IsolationRule
  pub default_action : Bytes

unfoldable pub new_host_policy : Bytes → HostPolicy
new_host_policy default_action = record {
  rules = [];
  default_action = if default_action == [] then bytes "Deny" else default_action;
}

abbrev port_rule : Bytes → ℕ → PortRule
port_rule protocol port = record { protocol = protocol; port = pos port }

abbrev rule : Bytes → Bytes → List PortRule → Bytes → Bytes → IsolationRule
rule direction cidr ports action description = record {
  direction = direction;
  cidr = cidr;
  ports = ports;
  action = action;
  description = description;
}

unfoldable pub default_pod_to_host_rules : List IsolationRule
default_pod_to_host_rules =
    rule direction_ingress [] (port_rule (bytes "TCP") 10250 ∷ []) (bytes "Allow")
      (bytes "Allow kubelet health checks")
    ∷ rule direction_ingress [] (port_rule (bytes "TCP") 9100 ∷ []) (bytes "Allow")
        (bytes "Allow node-exporter scrape")
    ∷ rule direction_egress [] (port_rule (bytes "UDP") 53 ∷ port_rule (bytes "TCP") 53 ∷ [])
        (bytes "Allow") (bytes "Allow DNS")
    ∷ rule direction_ingress [] [] (bytes "Deny") (bytes "Deny all other pod-to-host traffic")
    ∷ rule direction_egress [] [] (bytes "Deny") (bytes "Deny all other pod-to-host traffic")
    ∷ []

unfoldable pub default_node_to_node_rules : Bytes → ℤ → List IsolationRule
default_node_to_node_rules api_server_cidr api_server_port =
    rule direction_egress api_server_cidr
      (record { protocol = bytes "TCP"; port = api_server_port } ∷ []) (bytes "Allow")
      (bytes "Allow egress to K8s API server")
    ∷ rule direction_egress [] (port_rule (bytes "UDP") 51820 ∷ []) (bytes "Allow")
        (bytes "Allow egress to WireGuard peers")
    ∷ rule direction_egress [] [] (bytes "Deny") (bytes "Deny all other node-to-node egress")
    ∷ []

unfoldable pub add_rule : IsolationRule → HostPolicy → HostPolicy
add_rule r hp = record hp { rules = hp.rules ++ (r ∷ []) }

-- `append(rules[:index], rules[index+1:]...)`
abbrev pub without : ℕ → List IsolationRule → List IsolationRule
without n [] = []
without zero (r ∷ rs) = rs
without (suc n) (r ∷ rs) = r ∷ without n rs

unfoldable pub remove_rule : ℤ → HostPolicy → HostPolicy × Option Bytes
remove_rule (negsuc n) hp = (hp, some (bytes "index out of bounds"))
remove_rule (pos n) hp =
    if ltb n (length hp.rules)
    then (record hp { rules = without n hp.rules }, none)
    else (hp, some (bytes "index out of bounds"))

unfoldable pub get_rules : HostPolicy → List IsolationRule
get_rules hp = hp.rules

-- The loop of Validate: the error of the first rule that has one.
unfoldable pub validate_rules : List IsolationRule → Option Bytes
validate_rules [] = none
validate_rules (r ∷ rs) =
    let rest = validate_rules rs in
    if not (r.direction == direction_ingress || r.direction == direction_egress)
    then some (bytes "invalid direction in rule: " ++ r.direction)
    else if not (r.action == bytes "Allow" || r.action == bytes "Deny")
    then some (bytes "invalid action in rule: " ++ r.action)
    else rest

unfoldable pub validate : HostPolicy → Option Bytes
unfolding validate_rules
validate hp = validate_rules hp.rules

module _ (P : PolicyEnforcer) where
  -- The loop of ApplyToDataPlane, which stops at the first error.
  unfoldable pub apply_rules : List IsolationRule → P.State → P.State × Option Bytes
  apply_rules [] s = (s, none)
  apply_rules (r ∷ rs) s =
      let step = P.enforce_isolation_rule r s in
      let rest = apply_rules rs step.0 in elim step.1 [ some e ↦ (step.0, some e) | none ↦ rest ]

  unfoldable pub apply_to_data_plane : HostPolicy → P.State → P.State × Option Bytes
  unfolding apply_rules
  apply_to_data_plane hp s = apply_rules hp.rules s
