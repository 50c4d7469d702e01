-- ===== src/Plugin.antt =====
-- The CNI plugin (cmd/cni-plugin/main.go): what it prints for its environment and its standard input.
-- encoding/json is a parameter; the node agent is any handler behind the transport.
pub mod Args
pub mod EndToEnd
use coordino.Base.{
  ℕ, nat_beq, Bool, true, false, not, ◌||◌, Option, none, some, List, [], ◌∷◌, ◌++◌, map, Bytes,
  bytes, bytes_eq, Result, ok, err, if◌then◌else◌, ◌==◌,
}
use coordino.Base.GoMap.{GoMap, lookup, insert}
use coordino.Rpc.{
  AddRequest, AddResponse, Route, DelRequest, CheckRequest, CheckResponse, DelResponse,
  RequestHandler,
}
use coordino.Rpc.Transport.{Wire, Connection, client_add, client_del, client_check}

pub record CniConfig : Type 0 where
  pub cni_version : Bytes
  pub name : Bytes
  pub type : Bytes

pub record IpConfig : Type 0 where
  pub address : Bytes
  pub gateway : Bytes

pub record RouteConfig : Type 0 where
  pub dst : Bytes
  pub gw : Bytes

pub record DnsResult : Type 0 where
  pub nameservers : List Bytes
  pub domain : Bytes
  pub search : List Bytes

pub record CniResult : Type 0 where
  pub cni_version : Bytes
  pub ips : List IpConfig
  pub routes : List RouteConfig
  pub dns : DnsResult

pub record CniError : Type 0 where
  pub code : ℕ
  pub msg : Bytes
  pub details : Bytes

-- What is written to the standard output. After `failure` the exit code is 1, else it is 0.
pub data Output : Type 0 where
  silent : Output
  result : CniResult → Output
  failure : CniError → Output
  version : Bytes → List Bytes → Output

-- `strings.Split` by one byte.
abbrev pub prepend : ℕ → List Bytes → List Bytes
prepend b [] = (b ∷ []) ∷ []
prepend b (part ∷ parts) = (b ∷ part) ∷ parts

unfoldable pub split : ℕ → Bytes → List Bytes
split sep [] = [] ∷ []
split sep (b ∷ bs) = let rest = split sep bs in if nat_beq b sep then [] ∷ rest else prepend b rest

-- A pair counts if it has exactly one `=`.
abbrev pub put_pair : List Bytes → GoMap Bytes Bytes → GoMap Bytes Bytes
put_pair (k ∷ v ∷ []) args = insert k v args
put_pair parts args = args

unfoldable pub put_pairs : List Bytes → GoMap Bytes Bytes → GoMap Bytes Bytes
put_pairs [] args = args
put_pairs (pair ∷ pairs) args = put_pairs pairs (put_pair (split 61 pair) args)

unfoldable pub parse_cni_args : Bytes → GoMap Bytes Bytes
unfolding split put_pairs
parse_cni_args args_str = if args_str == [] then [] else put_pairs (split 59 args_str) []

-- A missing key of a map of strings reads as the empty string.
abbrev value_or_empty : Bytes → GoMap Bytes Bytes → Bytes
value_or_empty key args = elim (lookup key args) [ none ↦ [] | some v ↦ v ]

abbrev pub output_error : ℕ → Bytes → Bytes → Output
output_error code msg details =
    Output.failure (record { code = code; msg = msg; details = details })

unfoldable pub output_version : Output
output_version =
    Output.version (bytes "1.0.0")
      (bytes "0.3.0" ∷ bytes "0.3.1" ∷ bytes "0.4.0" ∷ bytes "1.0.0" ∷ [])

abbrev route_config : Route → RouteConfig
route_config r = record { dst = r.dst; gw = r.gw }

unfoldable pub cni_result : CniConfig → AddResponse → CniResult
cni_result config resp = record {
  cni_version = config.cni_version;
  ips = record { address = resp.ip; gateway = resp.gateway } ∷ [];
  routes = map route_config resp.routes;
  dns = record {
    nameservers = resp.dns.nameservers;
    domain = resp.dns.domain;
    search = resp.dns.search;
  };
}

unfoldable pub add_output : CniConfig → Result Bytes AddResponse → Output
unfolding cni_result
add_output config (err e) = output_error 4 (bytes "failed to call node agent ADD") e
add_output config (ok resp) =
    if not (resp.error == [])
    then output_error 5 (bytes "node agent returned error for ADD") resp.error
    else Output.result (cni_result config resp)

unfoldable pub del_output : Result Bytes DelResponse → Output
del_output (err e) = output_error 4 (bytes "failed to call node agent DEL") e
del_output (ok resp) =
    if not (resp.error == [])
    then output_error 5 (bytes "node agent returned error for DEL") resp.error
    else Output.silent

unfoldable pub check_output : Result Bytes CheckResponse → Output
check_output (err e) = output_error 4 (bytes "failed to call node agent CHECK") e
check_output (ok resp) =
    if not (resp.error == []) || not resp.ok
    then output_error 5 (bytes "node agent returned error for CHECK")
        (if resp.error == [] then bytes "check failed" else resp.error)
    else Output.silent

-- The environment variables that the plugin reads.
pub record Variables : Type 0 where
  pub command : Bytes
  pub container_id : Bytes
  pub netns : Bytes
  pub if_name : Bytes
  pub args_str : Bytes

-- The requests that the commands send.
unfoldable pub add_request : Variables → AddRequest
unfolding parse_cni_args
add_request env =
    let k8s_args = parse_cni_args env.args_str in
    record {
      container_id = env.container_id;
      netns = env.netns;
      if_name = env.if_name;
      pod_name = value_or_empty (bytes "K8S_POD_NAME") k8s_args;
      pod_namespace = value_or_empty (bytes "K8S_POD_NAMESPACE") k8s_args;
      args = k8s_args;
    }

unfoldable pub del_request : Variables → DelRequest
unfolding parse_cni_args
del_request env =
    let k8s_args = parse_cni_args env.args_str in
    record {
      container_id = env.container_id;
      netns = env.netns;
      if_name = env.if_name;
      pod_name = value_or_empty (bytes "K8S_POD_NAME") k8s_args;
      pod_namespace = value_or_empty (bytes "K8S_POD_NAMESPACE") k8s_args;
    }

unfoldable pub check_request : Variables → CheckRequest
unfolding parse_cni_args
check_request env =
    let k8s_args = parse_cni_args env.args_str in
    record {
      container_id = env.container_id;
      netns = env.netns;
      if_name = env.if_name;
      pod_name = value_or_empty (bytes "K8S_POD_NAME") k8s_args;
      pod_namespace = value_or_empty (bytes "K8S_POD_NAMESPACE") k8s_args;
    }

abbrev printed : {S R : Type 0} → (R → Output) → Option (S × R) → Option (S × Output)
printed print none = none
printed print (some (s, r)) = some (s, print r)

module _ (W : Wire) (H : RequestHandler) (now : ℕ) (conn : Connection) where
  -- The `switch` on the command.
  unfoldable pub run_command : CniConfig → Variables → H.State → Option (H.State × Output)
  run_command config env s =
      if env.command == bytes "ADD"
      then printed (add_output config) (client_add W H now conn (add_request env) s)
      else if env.command == bytes "DEL"
      then printed del_output (client_del W H now conn (del_request env) s)
      else if env.command == bytes "CHECK"
      then printed check_output (client_check W H now conn (check_request env) s)
      else some (s, output_error 3 (bytes "unsupported CNI_COMMAND") env.command)

  -- `main`, on what reading the standard input and unmarshalling the configuration give.
  unfoldable pub run_plugin :
      Result Bytes Bytes
      → (Bytes → Result Bytes CniConfig)
      → Variables
      → H.State
      → Option (H.State × Output)
  unfolding run_command output_version
  run_plugin (err e) unmarshal env s =
      some (s, output_error 1 (bytes "failed to read CNI config from stdin") e)
  run_plugin (ok config_text) unmarshal env s = elim (unmarshal config_text) [
    | err e ↦ some (s, output_error 2 (bytes "failed to parse CNI config JSON") e)
    | ok config ↦
        if env.command == bytes "VERSION"
        then some (s, output_version)
        else if env.command == []
        then some (s, output_error 3 (bytes "CNI_COMMAND is not set") [])
        else run_command config env s
  ]
