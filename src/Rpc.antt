-- ===== src/Rpc.antt =====
-- The messages between the CNI plugin and the node agent (internal/grpc/protocol.go), and the
-- interface RequestHandler. A handler returns its new state, the pointer to the response (`none` for
-- nil) and the text of its error; `none` for the whole is a panic.
pub mod Transport
pub mod Exchange
use coordino.Base.{ℕ, Bool, Option, List, Bytes}
use coordino.Base.GoMap.{GoMap}

pub record AddRequest : Type 0 where
  pub container_id : Bytes
  pub netns : Bytes
  pub if_name : Bytes
  pub pod_name : Bytes
  pub pod_namespace : Bytes
  pub args : GoMap Bytes Bytes

pub record Route : Type 0 where
  pub dst : Bytes
  pub gw : Bytes

pub record DnsConfig : Type 0 where
  pub nameservers : List Bytes
  pub domain : Bytes
  pub search : List Bytes

pub record AddResponse : Type 0 where
  pub ip : Bytes
  pub gateway : Bytes
  pub routes : List Route
  pub dns : DnsConfig
  pub error : Bytes

pub record DelRequest : Type 0 where
  pub container_id : Bytes
  pub netns : Bytes
  pub if_name : Bytes
  pub pod_name : Bytes
  pub pod_namespace : Bytes

pub record DelResponse : Type 0 where
  pub error : Bytes

pub record CheckRequest : Type 0 where
  pub container_id : Bytes
  pub netns : Bytes
  pub if_name : Bytes
  pub pod_name : Bytes
  pub pod_namespace : Bytes

pub record CheckResponse : Type 0 where
  pub ok : Bool
  pub error : Bytes

pub record HealthResponse : Type 0 where
  pub healthy : Bool
  pub version : Bytes
  pub uptime : ℕ

-- What a handler's method leaves.
abbrev pub Handled : Type 0 → Type 0 → Type 0
Handled S R = Option (S × Option R × Option Bytes)

pub record RequestHandler : Type 1 where
  pub State : Type 0
  pub handle_add : AddRequest → State → Handled State AddResponse
  pub handle_del : DelRequest → State → Handled State DelResponse
  pub handle_check : CheckRequest → State → Handled State CheckResponse
