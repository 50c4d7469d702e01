-- ===== src/Rpc/Transport.antt =====
-- Server.handleConnection and the methods of Client (internal/grpc/protocol.go). encoding/json and
-- the connection are parameters; one request is served from its dial to its last byte.
use coordino.Base.{
  ℕ, true, Option, none, some, Bytes, bytes, bytes_eq, ◌++◌, [], ◌==◌, if◌then◌else◌, Result, ok,
  err,
}
use coordino.Rpc.{
  AddRequest, AddResponse, DelRequest, DelResponse, CheckRequest, CheckResponse, HealthResponse,
  Handled, RequestHandler,
}

-- The `Data` of a request; `nothing` is the nil of Health.
pub data Message : Type 0 where
  add : AddRequest → Message
  del : DelRequest → Message
  check : CheckRequest → Message
  nothing : Message

-- The response that the server encodes; a nil pointer is a response as well.
pub data Reply : Type 0 where
  added : Option AddResponse → Reply
  deleted : Option DelResponse → Reply
  checked : Option CheckResponse → Reply
  health : HealthResponse → Reply

-- The calls of encoding/json. An encoder that fails writes nothing; the server drops its error, so
-- `encode_reply` is what it wrote. A decoded wrapper is its method and its raw data.
pub record Wire : Type 0 where
  pub encode_request : Bytes → Message → Result Bytes Bytes
  pub decode_wrapper : Bytes → Result Bytes (Bytes × Bytes)
  pub unmarshal_add : Bytes → Result Bytes AddRequest
  pub unmarshal_del : Bytes → Result Bytes DelRequest
  pub unmarshal_check : Bytes → Result Bytes CheckRequest
  pub encode_reply : Reply → Bytes
  pub unmarshal_added : Bytes → Result Bytes AddResponse
  pub unmarshal_deleted : Bytes → Result Bytes DelResponse
  pub unmarshal_checked : Bytes → Result Bytes CheckResponse
  pub unmarshal_health : Bytes → Result Bytes HealthResponse

-- The dial's error, and what `io.ReadAll` makes of the bytes that the server wrote.
pub record Connection : Type 0 where
  pub dial : Option Bytes
  pub read_all : Bytes → Result Bytes Bytes

-- A call `resp, err = s.handler.HandleX(&req)`, of which only the response goes on.
abbrev pub replied : {S R : Type 0} → (Option R → Reply) → Handled S R → Option (S × Option Reply)
replied wrap none = none
replied wrap (some (s, resp, e)) = some (s, some (wrap resp))

-- `if err = json.Unmarshal(wrapper.Data, &req); err == nil { … }`
abbrev pub unmarshalled :
    {S Q : Type 0}
    → Result Bytes Q
    → (Q → Option (S × Option Reply))
    → S
    → Option (S × Option Reply)
unmarshalled (err e) next s = some (s, none)
unmarshalled (ok q) next s = next q

abbrev written : {S : Type 0} → (Reply → Bytes) → Option (S × Option Reply) → Option (S × Bytes)
written encode none = none
written encode (some (s, none)) = some (s, [])
written encode (some (s, some reply)) = some (s, encode reply)

module _ (W : Wire) (H : RequestHandler) (now : ℕ) where
  -- The `switch` on the method: the response, if one was set.
  unfoldable pub dispatch : Bytes → Bytes → H.State → Option (H.State × Option Reply)
  dispatch method raw s =
      if method == bytes "ADD"
      then unmarshalled (W.unmarshal_add raw) (λ q. replied Reply.added (H.handle_add q s)) s
      else if method == bytes "DEL"
      then unmarshalled (W.unmarshal_del raw) (λ q. replied Reply.deleted (H.handle_del q s)) s
      else if method == bytes "CHECK"
      then unmarshalled (W.unmarshal_check raw) (λ q. replied Reply.checked (H.handle_check q s)) s
      else if method == bytes "HEALTH"
      then some (
        s,
        some (Reply.health (record { healthy = true; version = bytes "1.0.0"; uptime = now })),
      )
      else some (s, none)

  -- The bytes that the server writes before it closes the connection.
  unfoldable pub handle_connection : Bytes → H.State → Option (H.State × Bytes)
  handle_connection request s = elim (W.decode_wrapper request) [
    | err e ↦ some (s, [])
    | ok (method, raw) ↦ written W.encode_reply (dispatch method raw s)
  ]

  abbrev received :
      (Bytes → Result Bytes Bytes)
      → Option (H.State × Bytes)
      → Option (H.State × Result Bytes Bytes)
  received read_all none = none
  received read_all (some (s, out)) = some (
    s,
    elim (read_all out) [
      | ok content ↦ ok content
      | err e ↦ err (bytes "failed to read response: " ++ e)
    ],
  )

  unfoldable pub send_request :
      Connection → Bytes → Message → H.State → Option (H.State × Result Bytes Bytes)
  send_request conn method message s = elim conn.dial [
    | some e ↦ some (s, err (bytes "failed to connect to node agent: " ++ e))
    | none ↦ elim (W.encode_request method message) [
      | err e ↦ some (s, err (bytes "failed to encode request: " ++ e))
      | ok request ↦ received conn.read_all (handle_connection request s)
    ]
  ]

  -- What each method of Client does with the bytes.
  abbrev pub unmarshal_response :
      {R : Type 0}
      → (Bytes → Result Bytes R)
      → Option (H.State × Result Bytes Bytes)
      → Option (H.State × Result Bytes R)
  unmarshal_response unmarshal none = none
  unmarshal_response unmarshal (some (s, err e)) = some (s, err e)
  unmarshal_response unmarshal (some (s, ok content)) = some (
    s,
    elim (unmarshal content) [
      | ok resp ↦ ok resp
      | err e ↦ err (bytes "failed to unmarshal response: " ++ e)
    ],
  )

  unfoldable pub client_add :
      Connection → AddRequest → H.State → Option (H.State × Result Bytes AddResponse)
  client_add conn req s =
      unmarshal_response W.unmarshal_added (send_request conn (bytes "ADD") (Message.add req) s)

  unfoldable pub client_del :
      Connection → DelRequest → H.State → Option (H.State × Result Bytes DelResponse)
  client_del conn req s =
      unmarshal_response W.unmarshal_deleted (send_request conn (bytes "DEL") (Message.del req) s)

  unfoldable pub client_check :
      Connection → CheckRequest → H.State → Option (H.State × Result Bytes CheckResponse)
  client_check conn req s =
      unmarshal_response W.unmarshal_checked
        (send_request conn (bytes "CHECK") (Message.check req) s)

  unfoldable pub client_health :
      Connection → H.State → Option (H.State × Result Bytes HealthResponse)
  client_health conn s =
      unmarshal_response W.unmarshal_health (send_request conn (bytes "HEALTH") Message.nothing s)
