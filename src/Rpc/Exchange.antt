-- ===== src/Rpc/Exchange.antt =====
-- A request of Client through handleConnection (internal/grpc/protocol.go), end to end.
use coordino.Base.{◌≡◌, refl, ℕ, Option, none, some, Bytes, bytes, bytes_beq, Result, ok}
use coordino.Rpc.{
  AddRequest, AddResponse, DelRequest, DelResponse, CheckRequest, CheckResponse, RequestHandler,
}
use coordino.Rpc.Transport.{
  Message, Reply, Wire, Connection, dispatch, handle_connection, send_request, client_add,
  client_del, client_check,
}

-- What JSON makes of one request: the server reads the method and the data that the client wrote.
pub record Carried {Q : Type 0} (W : Wire) (method : Bytes) (message : Message)
    (parse : Bytes → Result Bytes Q) (q : Q) : Type 0 where
  pub request : Bytes
  pub raw : Bytes
  pub encoded : W.encode_request method message ≡ ok request
  pub decoded : W.decode_wrapper request ≡ ok (method, raw)
  pub parsed : parse raw ≡ ok q

module _ (W : Wire) (H : RequestHandler) (now : ℕ) (conn : Connection) (dialled : conn.dial ≡ none)
    (whole : (out : Bytes) → conn.read_all out ≡ ok out) where
  -- The client gets the bytes of the server's reply.
  send_request-Carried :
      {Q : Type 0} (method : Bytes) (message : Message) (parse : Bytes → Result Bytes Q) (q : Q)
      (s t : H.State) (c : Carried W method message parse q) (reply : Reply)
      → dispatch W H now method c.raw s ≡ some (t, some reply)
      → send_request W H now conn method message s ≡ some (t, ok (W.encode_reply reply))
  unfolding send_request handle_connection
  send_request-Carried method message parse q s t c reply replies =
      rw (dialled, send_request)
        (rw (c.encoded, send_request)
          (rw (c.decoded, handle_connection) (rw replies (rw (whole (W.encode_reply reply)) refl))))

  -- The client gets the very response of the handler.
  pub client_add-handle_add :
      (req : AddRequest) (s t : H.State) (resp : AddResponse) (e : Option Bytes)
      → Carried W (bytes "ADD") (Message.add req) W.unmarshal_add req
      → W.unmarshal_added (W.encode_reply (Reply.added (some resp))) ≡ ok resp
      → H.handle_add req s ≡ some (t, some resp, e)
      → client_add W H now conn req s ≡ some (t, ok resp)
  unfolding client_add dispatch bytes_beq
  client_add-handle_add req s t resp e c answered handled =
      let replies : dispatch W H now (bytes "ADD") c.raw s
          ≡ some (t, some (Reply.added (some resp))) =
        rw (c.parsed, dispatch) (rw handled refl) in
      rw (send_request-Carried (bytes "ADD") (Message.add req) W.unmarshal_add req s t c _ replies)
        (rw answered refl)

  client_del-handle_del :
      (req : DelRequest) (s t : H.State) (resp : DelResponse) (e : Option Bytes)
      → Carried W (bytes "DEL") (Message.del req) W.unmarshal_del req
      → W.unmarshal_deleted (W.encode_reply (Reply.deleted (some resp))) ≡ ok resp
      → H.handle_del req s ≡ some (t, some resp, e)
      → client_del W H now conn req s ≡ some (t, ok resp)
  unfolding client_del dispatch bytes_beq
  client_del-handle_del req s t resp e c answered handled =
      let replies : dispatch W H now (bytes "DEL") c.raw s
          ≡ some (t, some (Reply.deleted (some resp))) =
        rw (c.parsed, dispatch) (rw handled refl) in
      rw (send_request-Carried (bytes "DEL") (Message.del req) W.unmarshal_del req s t c _ replies)
        (rw answered refl)

  client_check-handle_check :
      (req : CheckRequest) (s t : H.State) (resp : CheckResponse) (e : Option Bytes)
      → Carried W (bytes "CHECK") (Message.check req) W.unmarshal_check req
      → W.unmarshal_checked (W.encode_reply (Reply.checked (some resp))) ≡ ok resp
      → H.handle_check req s ≡ some (t, some resp, e)
      → client_check W H now conn req s ≡ some (t, ok resp)
  unfolding client_check dispatch bytes_beq
  client_check-handle_check req s t resp e c answered handled =
      let replies : dispatch W H now (bytes "CHECK") c.raw s
          ≡ some (t, some (Reply.checked (some resp))) =
        rw (c.parsed, dispatch) (rw handled refl) in
      rw
        (send_request-Carried (bytes "CHECK") (Message.check req) W.unmarshal_check req s t c _
          replies)
        (rw answered refl)
