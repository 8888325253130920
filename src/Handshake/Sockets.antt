-- ===== src/Handshake/Sockets.antt =====
-- The first message of a client (ClientConnection.cpp), through its socket and that of the server
-- (MsgSocket.cpp), to the connection there (ServerClientConnection.cpp).
use hex.Base.{
  ℕ, ◌≤◌, ◌≡◌, true, some, List, ◌++◌, map, length, get_elem?, take, ◌==◌, if◌then◌else◌,
}
use hex.Protocol.{
  Bytes, L1MessageId, none_id, connection_req, connection_cnf, connection_rej, user_logging_req,
  user_logging_cnf, user_logging_rej, registration_req, registration_cnf, registration_rej,
  disconnection_req, disconnection_cnf, poll_req, poll_cnf, data_transfer_req, transfer_data_blk,
  file_transfer_req, unknown, L1Msg, MsgRequest, put_string, main_version,
}
use hex.Request.Any.{AnyRequest, single}
use hex.MsgSocket.{MsgSocket, System, RxMsg}
use hex.MsgSocket.Stream.{IsByteOrder, IsStream, SendsWhole}
use hex.Client
use hex.Server
use hex.Handshake.{started}

-- `l1_hdr->id` read as the enumerator after its value was written
unfoldable pub message_id_of : ℕ → L1MessageId
message_id_of n =
    if n == 0
    then none_id
    else if n == 1
    then connection_req
    else if n == 2
    then connection_cnf
    else if n == 3
    then connection_rej
    else if n == 4
    then user_logging_req
    else if n == 5
    then user_logging_cnf
    else if n == 6
    then user_logging_rej
    else if n == 7
    then registration_req
    else if n == 8
    then registration_cnf
    else if n == 9
    then registration_rej
    else if n == 10
    then disconnection_req
    else if n == 11
    then disconnection_cnf
    else if n == 12
    then poll_req
    else if n == 13
    then poll_cnf
    else if n == 14
    then data_transfer_req
    else if n == 15
    then transfer_data_blk
    else if n == 16
    then file_transfer_req
    else unknown n

-- the message that a connection gets from its socket; `junk` is what the memory of the body held
-- behind the bytes received
unfoldable pub l1_msg_of : (junk : Bytes) → RxMsg → L1Msg
unfolding message_id_of
l1_msg_of junk m = record { l1_msg_id = message_id_of m.id; l1_body = m.l1_body ++ junk }

-- the requests of a connection in the queue of its socket
abbrev pub queue_of : List MsgRequest → List AnyRequest
queue_of ms = map (λ m. single m 0) ms

-- the state of the server after the client's first message, by the byte behind its version string
abbrev pub greeted : (byte : ℕ) → Server.State
greeted b = if b == 0 then Server.registering else Server.conn_rejected

module _ (r1 r2 junk : Bytes) (b : ℕ) (byte : get_elem? r1 18 ≡ some b)
    (room : 32 ≤ length r1) where
  -- the body that the server's connection is handed
  abbrev crossed : Bytes
  crossed = take 32 (put_string 0 main_version r1) ++ junk

  -- what the two sockets and the wire between them need
  module _ {N M : Type 0} (sys : System N) (wire : N → Bytes) (next : N → Bytes → N)
      (sends : SendsWhole sys wire next) (peer : System M) (unread : M → Bytes)
      (order : IsByteOrder peer.order) (stream : IsStream peer unread true) (arriving : Bytes → M)
      (arriving-unread : (bs : Bytes) → unread (arriving bs) ≡ bs) where
    -- the client's request, in the queue of its socket
    abbrev pub greeting : List AnyRequest
    greeting = queue_of (started r1).tx_fifo
