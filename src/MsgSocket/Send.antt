-- ===== src/MsgSocket/Send.antt =====
-- MsgSocket.cpp: sending. The loop runs on fuel, and is `none` when the fuel runs out.
pub mod Message
pub mod Requests
pub mod Queue
pub mod Refusals
pub mod Oversized
use hex.Base.{
  ℕ, zero, suc, ◌+◌, Bool, true, false, not, ◌&&◌, Option, none, some, List, [], ◌∷◌, ◌++◌, ℤ, pos,
  negsuc, ◌+ℤ◌, ◌-ℤ◌, ltb_ℤ, pos_part, neg_part, ◌==◌, ltb, if◌then◌else◌, length, take,
}
use hex.Protocol.{Bytes, L1MessageId, none_id, L1MsgHeader, message_id_value, MsgRequest}
use hex.Request.{ByteOrder}
use hex.Request.Any.{AnyRequest, single, has_data_to_send, build_next, Built}
use hex.Server.{ErrorType, ignore, fatal}
use hex.MsgSocket.{
  MsgSocket, System, SendResult, sent, not_sent, Errno, ewouldblock, Fault, assertion,
  disconnection, text, overrun, Io, Out, ok, raised, Action, pure, fail, check, modify, get, ◌>>=◌,
  ◌>>◌, TxState, tx_init, tx_ready, tx_busy, tx_reset, rx_reset, discard_data_buffers,
  get_tx_error_type, header_bytes,
}

-- sizeof(ClientServerL1MsgHeader)
abbrev pub header_size : ℕ
header_size = 8

-- minus a number
abbrev pub minus : ℕ → ℤ
minus n = pos 0 -ℤ pos n

unfoldable pub send_msg : MsgRequest → MsgSocket → MsgSocket
send_msg m s = record s { tx_fifo = s.tx_fifo ++ single m 0 ∷ [] }

-- the head of the queue, moved to tx_req_ptr, or NULL
popped : List AnyRequest → MsgSocket → MsgSocket
popped [] s = record s { tx_req_ptr = none }
popped (r ∷ rs) s = record s { tx_req_ptr = some r; tx_fifo = rs }

unfoldable pub tx_pop_next_request : MsgSocket → MsgSocket
unfolding popped
tx_pop_next_request s = popped s.tx_fifo s

module _ {N : Type 0} (sys : System N) where
  -- the rest of _socketSend where the system refuses
  send_refused : Errno → ErrorType → Action N ℤ
  send_refused ewouldblock t io =
      ok (minus (sys.errno_value ewouldblock))
        (record io { sock = record io.sock { tx_state = tx_busy } })
  send_refused e ErrorType.disconnected io = raised disconnection io
  send_refused e t io = ok (minus (sys.errno_value e)) io

  send_result : SendResult × N → Action N ℤ
  unfolding send_refused get_tx_error_type
  send_result (sent n, net) io = ok (pos n) (record io { net = net })
  send_result (not_sent e, net) io =
      send_refused e (get_tx_error_type e) (record io { net = net; errno = e })

  -- `_socketSend(buffer, n)`; the bytes behind the object that `buffer` points to are no bytes of it
  unfoldable pub socket_send : Bytes → (n : ℕ) → Action N ℤ
  unfolding send_result
  socket_send buffer n io =
      if ltb (length buffer) n
      then raised overrun io
      else send_result (sys.send io.net (take n buffer)) io

  prepared : Option Built → MsgSocket → Option MsgSocket
  prepared none s = none
  prepared (some b) s = some (record s {
    tx_req_ptr = some b.request;
    tx_l1_msg_id = b.msg_id;
    tx_msg = b.body;
    tx_msg_length = b.nb_bytes + header_size;
    tx_header = record s.tx_header {
      id = sys.order.htons (message_id_value b.msg_id);
      lenght = sys.order.htonl (b.nb_bytes + header_size);
      from = s.from;
    };
  })

  -- `if (!tx_msg) ...`: retrieve the next message and build its header
  prepare_at : Option Bytes → AnyRequest → MsgSocket → Option MsgSocket
  unfolding prepared
  prepare_at (some body) r s = some s
  prepare_at none r s = prepared (build_next sys.order r s.tx_l1_msg_id 0) s

  or_assertion : Option MsgSocket → Action N (Unit {0})
  or_assertion none io = raised assertion io
  or_assertion (some s) io = ok tt (record io { sock = s })

  unfoldable pub prepare : AnyRequest → Action N (Unit {0})
  unfolding prepare_at or_assertion
  prepare r io = or_assertion (prepare_at io.sock.tx_msg r io.sock) io

  unfoldable pub add_length : ℤ → Action N (Unit {0})
  add_length nb = modify (λ s. record s { tx_length = s.tx_length +ℤ nb })

  -- `false` is a `break`
  unfoldable pub send_header : Action N Bool
  unfolding socket_send add_length
  send_header io =
      if neg_part io.sock.tx_length + pos_part io.sock.tx_length == 0
      then (do
        nb ← socket_send (header_bytes io.sock.tx_header) header_size
        if ltb_ℤ nb (pos 0) then pure false else (do add_length nb; pure true))
          io
      else ok true io

  body_of : Option Bytes → Bytes
  body_of none = []
  body_of (some b) = b

  -- `nb_sent == EWOULDBLOCK`
  unfoldable pub is_would_block : ℤ → Bool
  is_would_block nb = pos_part nb == sys.errno_value ewouldblock && neg_part nb == 0

  -- what follows the call for the body; `false` is a `break`
  unfoldable pub count_sent : ℤ → Action N Bool
  unfolding is_would_block add_length
  count_sent nb =
      if is_would_block nb
      then (do modify (λ s. record s { tx_state = tx_busy }); pure false)
      else (do add_length nb; pure true)

  unfoldable pub send_body : Action N Bool
  unfolding socket_send body_of count_sent
  send_body io =
      if ltb_ℤ io.sock.tx_length (pos io.sock.tx_msg_length)
      then (do
        nb ←
            socket_send (body_of io.sock.tx_msg)
              (pos_part (pos io.sock.tx_msg_length -ℤ io.sock.tx_length))
        count_sent nb)
          io
      else ok true io

  unfoldable pub finish_msg : Action N (Unit {0})
  unfolding tx_reset
  finish_msg io =
      if pos_part io.sock.tx_length == io.sock.tx_msg_length && neg_part io.sock.tx_length == 0
      then ok tt (record io { sock = tx_reset io.sock })
      else ok tt io

  -- the branch of the loop for a request with data to send
  unfoldable pub send_message : AnyRequest → Action N Bool
  unfolding prepare send_header send_body finish_msg
  send_message r = do
    prepare r
    go ← send_header
    if go
        then (do go' ← send_body; if go' then (do finish_msg; pure true) else pure false)
        else pure false

  -- the branch for a request that has been served
  unfoldable pub next_request : Action N Bool
  unfolding tx_pop_next_request
  next_request io =
      (do
        check (neg_part io.sock.tx_length + pos_part io.sock.tx_length == 0)
        check (io.sock.tx_msg_length == 0)
        modify tx_pop_next_request
        modify (λ s. record s { tx_l1_msg_id = none_id })
        pure true)
        io

  -- one round of the loop, whose condition holds with the request `r`
  unfoldable pub send_round : AnyRequest → Action N Bool
  unfolding send_message next_request
  send_round r = if has_data_to_send r then send_message r else next_request

  next_round : (Io N → Option (Out N (Unit {0}))) → Out N Bool → Option (Out N (Unit {0}))
  next_round loop (ok true io) = loop io
  next_round loop (ok false io) = some (ok tt io)
  next_round loop (raised e io) = some (raised e io)

  while_ready :
      (Io N → Option (Out N (Unit {0})))
      → TxState
      → Option AnyRequest
      → Io N
      → Option (Out N (Unit {0}))
  while_ready loop tx_ready (some r) io = next_round loop (send_round r io)
  while_ready loop _ _ io = some (ok tt io)

  unfoldable pub send_rounds : (fuel : ℕ) → Io N → Option (Out N (Unit {0}))
  unfolding while_ready next_round
  send_rounds zero io = none
  send_rounds (suc fuel) io = while_ready (send_rounds fuel) io.sock.tx_state io.sock.tx_req_ptr io

  started : Option AnyRequest → MsgSocket → MsgSocket
  unfolding tx_pop_next_request
  started none s = tx_pop_next_request s
  started (some r) s = s

  unfoldable pub send_loop : (fuel : ℕ) → Io N → Option (Out N (Unit {0}))
  unfolding started send_rounds
  send_loop fuel io = send_rounds fuel (record io { sock = started io.sock.tx_req_ptr io.sock })

  pending : Option AnyRequest → Bool
  pending none = false
  pending (some r) = true

  -- the exception is thrown again once the socket is reset
  after_sending : Out N (Unit {0}) → Out N Bool
  unfolding pending tx_reset rx_reset discard_data_buffers
  after_sending (ok u io) = ok (pending io.sock.tx_req_ptr) io
  after_sending (raised disconnection io) =
      raised disconnection (record io { sock = discard_data_buffers (rx_reset (tx_reset io.sock)) })
  after_sending (raised e io) = raised e io

  abbrev in_time : {A B : Type 0} → (A → B) → Option A → Option B
  in_time f none = none
  in_time f (some a) = some (f a)

  -- whether there may be more to send
  unfoldable pub send_next_data : (fuel : ℕ) → Io N → Option (Out N Bool)
  unfolding send_loop after_sending
  send_next_data fuel io =
      in_time after_sending
        (send_loop fuel (record io { sock = record io.sock { tx_state = tx_ready } }))
