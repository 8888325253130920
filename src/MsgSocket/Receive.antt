-- ===== src/MsgSocket/Receive.antt =====
-- MsgSocket.cpp: receiving. The loop runs on fuel, and is `none` when the fuel runs out.
pub mod Portions
pub mod Rounds
pub mod Delivery
use hex.Base.{
  ℕ, zero, suc, ◌+◌, ◌-◌, ◌*◌, Bool, true, false, not, ◌&&◌, Option, none, some, List, [], ◌∷◌,
  ◌++◌, ◌==◌, ltb, if◌then◌else◌, length, drop,
}
use hex.Protocol.{Bytes, int_of}
use hex.Request.{ByteOrder}
use hex.Server.{ErrorType, ignore, fatal}
use hex.MsgSocket.{
  MsgSocket, System, RecvResult, received, not_received, Errno, ewouldblock, Fault, assertion,
  disconnection, text, overrun, Io, Out, ok, raised, Action, pure, fail, check, modify, get, ◌>>=◌,
  ◌>>◌, RxState, rx_init, rx_idle, rx_data, RxPart, RxMsg, tx_reset, rx_reset, discard_data_buffers,
  get_rx_error_type, SockState, sock_disconnected,
}

-- sizeof(ClientServerL1Msg)
abbrev pub msg_size : ℕ
msg_size = 8200

abbrev pub short_of : Bytes → ℕ
short_of (a ∷ b ∷ bs) = a + 256 * b
short_of (a ∷ []) = a
short_of [] = 0

abbrev pub first_byte : Bytes → ℕ
first_byte [] = 0
first_byte (b ∷ bs) = b

is_idle_error : Errno → Bool
is_idle_error ewouldblock = true
is_idle_error _ = false

front : List RxMsg → MsgSocket → MsgSocket × Option RxMsg
front [] s = (s, none)
front (m ∷ ms) s = (record s { rx_fifo = ms }, some m)

unfoldable pub get_next_received_msg : MsgSocket → MsgSocket × Option RxMsg
unfolding front
get_next_received_msg s = front s.rx_fifo s

error_type_in : SockState → Option Errno → MsgSocket → Option ErrorType
unfolding get_rx_error_type
error_type_in sock_disconnected error s = some ErrorType.disconnected
error_type_in _ none s = some ignore
error_type_in _ (some e) s = get_rx_error_type s e

-- _determineErrorType, on the error that ::recvmsg meets
unfoldable pub determine_error_type : (error : Option Errno) → MsgSocket → Option ErrorType
unfolding error_type_in
determine_error_type error s = error_type_in s.sock_state error s

abbrev pub is_empty : List RxMsg → Bool
is_empty [] = true
is_empty (m ∷ ms) = false

module _ {N : Type 0} (sys : System N) where
  -- the rest of _socketReceive where the system returns an error
  receive_refused : Errno → Option ErrorType → Action N RecvResult
  receive_refused e none io = raised text io
  receive_refused e (some ErrorType.disconnected) io = raised disconnection io
  receive_refused e (some t) io = ok (not_received e) io

  pub receive_result : RecvResult × N → Action N RecvResult
  unfolding receive_refused get_rx_error_type
  receive_result (received bs, net) io = ok (received bs) (record io { net = net })
  receive_result (not_received e, net) io =
      receive_refused e (get_rx_error_type io.sock e) (record io { net = net; errno = e })

  unfoldable pub socket_receive : (len : ℕ) (peek : Bool) → Action N RecvResult
  unfolding receive_result
  socket_receive len peek io = receive_result (sys.recv io.net len peek) io

  -- a new message of the length read, in place of rx_msg
  begun : Bytes → MsgSocket → MsgSocket
  begun bs s = record s {
    rx_msg = some (record { lenght = sys.order.ntohl (int_of bs); raw = [] });
    rx_lenght = 4;
  }

  consumed : RecvResult → Action N Bool
  unfolding begun int_of
  consumed (received bs) = do check (length bs == 4); modify (begun bs); pure true
  consumed (not_received e) = fail assertion

  waiting : Action N Bool
  waiting = do modify (λ s. record s { rx_state = rx_idle; rx_msg = none }); pure false

  peeked : RecvResult → Action N Bool
  unfolding consumed waiting socket_receive
  peeked (received bs) =
      if length bs == 4 then (do r ← socket_receive 4 false; consumed r) else waiting
  peeked (not_received e) = waiting

  -- _recvBeginNewMsg; `false` is the null pointer
  unfoldable pub recv_begin_new_msg : Action N Bool
  unfolding peeked socket_receive
  recv_begin_new_msg = do r ← socket_receive 4 true; peeked r

  stored : RxPart → RecvResult → Action N Bool
  unfolding is_idle_error
  stored m (received []) io = (do check (is_idle_error io.errno); pure false) io
  stored m (received (b ∷ bs)) io =
      if ltb msg_size (io.sock.rx_lenght + suc (length bs))
      then raised overrun io
      else ok true (record io {
        sock = record io.sock {
          rx_lenght = io.sock.rx_lenght + suc (length bs);
          rx_msg = some (record m { raw = m.raw ++ b ∷ bs });
        };
      })
  stored m (not_received e) io = (do check (is_idle_error io.errno); pure false) io

  complete : RxPart → RxMsg
  complete m = record {
    lenght = m.lenght;
    id = sys.order.ntohs (short_of m.raw);
    from = first_byte (drop 2 m.raw);
    l1_body = drop 4 m.raw;
  }

  queued : RxPart → MsgSocket → MsgSocket
  unfolding complete
  queued m s = record s { rx_fifo = s.rx_fifo ++ complete m ∷ []; rx_msg = none; rx_lenght = 0 }

  -- the `int` nb is the length less the bytes read; a length from 2^31 on is negative
  is_positive : (lenght rx_lenght : ℕ) → Bool
  is_positive lenght rx_lenght = ltb lenght 2147483648 && ltb rx_lenght lenght

  advance_at : Option RxPart → Action N Bool
  unfolding is_positive stored queued socket_receive
  advance_at none io = raised overrun io
  advance_at (some m) io =
      if is_positive m.lenght io.sock.rx_lenght
      then (do r ← socket_receive (m.lenght - io.sock.rx_lenght) false; stored m r) io
      else (do check (m.lenght == io.sock.rx_lenght); modify (queued m); pure true) io

  -- the rest of a round, once a message is under reception
  unfoldable pub recv_advance : Action N Bool
  unfolding advance_at
  recv_advance io = advance_at io.sock.rx_msg io

  -- one round of the loop; `false` is a `break`
  unfoldable pub recv_round : Action N Bool
  unfolding recv_begin_new_msg recv_advance
  recv_round io =
      if io.sock.rx_lenght == 0
      then (do
        modify (λ s. record s { rx_msg = none })
        begun ← recv_begin_new_msg
        if begun then recv_advance else pure false)
          io
      else recv_advance io

  next_recv : (Io N → Option (Out N (Unit {0}))) → Out N Bool → Option (Out N (Unit {0}))
  next_recv loop (ok true io) = loop io
  next_recv loop (ok false io) = some (ok tt io)
  next_recv loop (raised e io) = some (raised e io)

  while_data : (Io N → Option (Out N (Unit {0}))) → RxState → Io N → Option (Out N (Unit {0}))
  while_data loop rx_data io = next_recv loop (recv_round io)
  while_data loop _ io = some (ok tt io)

  unfoldable pub recv_loop : (fuel : ℕ) → Io N → Option (Out N (Unit {0}))
  unfolding while_data next_recv
  recv_loop zero io = none
  recv_loop (suc fuel) io = while_data (recv_loop fuel) io.sock.rx_state io

  -- the exception is thrown again once the socket is reset
  after_receiving : Out N (Unit {0}) → Out N Bool
  unfolding tx_reset rx_reset discard_data_buffers
  after_receiving (ok u io) = ok (not (is_empty io.sock.rx_fifo)) io
  after_receiving (raised disconnection io) =
      raised disconnection (record io { sock = discard_data_buffers (rx_reset (tx_reset io.sock)) })
  after_receiving (raised e io) = raised e io

  abbrev in_time : {A B : Type 0} → (A → B) → Option A → Option B
  in_time f none = none
  in_time f (some a) = some (f a)

  -- whether there are messages to handle
  unfoldable pub recv_next_data : (fuel : ℕ) → Io N → Option (Out N Bool)
  unfolding recv_loop after_receiving
  recv_next_data fuel io =
      in_time after_receiving
        (recv_loop fuel (record io { sock = record io.sock { rx_state = rx_data } }))
