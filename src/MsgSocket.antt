-- ===== src/MsgSocket.antt =====
-- MsgSocket.h and MsgSocket.cpp: a socket that carries messages, without its loops, which are in the
-- children. The system calls are a parameter.
pub mod Send
pub mod Receive
pub mod Stream
pub mod Exchange
pub mod Sample
mod Tests
use hex.Base.{
  ℕ, zero, suc, ◌+◌, ◌/◌, ◌%◌, Bool, true, false, Option, none, some, List, [], ◌∷◌, ◌++◌, ℤ, pos,
  negsuc,
}
use hex.Protocol.{
  Bytes, TransferDirection, from_server, from_client, L1MessageId, none_id, L1MsgHeader,
}
use hex.Request.{ByteOrder}
use hex.Request.Any.{AnyRequest}
use hex.Server.{ErrorType, ignore, fatal}

pub data SockState : Type 0 where
  sock_null sock_error sock_disconnected sock_connecting sock_connected : SockState

pub data TxState : Type 0 where
  tx_init tx_ready tx_busy : TxState

pub data RxState : Type 0 where
  rx_init rx_idle rx_data : RxState

-- the values of errno that the code names
pub data Errno : Type 0 where
  ewouldblock econnreset enotconn etimedout eio enobufs enomem ebadf eintr einval enotsock : Errno
  eopnotsupp emsgsize edestaddrreq epipe enetdown enetunreach other : Errno

-- a message under reception: its length in host order, and the bytes stored behind the length
pub record RxPart : Type 0 where
  pub lenght : ℕ
  pub raw : Bytes

-- a message received, in host order; a byte that the peer did not send is 0
pub record RxMsg : Type 0 where
  pub lenght : ℕ
  pub id : ℕ
  pub from : ℕ
  pub l1_body : Bytes

pub record MsgSocket : Type 0 where
  pub sock_state : SockState
  pub socket_descr : ℤ
  pub from : TransferDirection
  pub tx_state : TxState
  pub tx_length : ℤ
  pub tx_msg_length : ℕ
  pub tx_l1_msg_id : L1MessageId
  pub tx_msg : Option Bytes
  pub tx_header : L1MsgHeader
  pub rx_state : RxState
  pub rx_lenght : ℕ
  pub rx_msg : Option RxPart
  pub tx_fifo : List AnyRequest
  pub tx_req_ptr : Option AnyRequest
  pub rx_fifo : List RxMsg

-- the results of ::send and ::recv
pub data SendResult : Type 0 where
  sent : ℕ → SendResult
  not_sent : Errno → SendResult

pub data RecvResult : Type 0 where
  received : Bytes → RecvResult
  not_received : Errno → RecvResult

-- The system, with states in `N`. `send` is given the bytes of the buffer, `recv` the length of the
-- buffer and whether MSG_PEEK is set.
pub record System (N : Type 0) : Type 0 where
  pub send : N → Bytes → SendResult × N
  pub recv : N → ℕ → Bool → RecvResult × N
  pub errno_value : Errno → ℕ
  pub order : ByteOrder

-- what a function can end with: a failed assertion, the exception socket_disconnection, an exception
-- that is a text, or an access outside a buffer
pub data Fault : Type 0 where
  assertion disconnection text overrun : Fault

-- the socket with the system and errno
pub record Io (N : Type 0) : Type 0 where
  pub sock : MsgSocket
  pub net : N
  pub errno : Errno

pub data Out (N : Type 0) (A : Type 0) : Type 0 where
  ok : A → Io N → Out N A
  raised : Fault → Io N → Out N A

abbrev pub Action : Type 0 → Type 0 → Type 0
Action N A = Io N → Out N A

module _ {N : Type 0} where
  abbrev pub pure : {A : Type 0} → A → Action N A
  pure a io = ok a io

  abbrev pub fail : {A : Type 0} → Fault → Action N A
  fail f io = raised f io

  abbrev pub check : Bool → Action N (Unit {0})
  check true io = ok tt io
  check false io = raised assertion io

  abbrev pub modify : (MsgSocket → MsgSocket) → Action N (Unit {0})
  modify f io = ok tt (record io { sock = f io.sock })

  abbrev pub get : Action N MsgSocket
  get io = ok io.sock io

abbrev pub and_then : {N A B : Type 0} → (A → Action N B) → Out N A → Out N B
and_then f (ok a io) = f a io
and_then f (raised e io) = raised e io

infixl 5 ◌>>=◌ ◌>>◌
abbrev pub ◌>>=◌ : {N A B : Type 0} → Action N A → (A → Action N B) → Action N B
◌>>=◌ m f io = and_then f (m io)

abbrev pub ◌>>◌ : {N A B : Type 0} → Action N A → Action N B → Action N B
m >> k = m >>= λ _. k

unfoldable pub tx_reset : MsgSocket → MsgSocket
tx_reset s = record s {
  tx_state = tx_init;
  tx_length = pos 0;
  tx_msg_length = 0;
  tx_msg = none;
  tx_l1_msg_id = none_id;
}

unfoldable pub rx_reset : MsgSocket → MsgSocket
rx_reset s = record s { rx_state = rx_init; rx_lenght = 0 }

unfoldable pub discard_data_buffers : MsgSocket → MsgSocket
discard_data_buffers s = record s { rx_fifo = []; tx_fifo = [] }

-- the constructor, on a header that the memory held
unfoldable pub msg_socket : (header : L1MsgHeader) (descr : ℤ) → TransferDirection → MsgSocket
unfolding tx_reset rx_reset
msg_socket header descr sending_from = tx_reset (
    rx_reset (record {
      sock_state = sock_null;
      socket_descr = descr;
      from = sending_from;
      tx_state = tx_init;
      tx_length = pos 0;
      tx_msg_length = 0;
      tx_l1_msg_id = none_id;
      tx_msg = none;
      tx_header = header;
      rx_state = rx_init;
      rx_lenght = 0;
      rx_msg = none;
      tx_fifo = [];
      tx_req_ptr = none;
      rx_fifo = [];
    }))

-- the class socket_disconnection
pub record SocketDisconnection : Type 0 where
  pub err_msg : Bytes
  pub sys_errno : ℕ

-- the constructor: `err_msg += err` appends one character
unfoldable pub socket_disconnection : (msg : Bytes) (err : ℕ) → SocketDisconnection
socket_disconnection msg err = record {
  err_msg = msg ++ b',' ∷ 32 ∷ b'e' ∷ b'r' ∷ b'r' ∷ b'n' ∷ b'o' ∷ b':' ∷ err % 256 ∷ [];
  sys_errno = err;
}

unfoldable pub stop_socket : MsgSocket → MsgSocket
unfolding discard_data_buffers tx_reset rx_reset
stop_socket s = record (rx_reset (tx_reset (discard_data_buffers s))) {
  sock_state = sock_null;
  socket_descr = negsuc 0;
}

-- MsgSocket::_getRxErrorType; `none` is the exception thrown
unfoldable pub rx_error_type : Errno → Option ErrorType
rx_error_type ewouldblock = some ignore
rx_error_type econnreset = some ErrorType.disconnected
rx_error_type enotconn = some ErrorType.disconnected
rx_error_type etimedout = some ErrorType.disconnected
rx_error_type _ = none

-- the virtual _getRxErrorType: the class ClientSocket, which sends as FROM_CLIENT, overrides it
rx_error_type_at : TransferDirection → SockState → Errno → Option ErrorType
unfolding rx_error_type
rx_error_type_at from_client sock_connecting eintr = some ignore
rx_error_type_at _ _ e = rx_error_type e

unfoldable pub get_rx_error_type : MsgSocket → Errno → Option ErrorType
unfolding rx_error_type_at
get_rx_error_type s e = rx_error_type_at s.from s.sock_state e

unfoldable pub get_tx_error_type : Errno → ErrorType
get_tx_error_type ewouldblock = ignore
get_tx_error_type emsgsize = ignore
get_tx_error_type econnreset = ErrorType.disconnected
get_tx_error_type enotconn = ErrorType.disconnected
get_tx_error_type etimedout = ErrorType.disconnected
get_tx_error_type edestaddrreq = ErrorType.disconnected
get_tx_error_type epipe = ErrorType.disconnected
get_tx_error_type enetdown = ErrorType.disconnected
get_tx_error_type enetunreach = ErrorType.disconnected
get_tx_error_type _ = fatal

-- the bytes of an int and of a short in memory
abbrev pub int_bytes : ℕ → Bytes
int_bytes v = v % 256 ∷ v / 256 % 256 ∷ v / 65536 % 256 ∷ v / 16777216 % 256 ∷ []

abbrev pub short_bytes : ℕ → Bytes
short_bytes v = v % 256 ∷ v / 256 % 256 ∷ []

abbrev pub direction_byte : TransferDirection → ℕ
direction_byte from_server = 0
direction_byte from_client = 1

abbrev pub header_bytes : L1MsgHeader → Bytes
header_bytes h = int_bytes h.lenght ++ short_bytes h.id ++ direction_byte h.from ∷ h.notyetused ∷ []

-- the values of si_code that SignalSIGIOHandler tells apart
pub data SigioCode : Type 0 where
  poll_in poll_msg poll_pri poll_out poll_err poll_hup other : SigioCode

unfoldable pub signal_sigio_handler : SigioCode → MsgSocket → MsgSocket
signal_sigio_handler poll_in s = record s { rx_state = rx_data; sock_state = sock_connected }
signal_sigio_handler poll_out s = record s { tx_state = tx_ready; sock_state = sock_connected }
signal_sigio_handler poll_err s = record s {
  tx_state = tx_init;
  rx_state = rx_init;
  sock_state = sock_error;
}
signal_sigio_handler poll_hup s = record s {
  tx_state = tx_init;
  rx_state = rx_init;
  sock_state = sock_disconnected;
}
signal_sigio_handler _ s = s
