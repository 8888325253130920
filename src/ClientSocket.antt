-- ===== src/ClientSocket.antt =====
-- ClientSocket.h and .cpp: the socket of the client. Its system calls are parameters.
pub mod Poll
mod Tests
use hex.Base.{ℕ, Bool, true, false, ◌||◌, Option, none, some, List, [], ◌∷◌, ℤ, if◌then◌else◌}
use hex.Protocol.{TransferDirection, from_server, from_client, L1MsgHeader}
use hex.Request.Any.{AnyRequest}
use hex.Server.{ErrorType}
use hex.MsgSocket.{
  MsgSocket, System, Errno, ewouldblock, Fault, assertion, disconnection, text, Io, Out, ok, raised,
  Action, and_then, ◌>>=◌, ◌>>◌, check, modify, SockState, sock_disconnected, sock_connecting,
  sock_connected, msg_socket,
}
use hex.MsgSocket.Send.{send_next_data}
use hex.MsgSocket.Receive.{recv_next_data, determine_error_type}

-- the values of errno that connect() tells apart
pub data ConnectError : Type 0 where
  einprogress eintr enobufs enetdown ehostunreach econnreset econnrefused eafnosupport :
      ConnectError
  ebadf eprototype enotsock einval eopnotsupp ealready eisconn eaddrinuse eaddrnotavail :
      ConnectError
  etimedout eio eloop enametoolong eacces enoent enotdir other : ConnectError

-- the calls for a socket: fcntl and connect with their error, recvmsg with MSG_PEEK with its error
pub record Calls (N : Type 0) : Type 0 where
  pub configure : N → Bool × N
  pub connect : N → Option ConnectError × N
  pub peek_error : N → Option Errno × N

-- what ::poll reports of the socket
pub record Revents : Type 0 where
  pub pollhup : Bool
  pub pollerr : Bool
  pub pollrdnorm : Bool
  pub pollwrnorm : Bool

-- the result of ::poll
pub data PollStat : Type 0 where
  failed : Errno → PollStat
  nothing : PollStat
  reported : Revents → PollStat

-- the `switch` of connect(): `none` goes on
unfoldable pub connect_fault : ConnectError → Option Fault
connect_fault einprogress = none
connect_fault ConnectError.eintr = none
connect_fault enobufs = some text
connect_fault enetdown = some text
connect_fault ehostunreach = some text
connect_fault econnreset = some text
connect_fault econnrefused = some text
connect_fault _ = some assertion

is_client : TransferDirection → Bool
is_client from_client = true
is_client from_server = false

unfoldable pub set_state : SockState → MsgSocket → MsgSocket
set_state new_state s = record s { sock_state = new_state }

is_queued : List AnyRequest → Bool
is_queued [] = false
is_queued (r ∷ rs) = true

abbrev pub is_connecting : SockState → Bool
is_connecting sock_connecting = true
is_connecting _ = false

-- whether POLLWRNORM is asked for
unfoldable pub asks_write : MsgSocket → Bool
unfolding is_queued
asks_write s = is_queued s.tx_fifo || is_connecting s.sock_state

abbrev then_send :
    {N : Type 0} → (Bool → Io N → Option (Out N Bool)) → Option (Out N Bool) → Option (Out N Bool)
then_send f none = none
then_send f (some (ok b io)) = f b io
then_send f (some (raised t io)) = some (raised t io)

connected : MsgSocket → MsgSocket
unfolding set_state
connected s = if is_connecting s.sock_state then set_state sock_connected s else s

-- the answer of sendNextData is not used
abbrev with_answer : {N : Type 0} → Bool → Option (Out N Bool) → Option (Out N Bool)
with_answer incoming none = none
with_answer incoming (some (ok b io)) = some (ok incoming io)
with_answer incoming (some (raised t io)) = some (raised t io)

module _ {N : Type 0} (calls : Calls N) where
  or_fault : Option Fault → Action N (Unit {0})
  or_fault none io = ok tt io
  or_fault (some f) io = raised f io

  connect_result : Option ConnectError × N → Action N (Unit {0})
  unfolding or_fault connect_fault
  connect_result (none, net) io = ok tt (record io { net = net })
  connect_result (some e, net) io = or_fault (connect_fault e) (record io { net = net })

  connecting : Action N (Unit {0})
  unfolding connect_result
  connecting io = connect_result (calls.connect io.net) io

  unfoldable pub connect : Action N (Unit {0})
  unfolding is_client set_state connecting
  connect io =
      (do check (is_client io.sock.from); modify (set_state sock_connecting); connecting) io

  configured : Bool × N → Action N (Unit {0})
  configured (true, net) io = ok tt (record io { net = net })
  configured (false, net) io = raised text (record io { net = net })

  unfoldable pub socket_configuration : Action N (Unit {0})
  unfolding configured
  socket_configuration io = configured (calls.configure io.net) io

  -- the constructor, on a header that the memory held
  unfoldable pub client_socket : (header : L1MsgHeader) (descr : ℤ) → N → Out N (Unit {0})
  unfolding socket_configuration connect
  client_socket header descr net =
      (do socket_configuration; connect)
        (record { sock = msg_socket header descr from_client; net = net; errno = Errno.other })

  poll_failed : Errno → Action N Bool
  poll_failed ewouldblock io = ok false io
  poll_failed Errno.eintr io = ok false io
  poll_failed _ io = raised assertion io

  -- the exception that _determineErrorType may throw
  error_found : Option ErrorType → Action N Bool
  error_found none io = raised text io
  error_found (some t) io = ok false io

  errno_after : Option Errno → Errno → Errno
  errno_after none before = before
  errno_after (some e) before = e

  -- recvmsg is not called for a socket that is already disconnected
  error_at : SockState → Option Errno × N → Action N Bool
  unfolding error_found errno_after
  error_at sock_disconnected _ io = error_found (determine_error_type none io.sock) io
  error_at _ (e, net) io =
      error_found (determine_error_type e io.sock)
        (record io { net = net; errno = errno_after e io.errno })

  module _ (sys : System N) (fuel : ℕ) where
    incoming_part : Revents → Io N → Option (Out N Bool)
    incoming_part x io = if x.pollrdnorm then recv_next_data sys fuel io else some (ok false io)

    outgoing_part : Revents → Bool → Io N → Option (Out N Bool)
    unfolding connected
    outgoing_part x incoming io =
        if x.pollwrnorm
        then with_answer incoming (send_next_data sys fuel (record io { sock = connected io.sock }))
        else some (ok incoming io)

    -- the branches on what is reported
    on_revents : Revents → Io N → Option (Out N Bool)
    unfolding set_state error_at incoming_part outgoing_part
    on_revents x io =
        let normal = then_send (outgoing_part x) (incoming_part x io) in
        if x.pollhup
        then some (raised disconnection (record io { sock = set_state sock_disconnected io.sock }))
        else (if x.pollerr
            then some (error_at io.sock.sock_state (calls.peek_error io.net) io)
            else normal)

    poll_result : PollStat × N → Io N → Option (Out N Bool)
    unfolding poll_failed on_revents
    poll_result (failed e, net) io = some (poll_failed e (record io { net = net; errno = e }))
    poll_result (nothing, net) io = some (ok false (record io { net = net }))
    poll_result (reported x, net) io = on_revents x (record io { net = net })

    -- `sys_poll` is told whether POLLWRNORM is asked for besides POLLRDNORM
    unfoldable pub poll : (sys_poll : Bool → N → PollStat × N) → Io N → Option (Out N Bool)
    unfolding asks_write poll_result
    poll sys_poll io = poll_result (sys_poll (asks_write io.sock) io.net) io
