-- ===== src/Client/Poll.antt =====
-- ClientConnection.cpp: the events from other threads, and the poll of the socket.
pub mod States
use hex.Base.{ℕ, drop, Option, none, some, List, [], ◌∷◌, if◌then◌else◌, leb}
use hex.Protocol.{Bytes, L1Msg}
use hex.Client.{
  state_value, CnxExtEvent, Connection, set_state, send_registration_req, handle_server_message,
  no_connection, connected, registering, none_event, new_credentials, ◌>>=◌,
}

unfoldable pub handle_one_ext_event : (raw : Bytes) → CnxExtEvent → Connection → Option Connection
unfolding set_state send_registration_req
handle_one_ext_event raw new_credentials c =
    set_state connected c >>= λ c1. set_state registering (send_registration_req raw c1)
handle_one_ext_event raw none_event c = none

unfoldable pub ext_events_loop : (raw : Bytes) → List CnxExtEvent → Connection → Option Connection
unfolding handle_one_ext_event
ext_events_loop raw [] c = some c
ext_events_loop raw (e ∷ es) c = handle_one_ext_event raw e c >>= ext_events_loop raw es

unfoldable pub handle_ext_events : (raw : Bytes) → Connection → Option Connection
unfolding ext_events_loop
handle_ext_events raw c =
    ext_events_loop raw c.ext_event c >>= λ c1. some (record c1 { ext_event = [] })

unfoldable pub socket_disconnected : Connection → Option Connection
unfolding set_state
socket_disconnected c = set_state no_connection c

-- how the socket loses the connection: POLLHUP, or a call of send or recv, whose error has stopped
-- the socket
pub data Loss : Type 0 where
  hung_up stopped : Loss

-- what the socket does in one poll: the connection is lost, or it takes as many messages as `sent`
-- tells from its queue to send them, and messages have come in, each with the content of the body
-- that its handler allocates
pub data SocketPoll : Type 0 where
  lost : Loss → SocketPoll
  received : (sent : ℕ) → List (Bytes × L1Msg) → SocketPoll

messages_loop : List (Bytes × L1Msg) → Connection → Option Connection
unfolding handle_server_message
messages_loop [] c = some c
messages_loop ((raw, m) ∷ ms) c = handle_server_message raw m c >>= messages_loop ms

-- a socket that is stopped has emptied its queues; one that is hung up has them still
serve_socket : SocketPoll → Connection → Option Connection
unfolding messages_loop socket_disconnected
serve_socket (lost hung_up) c = socket_disconnected c
serve_socket (lost stopped) c = socket_disconnected (record c { tx_fifo = [] })
serve_socket (received sent ms) c = messages_loop ms (record c { tx_fifo = drop sent c.tx_fifo })

unfoldable pub poll : (raw : Bytes) → SocketPoll → Connection → Option Connection
unfolding handle_ext_events serve_socket
poll raw p c =
    if leb (state_value c.cnx_state) (state_value no_connection)
    then some c
    else (handle_ext_events raw c >>= serve_socket p)
