-- ===== src/Server/Messages.antt =====
-- ServerClientConnection.cpp: the end of a connection, and the messages and errors of its socket.
use hex.Base.{Bool, true, false, Option, none, some, List, [], ◌∷◌}
use hex.Protocol.{
  Bytes, L1MessageId, connection_req, user_logging_req, registration_req, disconnection_req,
  disconnection_cnf, poll_req, poll_cnf, data_transfer_req, transfer_data_blk, file_transfer_req,
  L1Msg,
}
use hex.Server.{
  State, ErrorType, Outcome, done, threw, Connection, Accounts, set_state, handle_connection_req,
  handle_registration_req, handle_user_login_req, handle_disconnection_req, cnx_error, disconnected,
  disconnecting, closing, ignore, connection_troubles, fatal,
}

-- MsgSocket::stop, as far as the connection sees it
unfoldable pub stop : Connection → Connection
stop c = record c { tx_fifo = []; running = false }

disconnection_cnf_at : State → Connection → Option Connection
unfolding stop
disconnection_cnf_at disconnecting c = some (set_state closing (stop c))
disconnection_cnf_at _ c = none

unfoldable pub handle_disconnection_cnf : Connection → Option Connection
unfolding disconnection_cnf_at
handle_disconnection_cnf c = disconnection_cnf_at c.state c

unfoldable pub socket_disconnected : Connection → Connection
unfolding stop
socket_disconnected c = set_state disconnected (stop c)

unfoldable pub fatal_cnx_error : Connection → Connection
unfolding stop
fatal_cnx_error c = set_state cnx_error (stop c)

-- `clear_io_indicators` and the connection; `none` where the switch leaves the former unset
unfoldable pub socket_error : ErrorType → Connection → Option (Bool × Connection)
unfolding socket_disconnected fatal_cnx_error
socket_error ignore c = some (false, c)
socket_error ErrorType.disconnected c = some (true, socket_disconnected c)
socket_error fatal c = some (true, fatal_cnx_error c)
socket_error connection_troubles c = none

abbrev pub returned : Option Connection → Option Outcome
returned none = none
returned (some c) = some (done c)

-- the switch of handle_client_message
unfoldable pub dispatch : L1MessageId → Accounts → (raw body : Bytes) → Connection → Option Outcome
unfolding handle_connection_req handle_user_login_req handle_registration_req
    handle_disconnection_req handle_disconnection_cnf
dispatch connection_req a raw body c = some (handle_connection_req raw body c)
dispatch user_logging_req a raw body c = some (handle_user_login_req a raw body c)
dispatch registration_req a raw body c = some (handle_registration_req a raw body c)
dispatch disconnection_req a raw body c = handle_disconnection_req raw body c
dispatch disconnection_cnf a raw body c = returned (handle_disconnection_cnf c)
dispatch poll_req a raw body c = some (done c)
dispatch poll_cnf a raw body c = some (done c)
dispatch data_transfer_req a raw body c = some (done c)
dispatch transfer_data_blk a raw body c = some (done c)
dispatch file_transfer_req a raw body c = some (done c)
dispatch _ a raw body c = none

unfoldable pub handle_client_message :
    Accounts → (raw : Bytes) → L1Msg → Connection → Option Outcome
unfolding dispatch
handle_client_message a raw m c = dispatch m.l1_msg_id a raw m.l1_body c

-- what follows a function, unless it has ended with an exception or a failed assertion
abbrev pub after : (Connection → Option Outcome) → Option Outcome → Option Outcome
after rest none = none
after rest (some (done c)) = rest c
after rest (some (threw c)) = some (threw c)

-- the loop of socketDataRead over the messages that the socket has received, each with the content
-- of the body that its handler allocates
unfoldable pub handle_messages : Accounts → List (Bytes × L1Msg) → Connection → Option Outcome
unfolding handle_client_message
handle_messages a [] c = some (done c)
handle_messages a ((raw, m) ∷ ms) c = after (handle_messages a ms) (handle_client_message a raw m c)
