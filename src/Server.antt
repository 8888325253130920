-- ===== src/Server.antt =====
-- ServerClientConnection.h and .cpp, the class ServerClientConnection: the server's side of one
-- connection. A handler that asserts returns `none` where the assertion fails; an `Outcome` tells
-- whether it returns or ends with an exception. `raw` is the
-- content of the message body that a send function allocates, which C++ leaves undetermined.
pub mod Session
pub mod Admission
mod Tests
pub mod Messages
use hex.Base.{
  ℕ, zero, suc, ◌+◌, Bool, true, false, not, ◌&&◌, Option, none, some, List, [], ◌∷◌, ◌++◌,
  if◌then◌else◌, ◌==◌, drop, replicate,
}
use hex.Protocol
use hex.Protocol.{
  Bytes, L1MessageId, connection_req, connection_cnf, connection_rej, user_logging_req,
  user_logging_cnf, user_logging_rej, registration_req, registration_cnf, registration_rej,
  disconnection_req, disconnection_cnf, poll_req, poll_cnf, data_transfer_req, transfer_data_blk,
  file_transfer_req, none_id, unknown, L1Msg, MsgRequest, write_at, write_int, read_int, c_string,
  put_string, string_eq, main_version, ConnectionRejCause, bad_client_version, unexpected_conn_req,
  connection_rej_value, RegistrationRejCause, user_already_existing, incorrect_email,
  unexpected_registration, registration_rej_value, UserLoginRejCause, user_unknown, wrong_password,
  unexpected_login_proc, user_login_rej_value, DisconnectionCause, user_shutdown, server_shutdown,
  disconnection_value, Cyphering, no_ciphering, ciphering_a, cyphering_value, ciphering_key_length,
}

pub data State : Type 0 where
  empty cnx_error disconnected conn_rejected registering rejected registered : State
  disconnecting closing : State

-- the results of MsgSocket::_determineErrorType
pub data ErrorType : Type 0 where
  ignore disconnected connection_troubles fatal : ErrorType

-- `tx_fifo` is the send queue of the socket object; `outgoing` is the connection's bit among the
-- router's sockets with data to send; `running` is cleared by MsgSocket::stop
pub record Connection : Type 0 where
  pub state : State
  pub user_email : Bytes
  pub user_pwd : Bytes
  pub user_name : Bytes
  pub last_rejected_cause : ConnectionRejCause
  pub tx_fifo : List MsgRequest
  pub outgoing : Bool
  pub running : Bool

-- the constructor
unfoldable pub new_connection : Connection
new_connection = record {
  state = empty;
  user_email = [];
  user_pwd = [];
  user_name = [];
  last_rejected_cause = ConnectionRejCause.no_cause;
  tx_fifo = [];
  outgoing = false;
  running = true;
}

-- the look-ups in the files or the data base
pub record Accounts : Type 0 where
  pub passwd_ok : Bytes → Bytes → Bool
  pub known_user : Bytes → Bool
  pub correct_email : Bytes → Bool

-- what the functions of these names return so far
unfoldable pub accounts : Accounts
accounts = record {
  passwd_ok = λ user_name passwd. true;
  known_user = λ user_name. false;
  correct_email = λ user_email. false;
}

-- how a function ends: it returns, or std::out_of_range goes on to its caller
pub data Outcome : Type 0 where
  done threw : Connection → Outcome

abbrev pub remaining : Outcome → Connection
remaining (done c) = c
remaining (threw c) = c

-- OutgoingDataForClient looks the descriptor of the socket up in the map of the router, where it
-- stands until MsgSocket::stop has set it to -1
unfoldable pub send_msg_to_client : MsgRequest → Connection → Outcome
send_msg_to_client m c =
    if c.running
    then done (record c { tx_fifo = c.tx_fifo ++ m ∷ []; outgoing = true })
    else threw c

abbrev request : L1MessageId → Bytes → ℕ → MsgRequest
request id body n = record { l1_msg_id = id; msg = body; nb_bytes = n }

unfoldable pub send_connection_cnf :
    (raw : Bytes) → Cyphering → (ciph_key : Bytes) → Connection → Outcome
unfolding send_msg_to_client write_int write_at
send_connection_cnf raw ciph ciph_key =
    let key : Bytes = elim ciph [
      | no_ciphering ↦ replicate ciphering_key_length 0
      | ciphering_a ↦ ciph_key
    ] in
    send_msg_to_client
      (request connection_cnf (write_at 4 key (write_int 0 (cyphering_value ciph) raw)) 132)

unfoldable pub send_connection_rej : (raw : Bytes) → ConnectionRejCause → Connection → Outcome
unfolding send_msg_to_client write_int put_string
send_connection_rej raw cause = send_msg_to_client (
    request connection_rej
      (put_string 4 main_version (write_int 0 (connection_rej_value cause) raw)) 36)

unfoldable pub send_registration_rej : (raw : Bytes) → RegistrationRejCause → Connection → Outcome
unfolding send_msg_to_client write_int
send_registration_rej raw cause =
    send_msg_to_client (request registration_rej (write_int 0 (registration_rej_value cause) raw) 4)

unfoldable pub send_registration_cnf : (raw : Bytes) → Connection → Outcome
unfolding send_msg_to_client
send_registration_cnf raw = send_msg_to_client (request registration_cnf raw 1)

unfoldable pub send_user_login_rej : (raw : Bytes) → UserLoginRejCause → Connection → Outcome
unfolding send_msg_to_client write_int
send_user_login_rej raw cause =
    send_msg_to_client (request user_logging_rej (write_int 0 (user_login_rej_value cause) raw) 4)

unfoldable pub send_user_login_cnf : (raw : Bytes) → Connection → Outcome
unfolding send_msg_to_client
send_user_login_cnf raw = send_msg_to_client (request user_logging_cnf raw 1)

unfoldable pub send_disconnection_cnf : (raw : Bytes) → Connection → Outcome
unfolding send_msg_to_client
send_disconnection_cnf raw = send_msg_to_client (request disconnection_cnf raw 1)

unfoldable pub send_disconnection_req : (raw : Bytes) → Connection → Outcome
unfolding send_msg_to_client write_int
send_disconnection_req raw =
    send_msg_to_client
      (request disconnection_req (write_int 0 (disconnection_value server_shutdown) raw) 4)

abbrev set_state : State → Connection → Connection
set_state s c = record c { state = s }

abbrev pub then_set : State → Outcome → Outcome
then_set s (done c) = done (set_state s c)
then_set s (threw c) = threw c

-- the rejection of a connection, with the cause kept
reject_connection : (raw : Bytes) → ConnectionRejCause → Connection → Outcome
unfolding send_connection_rej
reject_connection raw cause c =
    then_set conn_rejected
      (send_connection_rej raw cause (record c { last_rejected_cause = cause }))

connection_req_at : State → (raw body : Bytes) → Connection → Outcome
unfolding send_connection_cnf send_connection_rej reject_connection string_eq c_string
connection_req_at empty raw body c =
    if string_eq (c_string body) main_version
    then then_set registering
        (send_connection_cnf raw no_ciphering (replicate ciphering_key_length 0) c)
    else reject_connection raw bad_client_version c
connection_req_at conn_rejected raw body c =
    then_set conn_rejected (send_connection_rej raw c.last_rejected_cause c)
connection_req_at _ raw body c = reject_connection raw unexpected_conn_req c

unfoldable pub handle_connection_req : (raw body : Bytes) → Connection → Outcome
unfolding connection_req_at
handle_connection_req raw body c = connection_req_at c.state raw body c

-- the strings of RegistrationReq and UserLoginReq, at the offsets of their first members
abbrev pub name_field : Bytes → Bytes
name_field body = c_string body

abbrev pub password_field : Bytes → Bytes
password_field body = c_string (drop 32 body)

abbrev pub mail_field : Bytes → Bytes
mail_field body = c_string (drop 64 body)

registration_req_at : State → Accounts → (raw body : Bytes) → Connection → Outcome
unfolding send_registration_rej send_registration_cnf
registration_req_at registering a raw body c =
    let c1 = record c { user_name = name_field body; user_email = mail_field body } in
    if a.known_user (name_field body)
    then send_registration_rej raw user_already_existing c1
    else (if a.correct_email (mail_field body)
        then send_registration_rej raw incorrect_email c1
        else then_set registered
            (send_registration_cnf raw (record c1 { user_pwd = password_field body })))
registration_req_at _ a raw body c = send_registration_rej raw unexpected_registration c

unfoldable pub handle_registration_req : Accounts → (raw body : Bytes) → Connection → Outcome
unfolding registration_req_at
handle_registration_req a raw body c = registration_req_at c.state a raw body c

user_login_req_at : State → Accounts → (raw body : Bytes) → Connection → Outcome
unfolding send_user_login_rej send_registration_cnf
user_login_req_at registering a raw body c =
    let c1 = record c { user_name = name_field body; user_pwd = password_field body } in
    if not (a.known_user (name_field body))
    then send_user_login_rej raw user_unknown c1
    else (if not (a.passwd_ok (name_field body) (password_field body))
        then send_user_login_rej raw wrong_password c1
        else then_set registered (send_registration_cnf raw c1))
user_login_req_at _ a raw body c = send_user_login_rej raw unexpected_login_proc c

unfoldable pub handle_user_login_req : Accounts → (raw body : Bytes) → Connection → Outcome
unfolding user_login_req_at
handle_user_login_req a raw body c = user_login_req_at c.state a raw body c

unfoldable pub handle_disconnection_req : (raw body : Bytes) → Connection → Option Outcome
unfolding send_disconnection_cnf read_int
handle_disconnection_req raw body c =
    if read_int 0 body == disconnection_value user_shutdown
    then some (then_set closing (send_disconnection_cnf raw c))
    else none
