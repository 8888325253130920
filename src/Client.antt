-- ===== src/Client.antt =====
-- ClientConnection.h and .cpp: the client's side of the connection. A function that asserts
-- returns `none` where the assertion fails; `raw` is the undetermined content of a message body
-- that is allocated.

pub mod Credentials
pub mod Transitions
mod Tests
pub mod Poll
use hex.Base.{
  ℕ, zero, suc, ◌+◌, Bool, true, false, ◌||◌, Option, none, some, List, [], ◌∷◌, ◌++◌,
  if◌then◌else◌, ◌==◌, leb, drop, take, length,
}
use hex.Protocol.{
  Bytes, L1MessageId, connection_req, connection_cnf, connection_rej, user_logging_req,
  user_logging_cnf, user_logging_rej, registration_req, registration_cnf, registration_rej,
  disconnection_req, disconnection_cnf, poll_req, poll_cnf, data_transfer_req, transfer_data_blk,
  file_transfer_req, L1Msg, MsgRequest, write_at, write_int, read_int, put_string, main_version,
  user_shutdown, server_shutdown, disconnection_value, user_name_length, user_passwd_string_length,
  user_mail_string_length,
}

pub data CnxState : Type 0 where
  no_socket cnx_error no_connection connecting connected_no_credentials connected : CnxState
  registering registered disconnecting closing cnx_rejected auth_rejected : CnxState

abbrev pub state_value : CnxState → ℕ
state_value no_socket = 0
state_value cnx_error = 1
state_value no_connection = 2
state_value connecting = 3
state_value connected_no_credentials = 4
state_value connected = 5
state_value registering = 6
state_value registered = 7
state_value disconnecting = 8
state_value closing = 9
state_value cnx_rejected = 10
state_value auth_rejected = 11

pub data CnxExtEvent : Type 0 where
  none_event new_credentials : CnxExtEvent

-- `ext_event` is the ordered set of pending events; `tx_fifo` is the send queue of the socket
-- object, and `running` is cleared by MsgSocket::stop
pub record Connection : Type 0 where
  pub cnx_state : CnxState
  pub ciph_key : Bytes
  pub ext_event : List CnxExtEvent
  pub user_name : Bytes
  pub user_passwd : Bytes
  pub user_email : Bytes
  pub tx_fifo : List MsgRequest
  pub running : Bool

-- the constructor, with configureSocket
unfoldable pub new_connection : Connection
new_connection = record {
  cnx_state = no_socket;
  ciph_key = [];
  ext_event = [];
  user_name = [];
  user_passwd = [];
  user_email = [];
  tx_fifo = [];
  running = true;
}

abbrev is_state : CnxState → CnxState → Bool
is_state s t = state_value s == state_value t

-- the assertion of setState on the old state
unfoldable pub may_enter : (new_state cnx_state : CnxState) → Bool
may_enter connecting s = is_state s no_socket
may_enter connected_no_credentials s = is_state s connecting || is_state s registering
may_enter connected s = is_state s connected_no_credentials
may_enter registering s = is_state s connected
may_enter registered s = is_state s registering
may_enter cnx_rejected s = is_state s connecting
may_enter auth_rejected s = is_state s registering
may_enter _ s = true

unfoldable pub set_state : CnxState → Connection → Option Connection
unfolding may_enter
set_state new_state c =
    if may_enter new_state c.cnx_state then some (record c { cnx_state = new_state }) else none

infixl 5 ◌>>=◌
abbrev ◌>>=◌ : Option Connection → (Connection → Option Connection) → Option Connection
none >>= f = none
some c >>= f = f c

unfoldable pub send_msg_to_server : MsgRequest → Connection → Connection
send_msg_to_server m c = record c { tx_fifo = c.tx_fifo ++ m ∷ [] }

abbrev request : L1MessageId → Bytes → ℕ → MsgRequest
request id body n = record { l1_msg_id = id; msg = body; nb_bytes = n }

unfoldable pub send_connection_req : (raw : Bytes) → Connection → Connection
unfolding send_msg_to_server
send_connection_req raw =
    send_msg_to_server (request connection_req (put_string 0 main_version raw) 32)

unfoldable pub send_registration_req : (raw : Bytes) → Connection → Connection
unfolding send_msg_to_server
send_registration_req raw c =
    let b1 = put_string 0 c.user_name raw in
    let b2 = put_string 32 c.user_passwd b1 in
    let b3 = write_at 64 (take user_mail_string_length c.user_email) b2 in
    let b4 = write_at (64 + length c.user_email + 1) (0 ∷ []) b3 in
    send_msg_to_server (request registration_req b4 192) c

unfoldable pub send_user_login_req : (raw : Bytes) → Connection → Connection
unfolding send_msg_to_server
send_user_login_req raw c =
    send_msg_to_server
      (request user_logging_req
        (write_at 32 (take 32 c.user_passwd) (write_at 0 (take 32 c.user_name) raw)) 64)
      c

unfoldable pub send_disconnection_cnf : (raw : Bytes) → Connection → Connection
unfolding send_msg_to_server
send_disconnection_cnf raw = send_msg_to_server (request disconnection_cnf raw 1)

unfoldable pub send_disconnection_req : (raw : Bytes) → Connection → Connection
unfolding send_msg_to_server
send_disconnection_req raw =
    send_msg_to_server
      (request disconnection_req (write_int 0 (disconnection_value user_shutdown) raw) 4)

-- `clientSocket->connect()` is the socket's; the request is queued whatever state it is in
unfoldable pub start_connection_to_server : (raw : Bytes) → Connection → Option Connection
unfolding set_state send_connection_req
start_connection_to_server raw c =
    set_state connecting c >>= λ c1. some (send_connection_req raw c1)

unfoldable pub stop_connection_to_server :
    (flush : Bool) (raw : Bytes) → Connection → Option Connection
unfolding set_state send_disconnection_req
stop_connection_to_server flush raw c = set_state disconnecting c >>= λ c1.
    some (send_disconnection_req raw (if flush then record c1 { tx_fifo = [] } else c1))

-- `ext_event.insert(ev)` on a std::set
unfoldable pub set_ext_event : CnxExtEvent → List CnxExtEvent → List CnxExtEvent
set_ext_event new_credentials [] = new_credentials ∷ []
set_ext_event none_event [] = none_event ∷ []
set_ext_event new_credentials (new_credentials ∷ es) = new_credentials ∷ es
set_ext_event none_event (none_event ∷ es) = none_event ∷ es
set_ext_event none_event (new_credentials ∷ es) = none_event ∷ new_credentials ∷ es
set_ext_event new_credentials (none_event ∷ es) = none_event ∷ set_ext_event new_credentials es

-- `s.resize(max - 1)` where `s.size() >= max`
unfoldable pub limit_length : (max_length : ℕ) → Bytes → Bytes
limit_length zero s = s
limit_length (suc n) s = if leb (suc n) (length s) then take n s else s

unfoldable pub registration_data : (uname upasswd email : Bytes) → Connection → Connection
unfolding limit_length set_ext_event
registration_data uname upasswd email c = record c {
  user_name = limit_length user_name_length uname;
  user_passwd = limit_length user_passwd_string_length upasswd;
  user_email = limit_length user_mail_string_length email;
  ext_event = set_ext_event new_credentials c.ext_event;
}

-- the credentials that handleConnectionCnf enters: "Alberto", "toto66" and the mail address
abbrev pub default_name : Bytes
default_name = b'A' ∷ b'l' ∷ b'b' ∷ b'e' ∷ b'r' ∷ b't' ∷ b'o' ∷ []

abbrev pub default_passwd : Bytes
default_passwd = b't' ∷ b'o' ∷ b't' ∷ b'o' ∷ b'6' ∷ b'6' ∷ []

abbrev pub default_email : Bytes
default_email =
    b'a' ∷ b'l' ∷ b'b' ∷ b'e' ∷ b'r' ∷ b't' ∷ b'o' ∷ b'.' ∷ b'a' ∷ b'l' ∷ b'b' ∷ b'e' ∷ b'r' ∷ b't'
    ∷ b'o' ∷ b'@' ∷ b'z' ∷ b'a' ∷ b'z' ∷ b'o' ∷ b'u' ∷ b'.' ∷ b'c' ∷ b'o' ∷ b'm' ∷ []

connection_cnf_at : CnxState → (body : Bytes) → Connection → Option Connection
unfolding set_state registration_data
connection_cnf_at connecting body c = set_state connected_no_credentials c >>= λ c1. some (
    registration_data default_name default_passwd default_email
      (record c1 { ciph_key = take 128 (drop 4 body) }))
connection_cnf_at _ body c = none

unfoldable pub handle_connection_cnf : (body : Bytes) → Connection → Option Connection
unfolding connection_cnf_at
handle_connection_cnf body c = connection_cnf_at c.cnx_state body c

-- the switch only prints; its default asserts
unfoldable pub handle_connection_rej : (body : Bytes) → Connection → Option Connection
unfolding read_int
handle_connection_rej body c = if leb (read_int 0 body) 3 then some c else none

unfoldable pub handle_registration_cnf : Connection → Option Connection
unfolding set_state
handle_registration_cnf c = set_state registered c

unfoldable pub handle_registration_rej : Connection → Option Connection
unfolding set_state
handle_registration_rej c = set_state connected_no_credentials c

unfoldable pub handle_user_login_cnf : Connection → Option Connection
unfolding set_state
handle_user_login_cnf c = set_state registered c

unfoldable pub handle_user_login_rej : Connection → Option Connection
unfolding set_state
handle_user_login_rej c = set_state auth_rejected c

unfoldable pub handle_disconnection_req : (raw body : Bytes) → Connection → Option Connection
unfolding send_disconnection_cnf set_state read_int
handle_disconnection_req raw body c =
    if read_int 0 body == disconnection_value server_shutdown
    then set_state closing (send_disconnection_cnf raw c)
    else none

unfoldable pub handle_disconnection_cnf : Connection → Option Connection
unfolding set_state
handle_disconnection_cnf c =
    if is_state c.cnx_state disconnecting
    then set_state closing (record c { tx_fifo = []; running = false })
    else none

dispatch : L1MessageId → (raw body : Bytes) → Connection → Option Connection
unfolding handle_connection_cnf handle_connection_rej handle_user_login_cnf handle_user_login_rej
    handle_registration_cnf handle_registration_rej handle_disconnection_req
    handle_disconnection_cnf
dispatch connection_cnf raw body c = handle_connection_cnf body c
dispatch connection_rej raw body c = handle_connection_rej body c
dispatch user_logging_cnf raw body c = handle_user_login_cnf c
dispatch user_logging_rej raw body c = handle_user_login_rej c
dispatch registration_cnf raw body c = handle_registration_cnf c
dispatch registration_rej raw body c = handle_registration_rej c
dispatch disconnection_req raw body c = handle_disconnection_req raw body c
dispatch disconnection_cnf raw body c = handle_disconnection_cnf c
dispatch poll_req raw body c = some c
dispatch poll_cnf raw body c = some c
dispatch data_transfer_req raw body c = some c
dispatch transfer_data_blk raw body c = some c
dispatch file_transfer_req raw body c = some c
dispatch _ raw body c = none

unfoldable pub handle_server_message : (raw : Bytes) → L1Msg → Connection → Option Connection
unfolding dispatch
handle_server_message raw m c = dispatch m.l1_msg_id raw m.l1_body c
