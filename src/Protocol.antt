-- ===== src/Protocol.antt =====
-- ClientServerPrtcl.h and main_version.h: the messages of the protocol. The body of a message is
-- the memory of the union ClientServerMsgBody, byte by byte; its members are read and written at
-- their offsets. `int` has 4 bytes, the lowest first, and an empty structure has size 1.
pub mod Strings
mod Tests
use hex.Base.{
  ℕ, zero, suc, ◌+◌, ◌*◌, ◌/◌, ◌%◌, Bool, true, false, ◌&&◌, List, [], ◌∷◌, ◌++◌, ◌==◌, ltb,
  if◌then◌else◌, length, take, drop,
}

abbrev pub max_l1_msg_body_size : ℕ
max_l1_msg_body_size = 8192

abbrev pub version_string_length : ℕ
version_string_length = 32

abbrev pub user_name_length : ℕ
user_name_length = 32

abbrev pub user_passwd_string_length : ℕ
user_passwd_string_length = 32

abbrev pub user_mail_string_length : ℕ
user_mail_string_length = 128

abbrev pub ciphering_key_length : ℕ
ciphering_key_length = 128

pub data TransferDirection : Type 0 where
  from_server from_client : TransferDirection

-- ClientServerL1MessageId; `unknown` is a value that is none of the enumerators
pub data L1MessageId : Type 0 where
  none_id : L1MessageId
  connection_req connection_cnf connection_rej : L1MessageId
  user_logging_req user_logging_cnf user_logging_rej : L1MessageId
  registration_req registration_cnf registration_rej : L1MessageId
  disconnection_req disconnection_cnf : L1MessageId
  poll_req poll_cnf : L1MessageId
  data_transfer_req transfer_data_blk file_transfer_req : L1MessageId
  unknown : ℕ → L1MessageId

abbrev pub message_id_value : L1MessageId → ℕ
message_id_value none_id = 0
message_id_value connection_req = 1
message_id_value connection_cnf = 2
message_id_value connection_rej = 3
message_id_value user_logging_req = 4
message_id_value user_logging_cnf = 5
message_id_value user_logging_rej = 6
message_id_value registration_req = 7
message_id_value registration_cnf = 8
message_id_value registration_rej = 9
message_id_value disconnection_req = 10
message_id_value disconnection_cnf = 11
message_id_value poll_req = 12
message_id_value poll_cnf = 13
message_id_value data_transfer_req = 14
message_id_value transfer_data_blk = 15
message_id_value file_transfer_req = 16
message_id_value (unknown n) = n

-- the enumerators of the message structures, by their values
pub data Cyphering : Type 0 where
  no_ciphering ciphering_a : Cyphering

pub data ConnectionRejCause : Type 0 where
  no_cause ip_address_conflict bad_client_version unexpected_conn_req : ConnectionRejCause

pub data UserLoginRejCause : Type 0 where
  no_cause user_unknown wrong_password unexpected_login_proc : UserLoginRejCause

pub data RegistrationRejCause : Type 0 where
  no_cause user_already_existing incorrect_email unexpected_registration : RegistrationRejCause

pub data DisconnectionCause : Type 0 where
  no_cause user_shutdown server_shutdown : DisconnectionCause

abbrev pub cyphering_value : Cyphering → ℕ
cyphering_value no_ciphering = 0
cyphering_value ciphering_a = 1

abbrev pub connection_rej_value : ConnectionRejCause → ℕ
connection_rej_value ConnectionRejCause.no_cause = 0
connection_rej_value ip_address_conflict = 1
connection_rej_value bad_client_version = 2
connection_rej_value unexpected_conn_req = 3

abbrev pub user_login_rej_value : UserLoginRejCause → ℕ
user_login_rej_value UserLoginRejCause.no_cause = 0
user_login_rej_value user_unknown = 1
user_login_rej_value wrong_password = 2
user_login_rej_value unexpected_login_proc = 3

abbrev pub registration_rej_value : RegistrationRejCause → ℕ
registration_rej_value RegistrationRejCause.no_cause = 0
registration_rej_value user_already_existing = 1
registration_rej_value incorrect_email = 2
registration_rej_value unexpected_registration = 3

abbrev pub disconnection_value : DisconnectionCause → ℕ
disconnection_value DisconnectionCause.no_cause = 0
disconnection_value user_shutdown = 1
disconnection_value server_shutdown = 2

abbrev pub Bytes : Type 0
Bytes = List ℕ

-- the bytes of `bs` written over those of `buf` from offset `off` on
unfoldable pub write_at : (off : ℕ) (bs buf : Bytes) → Bytes
write_at zero [] buf = buf
write_at zero (b ∷ bs) [] = []
write_at zero (b ∷ bs) (c ∷ buf) = b ∷ write_at zero bs buf
write_at (suc off) bs [] = []
write_at (suc off) bs (c ∷ buf) = c ∷ write_at off bs buf

-- an `int` at an offset
unfoldable pub write_int : (off value : ℕ) → Bytes → Bytes
unfolding write_at
write_int off v buf =
    write_at off (v % 256 ∷ v / 256 % 256 ∷ v / 65536 % 256 ∷ v / 16777216 % 256 ∷ []) buf

unfoldable pub int_of : Bytes → ℕ
int_of (a ∷ b ∷ c ∷ d ∷ rest) = a + 256 * b + 65536 * c + 16777216 * d
int_of _ = 0

unfoldable pub read_int : (off : ℕ) → Bytes → ℕ
unfolding int_of
read_int off buf = int_of (drop off buf)

-- `std::string{p}`: the characters up to the first NUL, or to the end of the object
unfoldable pub c_string : Bytes → Bytes
c_string [] = []
c_string (c ∷ cs) = if c == 0 then [] else c ∷ c_string cs

-- `s.copy(p, s.length()); p[s.length() + 1] = '\0'` for `p` at an offset
unfoldable pub put_string : (off : ℕ) (s buf : Bytes) → Bytes
unfolding write_at
put_string off s buf = write_at (off + length s + 1) (0 ∷ []) (write_at off s buf)

-- `operator==` of two strings
unfoldable pub string_eq : Bytes → Bytes → Bool
string_eq [] [] = true
string_eq [] (d ∷ ds) = false
string_eq (c ∷ cs) [] = false
string_eq (c ∷ cs) (d ∷ ds) = (c == d) && string_eq cs ds

-- the constant returned by mainVersionString(): "VERSION 0.0.0 Beta"
abbrev pub main_version : Bytes
main_version =
    b'V' ∷ b'E' ∷ b'R' ∷ b'S' ∷ b'I' ∷ b'O' ∷ b'N' ∷ 32 ∷ b'0' ∷ b'.' ∷ b'0' ∷ b'.' ∷ b'0' ∷ 32
    ∷ b'B' ∷ b'e' ∷ b't' ∷ b'a' ∷ []

-- a ClientServerL1MsgHeader as it lies in memory
pub record L1MsgHeader : Type 0 where
  pub lenght : ℕ
  pub id : ℕ
  pub from : TransferDirection
  pub notyetused : ℕ

-- a ClientServerL1Msg as the connections read it
pub record L1Msg : Type 0 where
  pub l1_msg_id : L1MessageId
  pub l1_body : Bytes

-- a ClientServerMsgRequest: the id, the body, and the number of its bytes to send
pub record MsgRequest : Type 0 where
  pub l1_msg_id : L1MessageId
  pub msg : Bytes
  pub nb_bytes : ℕ
