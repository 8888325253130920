-- ===== src/Handshake.antt =====
-- The exchange of a client (ClientConnection.cpp) and a server (ServerClientConnection.cpp) from
-- the start of the connection to the registration of the client.
pub mod Sockets
mod Tests
use hex.Base.{
  ℕ, ◌<◌, ◌≡◌, ◌≢◌, refl, ◌∙◌, ap, false, Option, none, some, List, [], ◌∷◌, ◌++◌, arith, ◌==◌,
  if◌then◌else◌, length, get_elem?, replicate,
}
use hex.Protocol.{
  Bytes, L1Msg, MsgRequest, connection_req, put_string, c_string, string_eq, main_version,
  no_ciphering, bad_client_version,
}
use hex.Protocol.Strings.{c_string-put_string}
use hex.Client
use hex.Client.{start_connection_to_server}
use hex.Client.Poll.{poll, received}
use hex.Server
use hex.Server.{accounts, handle_connection_req, Accounts, registering, conn_rejected}
use hex.Server.Messages.{handle_client_message}

-- a request as its receiver sees it
abbrev pub deliver : MsgRequest → L1Msg
deliver m = record { l1_msg_id = m.l1_msg_id; l1_body = m.msg }

-- the request queued last
abbrev pub newest : List MsgRequest → Option L1Msg
newest [] = none
newest (m ∷ []) = some (deliver m)
newest (m ∷ n ∷ ms) = newest (n ∷ ms)

infixl 5 ◌>>=◌
abbrev ◌>>=◌ {ℓ κ} : {A : Type ℓ} {B : Type κ} → Option A → (A → Option B) → Option B
none >>= f = none
some a >>= f = f a

-- the connection, unless an assertion has failed or an exception has ended the function
abbrev returning : Option Server.Outcome → Option Server.Connection
returning (some (Server.done s)) = some s
returning _ = none

-- the client starts, and the server handles its first message
unfoldable pub hello : (r1 r2 : Bytes) → Option (Client.Connection × Server.Connection)
hello r1 r2 = do
  c ← start_connection_to_server r1 Client.new_connection
  m ← newest c.tx_fifo
  s ← returning (handle_client_message accounts r2 m Server.new_connection)
  some (c, s)

-- then the client polls for the answer and once more, and each side handles the other's message,
-- before the socket has taken any from the queue
unfoldable pub finish :
    (r3 r4 : Bytes)
    → Client.Connection × Server.Connection
    → Option (Client.Connection × Server.Connection)
finish r3 r4 (c, s) = do
  answer ← newest s.tx_fifo
  c ← poll r3 (received 0 ((r3, answer) ∷ [])) c
  c ← poll r3 (received 0 []) c
  credentials ← newest c.tx_fifo
  s ← returning (handle_client_message accounts r4 credentials s)
  confirmation ← newest s.tx_fifo
  c ← poll r3 (received 0 ((r3, confirmation) ∷ [])) c
  some (c, s)

-- `r1` to `r4` are the contents of the message bodies allocated on the way
unfoldable pub handshake : (r1 r2 r3 r4 : Bytes) → Option (Client.Connection × Server.Connection)
handshake r1 r2 r3 r4 = hello r1 r2 >>= finish r3 r4

abbrev opening : Bytes → L1Msg
opening body = record { l1_msg_id = connection_req; l1_body = body }

-- the server after a CONNECTION_REQ that it confirms, and after one that it rejects
abbrev opened : Bytes → Server.Connection
opened raw = Server.remaining (
    Server.then_set registering
      (Server.send_connection_cnf raw no_ciphering (replicate 128 0) Server.new_connection))

abbrev refused : Bytes → Server.Connection
refused raw = Server.remaining (
    Server.then_set conn_rejected (
      Server.send_connection_rej raw bad_client_version
        (record Server.new_connection { last_rejected_cause = bad_client_version })))

rejects :
    (raw body : Bytes)
    → string_eq (c_string body) main_version ≡ false
    → (s : Server.Connection) × (handle_client_message accounts raw
          (opening body)
          Server.new_connection
        ≡ some (Server.done s))
      × (s.state ≡ conn_rejected)
unfolding handle_client_message Server.send_connection_cnf Server.send_connection_rej
    Server.new_connection
rejects raw body e = (refused raw, rw e refl, refl)

-- the client after its start
abbrev pub started : Bytes → Client.Connection
started raw = record (Client.send_connection_req raw Client.new_connection) {
  cnx_state = Client.connecting;
}

start_lem : (r1 : Bytes) → start_connection_to_server r1 Client.new_connection ≡ some (started r1)
unfolding start_connection_to_server Client.new_connection
start_lem r1 = refl

newest-started :
    (r1 : Bytes) → newest (started r1).tx_fifo ≡ some (opening (put_string 0 main_version r1))
unfolding Client.send_connection_req Client.new_connection
newest-started r1 = refl

module _ (r1 r2 : Bytes) (b : ℕ) (byte : get_elem? r1 18 ≡ some b) (large : 19 < length r1) where
  read_back :
      c_string (put_string 0 main_version r1)
      ≡ (if b == 0 then main_version else main_version ++ b ∷ [])
  read_back = c_string-put_string 0 main_version r1 b (omega arith) byte large

  version_read : string_eq (c_string (put_string 0 main_version r1)) main_version ≡ (b == 0)
  version_read = ap (λ t. string_eq t main_version) read_back ∙ with_byte
    where
      with_byte :
          string_eq (if b == 0 then main_version else main_version ++ b ∷ []) main_version
          ≡ (b == 0)
      with_byte = unfold string_eq in ground arith

  -- Where the client's message body is large enough and held a byte other than NUL right behind
  -- the place of the version string, the server, of the same version, rejects the client.
  pub hello_rejected :
      b ≢ 0
      → (s : Server.Connection) × (hello r1 r2 ≡ some (started r1, s)) × (s.state ≡ conn_rejected)
  unfolding hello
  hello_rejected z =
      let (s, e, k) =
        rejects r2 (put_string 0 main_version r1) (version_read ∙ (let y = z in ground arith)) in
      (s, rw (start_lem, newest-started, e) refl, k)
