-- ===== src/Client/Credentials.antt =====
-- The credentials that the user interface enters, and what the next poll does with them.
use hex.Base.{
  drop, ℕ, suc, ◌+◌, ◌≤◌, ◌<◌, ◌≡◌, ◌≢◌, refl, false, none, some, List, [], ◌∷◌, ◌++◌, arith,
  length, take, length-take, leb,
}
use hex.Protocol.{put_string, write_at, Bytes, MsgRequest, registration_req, registration_rej}
use hex.Client.{
  CnxState, connected_no_credentials, no_connection, registering, state_value, CnxExtEvent,
  new_credentials, none_event, Connection, limit_length, registration_data, set_ext_event,
  may_enter, connected, set_state, handle_server_message,
}
use hex.Client.Poll.{handle_one_ext_event, ext_events_loop, poll, SocketPoll, received}

length-limit_length : (n : ℕ) (s : Bytes) → length (limit_length (suc n) s) ≤ n
unfolding limit_length
length-limit_length n s = let e = length-take n s in ground arith

-- Whatever the user interface enters, the name, the password and the mail address that the client
-- keeps leave room for a terminator in their fields of 32, 32 and 128 bytes.
pub registration_data_bounded :
    (uname upasswd email : Bytes) (c : Connection)
    → let d = registration_data uname upasswd email c in
      (length d.user_name < 32) × (length d.user_passwd < 32) × (length d.user_email < 128)
unfolding registration_data
registration_data_bounded uname upasswd email c = (
  omega (arith, length-limit_length 31 uname),
  omega (arith, length-limit_length 31 upasswd),
  omega (arith, length-limit_length 127 email),
)

not_ready : (s : CnxState) → s ≢ connected_no_credentials → may_enter connected s ≡ false
unfolding may_enter
not_ready connected_no_credentials n = absurd (n refl)
not_ready _ n = refl

event_fails :
    (raw : Bytes) (e : CnxExtEvent) (c : Connection)
    → c.cnx_state ≢ connected_no_credentials
    → handle_one_ext_event raw e c ≡ none
unfolding handle_one_ext_event set_state
event_fails raw none_event c n = refl
event_fails raw new_credentials c n = rw (not_ready c.cnx_state n) refl

events_fail :
    (raw : Bytes) (es : List CnxExtEvent) (c : Connection)
    → c.cnx_state ≢ connected_no_credentials
    → ext_events_loop raw (set_ext_event new_credentials es) c ≡ none
unfolding ext_events_loop set_ext_event
events_fail raw [] c n = rw (event_fails raw new_credentials c n) refl
events_fail raw (new_credentials ∷ es) c n = rw (event_fails raw new_credentials c n) refl
events_fail raw (none_event ∷ es) c n = rw (event_fails raw none_event c n) refl

-- Where the user interface enters credentials while the client is beyond NO_CONNECTION and not in
-- CONNECTED_NO_CREDENTIALS, the assertion of the next poll fails.
pub poll_fails :
    (raw : Bytes) (p : SocketPoll) (uname upasswd email : Bytes) (c : Connection)
    → state_value no_connection < state_value c.cnx_state
    → c.cnx_state ≢ connected_no_credentials
    → poll raw p (registration_data uname upasswd email c) ≡ none
unfolding poll registration_data
poll_fails raw p uname upasswd email c l n =
    rw (above, events_fail raw c.ext_event (registration_data uname upasswd email c) n) refl
  where
    above : leb (state_value c.cnx_state) 2 ≡ false
    above = ground arith

-- the client after the rejection, and after a poll that sent its credentials
abbrev waiting : Connection → Connection
waiting c = record c { cnx_state = connected_no_credentials }

abbrev registration : Bytes → Connection → MsgRequest
registration raw c = record {
  l1_msg_id = registration_req;
  msg = write_at (64 + length c.user_email + 1) (0 ∷ []) (
      write_at 64 (take 128 c.user_email)
        (put_string 32 c.user_passwd (put_string 0 c.user_name raw)));
  nb_bytes = 192;
}

abbrev sent : (raw : Bytes) (n : ℕ) → Connection → Connection
sent raw n c = record c {
  cnx_state = registering;
  ext_event = [];
  tx_fifo = drop n (c.tx_fifo ++ registration raw c ∷ []);
}

-- A client that is registering and has no event pending is given another chance: after a
-- REGISTRATION_REJ, new credentials from the user interface and a poll in which no message comes in
-- and the socket takes `n` messages from its queue to send them, it is registering again, with no
-- event pending, and a REGISTRATION_REQ has been put at the end of the queue, from which the `n`
-- messages at the front are gone.
pub poll_registers_again :
    (raw raw' body uname upasswd email : Bytes) (n : ℕ) (c : Connection)
    → c.cnx_state ≡ registering
    → c.ext_event ≡ []
    → (c1 : Connection) × (c2 : Connection) × (m : MsgRequest) × (handle_server_message raw
          (record { l1_msg_id = registration_rej; l1_body = body })
          c
        ≡ some c1)
      × (poll raw' (received n []) (registration_data uname upasswd email c1) ≡ some c2)
      × (c2.cnx_state ≡ registering)
      × (c2.ext_event ≡ [])
      × (c2.tx_fifo ≡ drop n (c.tx_fifo ++ m ∷ []))
      × (m.l1_msg_id ≡ registration_req)
unfolding poll registration_data handle_server_message
poll_registers_again raw raw' body uname upasswd email n c s e =
    let entered = registration_data uname upasswd email (waiting c) in
    (
      waiting c,
      sent raw' n entered,
      registration raw' entered,
      rw s refl,
      rw e refl,
      refl,
      refl,
      refl,
      refl,
    )
