-- ===== src/Server/Session.antt =====
-- The life of a connection: what each message is answered with.
use hex.Base.{◌≡◌, ◌⊎◌, inl, inr, refl, Bool, true, false, some, [], ◌∷◌, ◌++◌, Bool-cases, ◌==◌}
use mathlib.Core.Bool.{false≢true}
use hex.Protocol.{
  Bytes, L1MessageId, connection_req, connection_cnf, connection_rej, user_logging_req,
  user_logging_rej, registration_req, registration_cnf, registration_rej, disconnection_req,
  disconnection_cnf, L1Msg, MsgRequest, string_eq, c_string, main_version, read_int,
  disconnection_value, user_shutdown,
}
use hex.Server.{
  Outcome, done, threw, then_set, State, empty, registering, closing, Connection,
  send_disconnection_cnf, Accounts, handle_connection_req, handle_registration_req,
  handle_user_login_req, handle_disconnection_req, name_field, password_field, mail_field,
}
use hex.Server.Messages.{handle_client_message, dispatch}

-- the messages that may answer a request of a client
abbrev pub Answers : L1MessageId → L1MessageId → Type 0
Answers connection_req r = (r ≡ connection_cnf) ⊎ (r ≡ connection_rej)
Answers user_logging_req r = (r ≡ registration_cnf) ⊎ (r ≡ user_logging_rej)
Answers registration_req r = (r ≡ registration_cnf) ⊎ (r ≡ registration_rej)
Answers disconnection_req r = r ≡ disconnection_cnf
Answers _ r = ⊥

-- one message has been queued and the router told of it
pub data Answered (c c' : Connection) (id : L1MessageId) : Type 0 where
  answered :
      (r : MsgRequest)
      → c'.tx_fifo ≡ c.tx_fifo ++ r ∷ []
      → c'.outgoing ≡ true
      → Answers id r.l1_msg_id
      → Answered c c' id

-- What the handler of a request ends with: where the socket has not been stopped, it returns and the
-- request is answered; otherwise std::out_of_range goes on to its caller, nothing is queued and the
-- state is as before.
abbrev pub Replied : Connection → L1MessageId → Outcome → Type 0
Replied c id (done c') = (c.running ≡ true) × Answered c c' id
Replied c id (threw c') =
    (c.running ≡ false)
    × (c'.tx_fifo ≡ c.tx_fifo)
    × (c'.outgoing ≡ c.outgoing)
    × (c'.state ≡ c.state)

module _ (raw body : Bytes) (c : Connection) where
  handle_connection_req-Replied : Replied c connection_req (handle_connection_req raw body c)
  unfolding handle_connection_req
  handle_connection_req-Replied = at c.state refl
    where
      at : (s : State) → c.state ≡ s → Replied c connection_req (handle_connection_req raw body c)
      at empty e = elim (Bool-cases (string_eq (c_string body) main_version)) [
        | inl t ↦ elim (Bool-cases c.running) [
          | inl u ↦ rw (e, t, u) (refl, answered _ refl refl (inl refl))
          | inr u ↦ rw (e, t, u) (refl, refl, refl, refl)
        ]
        | inr f ↦ elim (Bool-cases c.running) [
          | inl u ↦ rw (e, f, u) (refl, answered _ refl refl (inr refl))
          | inr u ↦ rw (e, f, u) (refl, refl, refl, refl)
        ]
      ]
      at _ e = elim (Bool-cases c.running) [
        | inl u ↦ rw (e, u) (refl, answered _ refl refl (inr refl))
        | inr u ↦ rw (e, u) (refl, refl, refl, refl)
      ]

  handle_registration_req-Replied :
      (a : Accounts) → Replied c registration_req (handle_registration_req a raw body c)
  unfolding handle_registration_req
  handle_registration_req-Replied a = at c.state refl
    where
      at :
          (s : State)
          → c.state ≡ s
          → Replied c registration_req (handle_registration_req a raw body c)
      at registering e = elim (Bool-cases (a.known_user (name_field body))) [
        | inl t ↦ elim (Bool-cases c.running) [
          | inl u ↦ rw (e, t, u) (refl, answered _ refl refl (inr refl))
          | inr u ↦ rw (e, t, u) (refl, refl, refl, refl)
        ]
        | inr f ↦ elim (Bool-cases (a.correct_email (mail_field body))) [
          | inl t ↦ elim (Bool-cases c.running) [
            | inl u ↦ rw (e, f, t, u) (refl, answered _ refl refl (inr refl))
            | inr u ↦ rw (e, f, t, u) (refl, refl, refl, refl)
          ]
          | inr k ↦ elim (Bool-cases c.running) [
            | inl u ↦ rw (e, f, k, u) (refl, answered _ refl refl (inl refl))
            | inr u ↦ rw (e, f, k, u) (refl, refl, refl, refl)
          ]
        ]
      ]
      at _ e = elim (Bool-cases c.running) [
        | inl u ↦ rw (e, u) (refl, answered _ refl refl (inr refl))
        | inr u ↦ rw (e, u) (refl, refl, refl, refl)
      ]

  handle_user_login_req-Replied :
      (a : Accounts) → Replied c user_logging_req (handle_user_login_req a raw body c)
  unfolding handle_user_login_req
  handle_user_login_req-Replied a = at c.state refl
    where
      at :
          (s : State)
          → c.state ≡ s
          → Replied c user_logging_req (handle_user_login_req a raw body c)
      at registering e = elim (Bool-cases (a.known_user (name_field body))) [
        | inr t ↦ elim (Bool-cases c.running) [
          | inl u ↦ rw (e, t, u) (refl, answered _ refl refl (inr refl))
          | inr u ↦ rw (e, t, u) (refl, refl, refl, refl)
        ]
        | inl f ↦ elim (Bool-cases (a.passwd_ok (name_field body) (password_field body))) [
          | inr t ↦ elim (Bool-cases c.running) [
            | inl u ↦ rw (e, f, t, u) (refl, answered _ refl refl (inr refl))
            | inr u ↦ rw (e, f, t, u) (refl, refl, refl, refl)
          ]
          | inl k ↦ elim (Bool-cases c.running) [
            | inl u ↦ rw (e, f, k, u) (refl, answered _ refl refl (inl refl))
            | inr u ↦ rw (e, f, k, u) (refl, refl, refl, refl)
          ]
        ]
      ]
      at _ e = elim (Bool-cases c.running) [
        | inl u ↦ rw (e, u) (refl, answered _ refl refl (inr refl))
        | inr u ↦ rw (e, u) (refl, refl, refl, refl)
      ]

  handle_disconnection_req-Replied :
      (read_int 0 body == disconnection_value user_shutdown) ≡ true
      → (o : Outcome) × (handle_disconnection_req raw body c ≡ some o)
        × Replied c disconnection_req o
  unfolding handle_disconnection_req
  handle_disconnection_req-Replied e =
      (then_set closing (send_disconnection_cnf raw c), rw e refl, replied)
    where
      replied : Replied c disconnection_req (then_set closing (send_disconnection_cnf raw c))
      replied =
          unfold handle_disconnection_req in
          elim (Bool-cases c.running) [
            | inl u ↦ rw u (refl, answered _ refl refl refl)
            | inr u ↦ rw u (refl, refl, refl, refl)
          ]

-- a message by which a client asks for something, with a cause that the server accepts where it
-- asks to disconnect
abbrev pub is_request : L1MessageId → Bytes → Bool
is_request connection_req body = true
is_request user_logging_req body = true
is_request registration_req body = true
is_request disconnection_req body = read_int 0 body == disconnection_value user_shutdown
is_request _ body = false

request-Replied :
    (a : Accounts) (id : L1MessageId) (raw body : Bytes) (c : Connection)
    → is_request id body ≡ true
    → (o : Outcome) × (dispatch id a raw body c ≡ some o) × Replied c id o
unfolding dispatch
request-Replied a connection_req raw body c q = (_, refl, handle_connection_req-Replied raw body c)
request-Replied a user_logging_req raw body c q =
    (_, refl, handle_user_login_req-Replied raw body c a)
request-Replied a registration_req raw body c q =
    (_, refl, handle_registration_req-Replied raw body c a)
request-Replied a disconnection_req raw body c q = handle_disconnection_req-Replied raw body c q
request-Replied a _ raw body c q = absurd (false≢true q)

-- A request of a client, whose cause is the user's shutdown where it asks to disconnect, fails no
-- assertion in any state. Where the socket has not been stopped, the handler returns and the request
-- is answered by exactly one message, a confirmation or a rejection of the kind asked for (a login
-- is confirmed by the confirmation of a registration), queued behind those before it, and the
-- router is told that the connection has data to send; where it has been stopped,
-- std::out_of_range ends the handler, with nothing queued and the state as before.
pub handle_client_message-Replied :
    (a : Accounts) (raw : Bytes) (m : L1Msg) (c : Connection)
    → is_request m.l1_msg_id m.l1_body ≡ true
    → (o : Outcome) × (handle_client_message a raw m c ≡ some o) × Replied c m.l1_msg_id o
unfolding handle_client_message
handle_client_message-Replied a raw m c q = request-Replied a m.l1_msg_id raw m.l1_body c q
