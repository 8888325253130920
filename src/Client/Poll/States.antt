-- ===== src/Client/Poll/States.antt =====
-- The states that a poll (ClientConnection.cpp) can lead the client to.
use mathlib.Core.Path.{subst}
use hex.Base.{
  drop, ◌≡◌, refl, sym, true, Bool-cases, inl, inr, Option, none, some, List, [], ◌∷◌, arith, leb,
}
use hex.Protocol.{Bytes, L1Msg, L1MessageId}
use hex.Client.{
  CnxState, Connection, set_state, may_enter, no_connection, connected, registering,
  connected_no_credentials, no_socket, cnx_error, connecting, registered, disconnecting, closing,
  cnx_rejected, auth_rejected, CnxExtEvent, none_event, new_credentials, ◌>>=◌,
  handle_server_message, send_registration_req, state_value,
}
use hex.Client.Transitions.{Moves, handle_server_message-Moves}
use hex.Client.Poll.{
  handle_one_ext_event, ext_events_loop, handle_ext_events, socket_disconnected, hung_up, stopped,
  SocketPoll, lost, received, messages_loop, serve_socket, poll,
}

-- a step of the client: a message of the server, credentials from the user, or the loss of the
-- connection
pub data Step : CnxState → CnxState → Type 0 where
  message : {id : L1MessageId} {s t : CnxState} → Moves id s t → Step s t
  credentials : Step connected_no_credentials registering
  dropped : {s : CnxState} → Step s no_connection

pub data Reach (s : CnxState) : CnxState → Type 0 where
  here : Reach s s
  next : {t u : CnxState} → Reach s t → Step t u → Reach s u

pub Reach-trans : {s t u : CnxState} → Reach s t → Reach t u → Reach s u
Reach-trans r here = r
Reach-trans r (next q st) = next (Reach-trans r q) st

entered :
    (new_state : CnxState) (c c' : Connection)
    → set_state new_state c ≡ some c'
    → (may_enter new_state c.cnx_state ≡ true) × (c'.cnx_state ≡ new_state)
unfolding set_state
entered new_state c c' h = ground arith

only_then : (s : CnxState) → may_enter connected s ≡ true → s ≡ connected_no_credentials
unfolding may_enter
only_then connected_no_credentials h = refl
only_then no_socket h = cc
only_then cnx_error h = cc
only_then no_connection h = cc
only_then connecting h = cc
only_then connected h = cc
only_then registering h = cc
only_then registered h = cc
only_then disconnecting h = cc
only_then closing h = cc
only_then cnx_rejected h = cc
only_then auth_rejected h = cc

bind_some :
    (m : Option Connection) (f : Connection → Option Connection) (c' : Connection)
    → (m >>= f) ≡ some c'
    → (c : Connection) × (m ≡ some c) × (f c ≡ some c')
bind_some none f c' h = cc
bind_some (some c) f c' h = (c, refl, h)

stays :
    (c c' : Connection)
    → ◌≡◌ {A = Option Connection} (some c) (some c')
    → Reach c.cnx_state c'.cnx_state
stays c c' h =
    let e : c ≡ c' = cc in subst (λ (d : Connection). Reach c.cnx_state d.cnx_state) e here

event-Reach :
    (raw : Bytes) (e : CnxExtEvent) (c c' : Connection)
    → handle_one_ext_event raw e c ≡ some c'
    → Reach c.cnx_state c'.cnx_state
unfolding handle_one_ext_event
event-Reach raw none_event c c' h = cc
event-Reach raw new_credentials c c' h =
    let (c1, e1, h1) = bind_some (set_state connected c) _ c' h in
    let from = only_then c.cnx_state (entered connected c c1 e1).0 in
    let to = (entered registering (send_registration_req raw c1) c' h1).1 in
    subst (λ s. Reach s c'.cnx_state) (sym from)
      (subst (Reach connected_no_credentials) (sym to) (next here credentials))

events-Reach :
    (raw : Bytes) (es : List CnxExtEvent) (c c' : Connection)
    → ext_events_loop raw es c ≡ some c'
    → Reach c.cnx_state c'.cnx_state
unfolding ext_events_loop
events-Reach raw [] c c' h = stays c c' h
events-Reach raw (e ∷ es) c c' h =
    let (c1, e1, h1) = bind_some (handle_one_ext_event raw e c) (ext_events_loop raw es) c' h in
    Reach-trans (event-Reach raw e c c1 e1) (events-Reach raw es c1 c' h1)

pub handle_ext_events-Reach :
    (raw : Bytes) (c c' : Connection)
    → handle_ext_events raw c ≡ some c'
    → Reach c.cnx_state c'.cnx_state
unfolding handle_ext_events
handle_ext_events-Reach raw c c' h =
    let (c1, e1, h1) = bind_some (ext_events_loop raw c.ext_event c) _ c' h in
    let same : c1.cnx_state ≡ c'.cnx_state = ground (arith, h1) in
    subst (Reach c.cnx_state) same (events-Reach raw c.ext_event c c1 e1)

messages-Reach :
    (ms : List (Bytes × L1Msg)) (c c' : Connection)
    → messages_loop ms c ≡ some c'
    → Reach c.cnx_state c'.cnx_state
unfolding messages_loop
messages-Reach [] c c' h = stays c c' h
messages-Reach ((raw, m) ∷ ms) c c' h =
    let (c1, e1, h1) = bind_some (handle_server_message raw m c) (messages_loop ms) c' h in
    Reach-trans (next here (message (handle_server_message-Moves raw m c c1 e1)))
      (messages-Reach ms c1 c' h1)

socket-Reach :
    (p : SocketPoll) (c c' : Connection)
    → serve_socket p c ≡ some c'
    → Reach c.cnx_state c'.cnx_state
unfolding serve_socket socket_disconnected
socket-Reach (lost hung_up) c c' h =
    subst (Reach c.cnx_state) (sym (entered no_connection c c' h).1) (next here dropped)
socket-Reach (lost stopped) c c' h =
    subst (Reach c.cnx_state) (sym (entered no_connection (record c { tx_fifo = [] }) c' h).1)
      (next here dropped)
socket-Reach (received sent ms) c c' h =
    messages-Reach ms (record c { tx_fifo = drop sent c.tx_fifo }) c' h

pub poll-Reach :
    (raw : Bytes) (p : SocketPoll) (c c' : Connection)
    → poll raw p c ≡ some c'
    → Reach c.cnx_state c'.cnx_state
unfolding poll
poll-Reach raw p c c' h =
    elim (Bool-cases (leb (state_value c.cnx_state) (state_value no_connection))) [
      | inl t ↦ stays c c' (rw t at h)
      | inr f ↦
          let (c1, e1, h1) = bind_some (handle_ext_events raw c) (serve_socket p) c' (rw f at h) in
          Reach-trans (handle_ext_events-Reach raw c c1 e1) (socket-Reach p c1 c' h1)
    ]
