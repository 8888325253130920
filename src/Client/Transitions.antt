-- ===== src/Client/Transitions.antt =====
-- The states that a message of the server can lead the client to.
use hex.Base.{◌≡◌, refl, some, arith}
use mathlib.Core.Path.{subst}
use hex.Protocol.{
  Bytes, L1Msg, L1MessageId, connection_cnf, connection_rej, user_logging_cnf, user_logging_rej,
  registration_cnf, registration_rej, disconnection_req, disconnection_cnf, poll_req, poll_cnf,
  data_transfer_req, transfer_data_blk, file_transfer_req,
}
use hex.Client.{
  CnxState, connecting, connected_no_credentials, registering, registered, disconnecting, closing,
  auth_rejected, Connection, handle_server_message, dispatch,
}

-- the messages at which the client stays where it is
abbrev pub IsQuiet : L1MessageId → Type 0
IsQuiet connection_rej = Unit {0}
IsQuiet poll_req = Unit {0}
IsQuiet poll_cnf = Unit {0}
IsQuiet data_transfer_req = Unit {0}
IsQuiet transfer_data_blk = Unit {0}
IsQuiet file_transfer_req = Unit {0}
IsQuiet _ = ⊥

-- the moves of the client at a message of the server, by the identifier of the message
pub data Moves : L1MessageId → CnxState → CnxState → Type 0 where
  opened : Moves connection_cnf connecting connected_no_credentials
  in_by_registration : Moves registration_cnf registering registered
  in_by_login : Moves user_logging_cnf registering registered
  told_early : Moves registration_rej connecting connected_no_credentials
  try_again : Moves registration_rej registering connected_no_credentials
  shut_out : Moves user_logging_rej registering auth_rejected
  server_leaves : {s : CnxState} → Moves disconnection_req s closing
  left : Moves disconnection_cnf disconnecting closing
  quiet : {id : L1MessageId} {s : CnxState} → IsQuiet id → Moves id s s

-- a move, with the state reached named by an equation
there : {id : L1MessageId} {s t u : CnxState} → (t ≡ u) × Moves id s t → Moves id s u
there {id} {s} (e, m) = subst (Moves id s) e m

stays :
    {id : L1MessageId} (c c' : Connection)
    → IsQuiet id
    → some c ≡ some c'
    → Moves id c.cnx_state c'.cnx_state
stays {id} c c' q h =
    let e : c ≡ c' = cc in subst (λ d. Moves id c.cnx_state d.cnx_state) e (quiet q)

module _ (raw body : Bytes) where
  moves_at :
      (id : L1MessageId) (s : CnxState) (c c' : Connection)
      → c.cnx_state ≡ s
      → dispatch id raw body c ≡ some c'
      → Moves id s c'.cnx_state
  unfolding dispatch
  moves_at connection_cnf connecting c c' e h = there (ground arith, opened)
  moves_at connection_cnf _ c c' e h = absurd (ground arith)
  moves_at registration_cnf registering c c' e h = there (ground arith, in_by_registration)
  moves_at registration_cnf _ c c' e h = absurd (ground arith)
  moves_at registration_rej connecting c c' e h = there (ground arith, told_early)
  moves_at registration_rej registering c c' e h = there (ground arith, try_again)
  moves_at registration_rej _ c c' e h = absurd (ground arith)
  moves_at user_logging_cnf registering c c' e h = there (ground arith, in_by_login)
  moves_at user_logging_cnf _ c c' e h = absurd (ground arith)
  moves_at user_logging_rej registering c c' e h = there (ground arith, shut_out)
  moves_at user_logging_rej _ c c' e h = absurd (ground arith)
  moves_at disconnection_req s c c' e h = there (ground arith, server_leaves)
  moves_at disconnection_cnf disconnecting c c' e h = there (ground arith, left)
  moves_at disconnection_cnf _ c c' e h = absurd (ground arith)
  moves_at connection_rej s c c' e h =
      subst (λ u. Moves connection_rej u c'.cnx_state) e (stays c c' tt (ground arith))
  moves_at poll_req s c c' e h = subst (λ u. Moves poll_req u c'.cnx_state) e (stays c c' tt h)
  moves_at poll_cnf s c c' e h = subst (λ u. Moves poll_cnf u c'.cnx_state) e (stays c c' tt h)
  moves_at data_transfer_req s c c' e h =
      subst (λ u. Moves data_transfer_req u c'.cnx_state) e (stays c c' tt h)
  moves_at transfer_data_blk s c c' e h =
      subst (λ u. Moves transfer_data_blk u c'.cnx_state) e (stays c c' tt h)
  moves_at file_transfer_req s c c' e h =
      subst (λ u. Moves file_transfer_req u c'.cnx_state) e (stays c c' tt h)
  moves_at _ s c c' e h = absurd (ground arith)

-- Where a client handles a message of the server with no assertion failing, its state makes one of
-- the listed moves: it gets registered only from REGISTERING and by a confirmation, and a message
-- that is none of the listed ones is never handled.
pub handle_server_message-Moves :
    (raw : Bytes) (m : L1Msg) (c c' : Connection)
    → handle_server_message raw m c ≡ some c'
    → Moves m.l1_msg_id c.cnx_state c'.cnx_state
unfolding handle_server_message
handle_server_message-Moves raw m c c' h =
    moves_at raw m.l1_body m.l1_msg_id c.cnx_state c c' refl h
