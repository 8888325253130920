-- ===== src/Client/Tests.antt =====
-- The theorems on the client, on a client that registers.
use hex.Base.{drop, ◌≡◌, ◌<◌, ◌≢◌, refl, none, some, [], ◌∷◌, ◌++◌, arith, replicate, length}
use hex.Protocol.{Bytes, L1Msg, MsgRequest, registration_cnf, registration_rej, registration_req}
use hex.Client.{
  registering, registered, connected_no_credentials, Connection, new_connection, registration_data,
  handle_server_message,
}
use hex.Client.Poll.{poll, received}
use hex.Client.Credentials.{registration_data_bounded, poll_fails, poll_registers_again}
use hex.Client.Transitions.{Moves, handle_server_message-Moves}

abbrev long_name : Bytes
long_name = replicate 40 65

abbrev client : Connection
unfolding new_connection
client = record new_connection { cnx_state = registering }

abbrev confirmation : L1Msg
confirmation = record { l1_msg_id = registration_cnf; l1_body = [] }

registration_data_bounded_example :
    let d = registration_data long_name long_name long_name client in
    (length d.user_name < 32) × (length d.user_passwd < 32) × (length d.user_email < 128)
registration_data_bounded_example = registration_data_bounded long_name long_name long_name client

poll_fails_example :
    poll [] (received 0 []) (registration_data long_name long_name long_name client) ≡ none
unfolding client
poll_fails_example =
    poll_fails [] (received 0 []) long_name long_name long_name client (omega arith)
      still_registering
  where
    still_registering : registering ≢ connected_no_credentials
    still_registering e = cc

poll_registers_again_example :
    (c1 : Connection) × (c2 : Connection) × (m : MsgRequest) × (handle_server_message []
        (record { l1_msg_id = registration_rej; l1_body = [] })
        client
      ≡ some c1)
    × (poll long_name (received 1 []) (registration_data long_name long_name long_name c1)
        ≡ some c2)
    × (c2.cnx_state ≡ registering)
    × (c2.ext_event ≡ [])
    × (c2.tx_fifo ≡ drop 1 (client.tx_fifo ++ m ∷ []))
    × (m.l1_msg_id ≡ registration_req)
unfolding client
poll_registers_again_example =
    poll_registers_again [] long_name [] long_name long_name long_name 1 client refl refl

handle_server_message-Moves_example : Moves registration_cnf registering registered
unfolding handle_server_message client
handle_server_message-Moves_example = handle_server_message-Moves [] confirmation client _ refl
