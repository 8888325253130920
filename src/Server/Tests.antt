-- ===== src/Server/Tests.antt =====
-- The theorems on a connection that opens, registers and disconnects.
use hex.Base.{◌≡◌, refl, some, true, false, Option, List, [], ◌∷◌, ◌++◌, replicate}
use hex.Protocol.{Bytes, L1Msg, connection_req, registration_req, main_version}
use hex.Server.{
  Outcome, remaining, Connection, conn_rejected, new_connection, accounts, handle_connection_req,
}
use hex.Server.Messages.{handle_client_message, handle_messages}
use hex.Server.Session.{Replied, handle_client_message-Replied}
use hex.Server.Admission.{is_hopeful, is_admitted, handle_messages-hopeless, registered_needs}

abbrev opening_msg : L1Msg
opening_msg = record { l1_msg_id = connection_req; l1_body = main_version ++ 0 ∷ [] }

abbrev credentials_msg : L1Msg
credentials_msg = record { l1_msg_id = registration_req; l1_body = replicate 192 0 }

abbrev session : List (Bytes × L1Msg)
session = ([], opening_msg) ∷ ([], credentials_msg) ∷ []

abbrev session_end : Option Outcome
unfolding handle_messages accounts new_connection
session_end = handle_messages accounts session new_connection

handle_client_message-Replied_example :
    (o : Outcome) × (handle_client_message accounts [] opening_msg new_connection ≡ some o)
    × Replied new_connection connection_req o
handle_client_message-Replied_example =
    handle_client_message-Replied accounts [] opening_msg new_connection refl

abbrev turned_away : Connection
unfolding new_connection
turned_away = record new_connection { state = conn_rejected }

handle_messages-hopeless_example :
    is_hopeful (remaining (handle_connection_req [] (main_version ++ 0 ∷ []) turned_away)).state
    ≡ false
unfolding handle_messages new_connection
handle_messages-hopeless_example =
    handle_messages-hopeless accounts (([], opening_msg) ∷ []) turned_away _ refl refl

registered_needs_example : is_admitted accounts session ≡ true
unfolding handle_messages accounts new_connection
registered_needs_example = registered_needs accounts session _ refl refl
