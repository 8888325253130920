-- ===== src/GameClient.antt =====
-- gameClient.cpp: the start of the client and the loop that polls its connection, over the rounds
-- that the system and the other thread give.
pub mod States
mod Tests
use hex.Base.{Bool, true, false, Option, none, some, List, [], ◌∷◌, if◌then◌else◌, leb}
use hex.Protocol.{Bytes}
use hex.Client.{
  Connection, new_connection, registration_data, set_state, start_connection_to_server, state_value,
  connecting, no_connection,
}
use hex.Client.Poll.{SocketPoll, poll, handle_ext_events}
use hex.Utilities.{Family, Interface, get_ipv4_address, display_network_addresses}

-- How the client stands: it runs on, its loop has returned, a text has been thrown, an assertion
-- has failed, or exit() has been called. A text is thrown where there is a connection or not.
pub data Standing : Type 0 where
  running : Connection → Standing
  finished : Connection → Standing
  thrown : Option Connection → Standing
  aborted : Standing
  exited : Standing

-- how a call of the client's socket ends: it returns, throws a text, or asserts
pub data Call (R : Type 0) : Type 0 where
  went : R → Call R
  threw failed : Call R

-- the arguments of RegistrationDataFromUserInterface
abbrev pub Credentials : Type 0
Credentials = Bytes × (Bytes × Bytes)

-- A round of the loop: what the user interface has entered since the one before, application_end at
-- its test, the body that a handler of external events
-- allocates, and what the socket does in its poll. The wait of half a second changes nothing.
pub record Round : Type 0 where
  pub credentials : List Credentials
  pub application_end : Bool
  pub raw : Bytes
  pub socket : Call SocketPoll

of_poll : Option Connection → Standing
of_poll none = aborted
of_poll (some c) = running c

of_events : Option Connection → Standing
of_events none = aborted
of_events (some c) = thrown (some c)

-- ClientConnection::poll in a round; where the socket throws, its queue is left as it was before
poll_at : (raw : Bytes) → Call SocketPoll → Connection → Standing
unfolding of_poll of_events poll handle_ext_events
poll_at raw (went p) c = of_poll (poll raw p c)
poll_at raw threw c =
    if leb (state_value c.cnx_state) (state_value no_connection)
    then running c
    else of_events (handle_ext_events raw c)
poll_at raw failed c =
    if leb (state_value c.cnx_state) (state_value no_connection) then running c else aborted

-- the calls of RegistrationDataFromUserInterface
after_entries : List Credentials → Connection → Connection
unfolding registration_data
after_entries [] c = c
after_entries ((uname, (upasswd, email)) ∷ es) c =
    after_entries es (registration_data uname upasswd email c)

go_on : (Connection → Standing) → Standing → Standing
go_on loop (running c) = loop c
go_on loop s = s

-- the loop, for as many rounds as are given; its `catch` throws again
unfoldable pub client_bg_loop : List Round → Connection → Standing
unfolding go_on poll_at after_entries
client_bg_loop [] c = running c
client_bg_loop (r ∷ rs) c =
    let c' = after_entries r.credentials c in
    let rest = go_on (client_bg_loop rs) (poll_at r.raw r.socket c') in
    if r.application_end then finished c' else rest

-- ClientConnection::createObject and object(): the one object, made where there is none yet; `made`
-- is how the constructor's calls of the socket end
unfoldable pub create_object : (made : Call (Unit {0})) → Option Connection → Standing
unfolding new_connection
create_object made (some c) = running c
create_object (went u) none = running new_connection
create_object threw none = thrown none
create_object failed none = aborted

-- StartConnectionToServer, with how `clientSocket->connect()` ends
started_at : (raw : Bytes) → (connect : Call (Unit {0})) → Connection → Standing
unfolding start_connection_to_server set_state of_poll of_events
started_at raw (went u) c = of_poll (start_connection_to_server raw c)
started_at raw threw c = of_events (set_state connecting c)
started_at raw failed c = aborted

init_at :
    (made connect : Call (Unit {0})) (raw : Bytes)
    → Option (Option Bytes)
    → Option Connection
    → Standing
unfolding started_at create_object go_on
init_at made connect raw none c = exited
init_at made connect raw (some none) c = thrown c
init_at made connect raw (some (some addr)) c =
    go_on (started_at raw connect) (create_object made c)

-- What the system does for the interfaces: the list that display_network_addresses gets, the result
-- of getnameinfo there, and the list that get_ipv4_address gets.
pub record Network : Type 0 where
  pub displayed : Option (List Interface)
  pub getnameinfo : Family → Bytes → Bool
  pub getifaddrs : Option (List Interface)

unfoldable pub client_cnx_init :
    Network
    → (ip_interface_name : Bytes) (made connect : Call (Unit {0})) (raw : Bytes) → Option Connection
    → Standing
unfolding init_at get_ipv4_address display_network_addresses
client_cnx_init net name made connect raw c =
    if display_network_addresses net.getnameinfo net.displayed
    then init_at made connect raw (get_ipv4_address net.getifaddrs name) c
    else exited

-- what the caller of client_background_main is left with: its `catch (...)` takes what is thrown
pub data Left : Type 0 where
  still_running : Connection → Left
  returned : Option Connection → Left
  aborted exited : Left

left : Standing → Left
left (running c) = still_running c
left (finished c) = returned (some c)
left (thrown c) = returned c
left Standing.aborted = Left.aborted
left Standing.exited = Left.exited

unfoldable pub client_background_main :
    Network
    → (ip_interface_name : Bytes) (made connect : Call (Unit {0})) (raw : Bytes) → List Round
    → Option Connection
    → Left
unfolding left client_bg_loop client_cnx_init go_on
client_background_main net name made connect raw rs c =
    left (go_on (client_bg_loop rs) (client_cnx_init net name made connect raw c))
