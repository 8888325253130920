-- ===== src/GameClient/States.antt =====
-- Where the loop of the client (gameClient.cpp) can lead its connection.
use mathlib.Core.Path.{subst}
use hex.Base.{◌≡◌, refl, false, Bool-cases, inl, inr, Option, none, some, List, [], ◌∷◌, leb, ◌⊎◌}
use hex.Protocol.{Bytes}
use hex.Client.{
  registration_data, CnxState, Connection, new_connection, state_value, no_connection, connecting,
  start_connection_to_server, set_state, send_connection_req, may_enter,
}
use hex.Client.Poll.{SocketPoll, poll, handle_ext_events}
use hex.Client.Poll.States.{Reach, here, Reach-trans, poll-Reach, handle_ext_events-Reach}
use hex.Utilities.{Interface, get_ipv4_address, display_network_addresses}
use hex.GameClient.{
  Credentials, Network, after_entries, Call, went, threw, failed, Standing, running, finished,
  thrown, aborted, exited, Round, of_poll, of_events, poll_at, go_on, client_bg_loop, create_object,
  started_at, init_at, client_cnx_init, Left, still_running, returned, left, client_background_main,
}

-- the connection has gone from the state `s` to where it stands by steps of the client
abbrev pub Reaches : CnxState → Standing → Type 0
Reaches s (running c) = Reach s c.cnx_state
Reaches s (finished c) = Reach s c.cnx_state
Reaches s (thrown none) = ⊥
Reaches s (thrown (some c)) = Reach s c.cnx_state
Reaches s aborted = Unit
Reaches s exited = ⊥

Reaches-trans : {s t : CnxState} (st : Standing) → Reach s t → Reaches t st → Reaches s st
Reaches-trans (running c) r q = Reach-trans r q
Reaches-trans (finished c) r q = Reach-trans r q
Reaches-trans (thrown none) r q = q
Reaches-trans (thrown (some c)) r q = Reach-trans r q
Reaches-trans aborted r q = tt
Reaches-trans exited r q = q

of_poll-Reaches :
    (s : CnxState) (o : Option Connection)
    → ((c : Connection) → o ≡ some c → Reach s c.cnx_state)
    → Reaches s (of_poll o)
unfolding of_poll
of_poll-Reaches s none h = tt
of_poll-Reaches s (some c) h = h c refl

of_events-Reaches :
    (s : CnxState) (o : Option Connection)
    → ((c : Connection) → o ≡ some c → Reach s c.cnx_state)
    → Reaches s (of_events o)
unfolding of_events
of_events-Reaches s none h = tt
of_events-Reaches s (some c) h = h c refl

poll_at-Reaches :
    (raw : Bytes) (p : Call SocketPoll) (c : Connection) → Reaches c.cnx_state (poll_at raw p c)
unfolding poll_at
poll_at-Reaches raw (went p) c =
    of_poll-Reaches c.cnx_state (poll raw p c) (λ c' e. poll-Reach raw p c c' e)
poll_at-Reaches raw threw c =
    elim (Bool-cases (leb (state_value c.cnx_state) (state_value no_connection))) [
      | inl t ↦ rw t here
      | inr f ↦ rw f (
          of_events-Reaches c.cnx_state (handle_ext_events raw c)
            (λ c' e. handle_ext_events-Reach raw c c' e))
    ]
poll_at-Reaches raw failed c =
    elim (Bool-cases (leb (state_value c.cnx_state) (state_value no_connection))) [
      | inl t ↦ rw t here
      | inr f ↦ rw f tt
    ]

go_on-Reaches :
    (s : CnxState) (loop : Connection → Standing) (st : Standing)
    → Reaches s st
    → ((c : Connection) → Reaches c.cnx_state (loop c))
    → Reaches s (go_on loop st)
unfolding go_on
go_on-Reaches s loop (running c) r all = Reaches-trans (loop c) r (all c)
go_on-Reaches s loop (finished c) r all = r
go_on-Reaches s loop (thrown none) r all = r
go_on-Reaches s loop (thrown (some c)) r all = r
go_on-Reaches s loop aborted r all = tt
go_on-Reaches s loop exited r all = r

after_entries-state :
    (es : List Credentials) (c : Connection) → (after_entries es c).cnx_state ≡ c.cnx_state
unfolding after_entries registration_data
after_entries-state [] c = refl
after_entries-state ((uname, (upasswd, email)) ∷ es) c =
    after_entries-state es (registration_data uname upasswd email c)

-- Whatever comes in the rounds of the loop, the client goes from its state to the one it stands in
-- by the listed steps alone: a move at a message of the server, a registration when the user gives
-- credentials to a client that is connected without, or the loss of the connection; an exception
-- leaves the connection there too, and the loop does not call exit().
pub client_bg_loop-Reaches :
    (rs : List Round) (c : Connection) → Reaches c.cnx_state (client_bg_loop rs c)
unfolding client_bg_loop
client_bg_loop-Reaches [] c = here
client_bg_loop-Reaches (r ∷ rs) c =
    subst (λ s. Reaches s (client_bg_loop (r ∷ rs) c)) (after_entries-state r.credentials c)
      (elim (Bool-cases r.application_end) [
        | inl t ↦ rw t here
        | inr f ↦ rw f (
            go_on-Reaches (after_entries r.credentials c).cnx_state (client_bg_loop rs)
              (poll_at r.raw r.socket (after_entries r.credentials c))
              (poll_at-Reaches r.raw r.socket (after_entries r.credentials c))
              (client_bg_loop-Reaches rs))
      ])

abbrev pub Found : (net : Network) (name : Bytes) → Type 0
Found net name = (addr : Bytes) × (get_ipv4_address net.getifaddrs name ≡ some (some addr))

-- What client_background_main leaves: a connection reached from CONNECTING, where an address was
-- found and the object could be made; none, where no interface of the name has an IPv4 address or
-- the constructor threw; a failed assertion, where an address was found; exit(), where the
-- interfaces could not be listed or displayed.
abbrev pub Leaves : (net : Network) (name : Bytes) (made : Call (Unit {0})) → Left → Type 0
Leaves net name made (still_running c) =
    Found net name × (made ≡ went tt) × Reach connecting c.cnx_state
Leaves net name made (returned (some c)) =
    Found net name × (made ≡ went tt) × Reach connecting c.cnx_state
Leaves net name made (returned none) =
    (get_ipv4_address net.getifaddrs name ≡ some none) ⊎ (Found net name × (made ≡ threw))
Leaves net name made Left.aborted = Found net name
Leaves net name made Left.exited =
    (display_network_addresses net.getnameinfo net.displayed ≡ false) ⊎ (net.getifaddrs ≡ none)

left-Leaves :
    (net : Network) (name : Bytes) (st : Standing)
    → Found net name
    → Reaches connecting st
    → Leaves net name (went tt) (left st)
unfolding left
left-Leaves net name (running c) f r = (f, refl, r)
left-Leaves net name (finished c) f r = (f, refl, r)
left-Leaves net name (thrown none) f r = absurd r
left-Leaves net name (thrown (some c)) f r = (f, refl, r)
left-Leaves net name aborted f r = f
left-Leaves net name exited f r = absurd r

started_at-Reaches :
    (raw : Bytes) (connect : Call (Unit {0}))
    → Reaches connecting (started_at raw connect new_connection)
unfolding started_at of_poll of_events start_connection_to_server set_state send_connection_req
    new_connection may_enter
started_at-Reaches raw (went u) = here
started_at-Reaches raw threw = here
started_at-Reaches raw failed = tt

not_listed :
    (is : Option (List Interface)) (name : Bytes) → get_ipv4_address is name ≡ none → is ≡ none
unfolding get_ipv4_address
not_listed none name e = refl
not_listed (some is) name e = absurd (cc (e))

init-Leaves :
    (net : Network) (name : Bytes) (made connect : Call (Unit {0})) (raw : Bytes) (rs : List Round)
    (o : Option (Option Bytes))
    → get_ipv4_address net.getifaddrs name ≡ o
    → Leaves net name made (left (go_on (client_bg_loop rs) (init_at made connect raw o none)))
unfolding init_at create_object go_on left
init-Leaves net name made connect raw rs none e = inr (not_listed net.getifaddrs name e)
init-Leaves net name made connect raw rs (some none) e = inl e
init-Leaves net name threw connect raw rs (some (some addr)) e = inr ((addr, e), refl)
init-Leaves net name failed connect raw rs (some (some addr)) e = (addr, e)
init-Leaves net name (went u) connect raw rs (some (some addr)) e =
    left-Leaves net name _ (addr, e)
      (go_on-Reaches connecting (client_bg_loop rs) (started_at raw connect new_connection)
        (started_at-Reaches raw connect) (client_bg_loop-Reaches rs))

-- Where there is no connection object yet, client_background_main, whatever the system does in the
-- rounds and whatever the user interface enters between them, leaves a connection only where the
-- interface of the name has an IPv4 address and the constructor returned, and that connection has
-- gone from CONNECTING by the steps of the client alone; it leaves none only where no interface of
-- the name has such an address or the constructor threw, calls exit() only where interfaces could
-- not be listed or displayed, and fails an assertion only where an address was found.
pub client_background_main-Leaves :
    (net : Network) (name : Bytes) (made connect : Call (Unit {0})) (raw : Bytes) (rs : List Round)
    → Leaves net name made (client_background_main net name made connect raw rs none)
unfolding client_background_main client_cnx_init go_on left
client_background_main-Leaves net name made connect raw rs =
    elim (Bool-cases (display_network_addresses net.getnameinfo net.displayed)) [
      | inl t ↦
          rw t
            (init-Leaves net name made connect raw rs (get_ipv4_address net.getifaddrs name) refl)
      | inr f ↦ rw f (inl f)
    ]
