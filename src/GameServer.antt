-- ===== src/GameServer.antt =====
-- gameServer.cpp: the loop of the server, over the connection requests and the events on sockets
-- that come in its turns.
pub mod Tables
pub mod Startup
mod Tests
use hex.Base.{ℕ, Bool, Option, none, some, List, [], ◌∷◌, ℤ, pos, ltb_ℤ, if◌then◌else◌}
use hex.MsgSocket.{Errno, ewouldblock}
use hex.Router.{
  FdSet, Thrown, text, out_of_range, assertion, null_pointer, overrun, ServerSocketsRouter, Out, ok,
  Made, raised, server_sockets_router, create_client_connection,
}
use hex.Router.Serve.{and_then, Handlers, Selected, serve_client_sockets}

-- the result of ::accept
pub data AcceptResult : Type 0 where
  accepted : (descr : ℕ) → AcceptResult
  not_accepted : Errno → AcceptResult

-- IncomingConnectionRequest: `none` is the exception, `some none` is false
unfoldable pub incoming_connection_request : AcceptResult → Option (Option ℕ)
incoming_connection_request (accepted d) = some (some d)
incoming_connection_request (not_accepted ewouldblock) = some none
incoming_connection_request (not_accepted _) = none

-- what the system does in a turn: the result of accept, how the connection is made for a new client,
-- pselect, and whether waitUsec returns or its assertion fails
pub record Turn (C : Type 0) : Type 0 where
  pub accept : AcceptResult
  pub connection : Made C
  pub pselect : ℕ → (read write error : FdSet) → Selected
  pub wait_returns : Bool

-- the server after a turn
pub data Server (C : Type 0) : Type 0 where
  running : ServerSocketsRouter C → Server C
  stopped : Thrown → Server C

module _ {C : Type 0} (h : Handlers C) where
  admitted : Option (Option ℕ) → Made C → ServerSocketsRouter C → Out C (Unit {0})
  unfolding create_client_connection
  admitted none c r = raised text r
  admitted (some none) c r = ok tt r
  admitted (some (some d)) c r = and_then (λ c'. ok tt) (create_client_connection d c r)

  waited : (wait_returns : Bool) → ServerSocketsRouter C → Out C (Unit {0})
  waited wait_returns r = if wait_returns then ok tt r else raised assertion r

  -- the body of the `try`
  unfoldable pub server_turn : Turn C → ServerSocketsRouter C → Out C (Unit {0})
  unfolding incoming_connection_request admitted serve_client_sockets waited
  server_turn t r =
      and_then (λ u. waited t.wait_returns)
        (and_then (λ u. serve_client_sockets h t.pselect)
          (admitted (incoming_connection_request t.accept) t.connection r))

  -- `catch(...)`: a failed assertion or an access outside the objects is no exception
  caught : Out C (Unit {0}) → Server C
  caught (ok u r) = running r
  caught (raised text r) = running r
  caught (raised out_of_range r) = running r
  caught (raised t r) = stopped t

  abbrev next_turn : (ServerSocketsRouter C → Server C) → Server C → Server C
  next_turn loop (running r) = loop r
  next_turn loop (stopped t) = stopped t

  -- the loop, for as many turns as are given
  unfoldable pub server_loop : List (Turn C) → ServerSocketsRouter C → Server C
  unfolding server_turn caught
  server_loop [] r = running r
  server_loop (t ∷ ts) r = next_turn (server_loop ts) (caught (server_turn t r))

  -- the constructor of GameServer creates the router, on sets that the memory held
  unfoldable pub start : (read write error : FdSet) → List (Turn C) → Server C
  unfolding server_loop server_sockets_router
  start read write error ts = server_loop ts (server_sockets_router read write error)

-- The calls of the system that make the listening socket, with its states in `N`. `bind`, `listen`
-- and `fcntl` are given the descriptor; `listen` is given SOCK_MAX_PENDING.
pub record ListenCalls (N : Type 0) : Type 0 where
  pub socket : N → ℤ × N
  pub bind : ℤ → N → ℤ × N
  pub listen : ℤ → (backlog : ℕ) → N → ℤ × N
  pub fcntl : ℤ → N → ℤ × N

abbrev pub sock_max_pending : ℕ
sock_max_pending = 16

-- SetupListenSocket: the descriptor, or `none` for the exception, which is a text
abbrev pub Setup : Type 0 → Type 0
Setup N = Option ℤ × N

abbrev pub if_done : {N : Type 0} → (ℤ → N → Setup N) → ℤ × N → Setup N
if_done next (status, net) = if ltb_ℤ status (pos 0) then (none, net) else next status net

module _ {N : Type 0} (calls : ListenCalls N) where
  abbrev pub after_listen : ℤ → ℤ → N → Setup N
  after_listen s l net = if_done (λ f. λ net'. (some s, net')) (calls.fcntl s net)

  abbrev pub after_bind : ℤ → ℤ → N → Setup N
  after_bind s b net = if_done (after_listen s) (calls.listen s sock_max_pending net)

  abbrev pub after_socket : ℤ → N → Setup N
  after_socket s net = if_done (after_bind s) (calls.bind s net)

  unfoldable pub setup_listen_socket : N → Setup N
  setup_listen_socket net = if_done after_socket (calls.socket net)

  module _ {C : Type 0} (h : Handlers C) where
    launched : (read write error : FdSet) → List (Turn C) → Setup N → Option (Server C)
    unfolding start
    launched read write error ts (none, net) = none
    launched read write error ts (some descr, net) = some (start h read write error ts)

    -- server_main, for as many turns as are given; `none` is the exception of the constructor
    unfoldable pub server_main : (read write error : FdSet) → List (Turn C) → N → Option (Server C)
    unfolding launched setup_listen_socket
    server_main read write error ts net = launched read write error ts (setup_listen_socket net)
