-- ===== src/GameServer/Startup.antt =====
-- gameServer.cpp: the server from the call of server_main on.
use hex.Base.{
  ◌≡◌, refl, true, Bool-cases, inl, inr, Option, none, some, List, ℤ, pos, ltb_ℤ, Bool, not, ◌&&◌,
  if◌then◌else◌,
}
use hex.Router.{FdSet}
use hex.Router.Serve.{Handlers}
use hex.GameServer.{
  Turn, Server, start, ListenCalls, Setup, if_done, sock_max_pending, after_socket, after_bind,
  after_listen, setup_listen_socket, launched, server_main,
}
use hex.GameServer.Tables.{AllFitSet, Orphan, Sound, start-Sound}

abbrev pub is_done : ℤ → Bool
is_done status = not (ltb_ℤ status (pos 0))

-- none of the four calls, each made on the descriptor of the first, returns a negative number
abbrev pub all_fine : {N : Type 0} → ListenCalls N → N → Bool
all_fine calls net =
    let (s, net1) = calls.socket net in
    let (b, net2) = calls.bind s net1 in
    let (l, net3) = calls.listen s sock_max_pending net2 in
    let (f, net4) = calls.fcntl s net3 in
    is_done s && (is_done b && (is_done l && (is_done f && true)))

module _ {N C : Type 0} (calls : ListenCalls N) (h : Handlers C) where
  module _ (read write error : FdSet) (ts : List (Turn C)) where
    abbrev launch : Setup N → Option (Server C)
    launch s = launched calls h read write error ts s

    -- one call, with what follows it
    call_lem :
        (r : ℤ × N) (next : ℤ → N → Setup N) (fine : Bool) (result : Option (Server C))
        → launch (next r.0 r.1) ≡ (if fine then result else none)
        → launch (if_done next r) ≡ (if is_done r.0 && fine then result else none)
    unfolding launched
    call_lem (status, net) next fine result e = elim (Bool-cases (ltb_ℤ status (pos 0))) [
      | inl t ↦ rw t refl
      | inr f ↦ rw f e
    ]

    -- server_main starts the server exactly where none of the four calls that make the listening
    -- socket fails, and otherwise ends in an exception; where each accepted descriptor is positive
    -- and below FD_SETSIZE, the server that is started, after any number of turns, whatever the
    -- system reports and the connections do, either runs on, with tables that agree but for accepted
    -- descriptors for which the constructor of the connection threw, or has stopped at a failed
    -- assertion, a null pointer or an access outside an array: no exception ends it.
    pub server_main-Sound :
        (net : N)
        → AllFitSet ts
        → (server_main calls h read write error ts net
            ≡ (if all_fine calls net then some (start h read write error ts) else none))
          × Sound (Orphan ts) (start h read write error ts)
    unfolding server_main setup_listen_socket launched
    server_main-Sound net fits =
        let r1 = calls.socket net in
        let r2 = calls.bind r1.0 r1.1 in
        let r3 = calls.listen r1.0 sock_max_pending r2.1 in
        let r4 = calls.fcntl r1.0 r3.1 in
        let started = some (start h read write error ts) in
        (
          call_lem r1 (after_socket calls)
              (is_done r2.0 && (is_done r3.0 && (is_done r4.0 && true))) started
              (call_lem r2 (after_bind calls r1.0) (is_done r3.0 && (is_done r4.0 && true)) started
                (call_lem r3 (after_listen calls r1.0) (is_done r4.0 && true) started
                  (call_lem r4 (λ f. λ net4. (some r1.0, net4)) true started refl))),
          start-Sound h read write error ts fits,
        )
