-- ===== src/GameServer/Tables.antt =====
-- gameServer.cpp: the router's tables in the loop of the server.
use hex.Base.{
  ◌≡◌, ◌⊎◌, true, ℕ, ◌<◌, refl, Bool, false, Option, none, some, List, [], ◌∷◌, inl, inr,
  length-replicate,
}
use hex.Router.{
  Thrown, Made, not_made, FdSet, find, text, out_of_range, assertion, null_pointer, overrun,
  ServerSocketsRouter, Out, ok, raised, server_sockets_router, create_client_connection,
}
use hex.Router.Sets.{fd_isset-clear}
use hex.Router.Coherent.{Agree}
use hex.Router.Serve.{Handlers, serve_client_sockets}
use hex.Router.Serve.Invariant.{Safe, Safe-and_then}
use hex.Router.Serve.Turns.{create_client_connection-Safe, serve_client_sockets-Safe}
use hex.GameServer.{
  incoming_connection_request, Turn, Server, running, stopped, admitted, waited, server_turn,
  caught, next_turn, server_loop, start,
}

-- a descriptor that an fd_set can hold, and that is not the standard input
abbrev pub FitsSet : Option (Option ℕ) → Type 0
FitsSet (some (some d)) = (0 < d) × (d < 1024)
FitsSet _ = Unit

abbrev pub AllFitSet : {C : Type 0} → List (Turn C) → Type 0
AllFitSet [] = Unit
AllFitSet (t ∷ ts) = FitsSet (incoming_connection_request t.accept) × AllFitSet ts

-- a turn accepts the descriptor, and the constructor of its connection throws
abbrev pub Unmade : {C : Type 0} → Turn C → ℕ → Type 0
Unmade t d =
    (e : Thrown) × (incoming_connection_request t.accept ≡ some (some d))
    × (t.connection ≡ not_made e)

-- the descriptors whose connection could not be made
abbrev pub Orphan : {C : Type 0} → List (Turn C) → ℕ → Type 0
Orphan [] d = ⊥
Orphan (t ∷ ts) d = Unmade t d ⊎ Orphan ts d

-- the tables of a server that runs agree, but for descriptors of `L`; it stops at assertions and
-- wild accesses only
abbrev pub Sound : (L : ℕ → Type 0) → {C : Type 0} → Server C → Type 0
Sound L (running r) = Agree L r
Sound L (stopped text) = ⊥
Sound L (stopped out_of_range) = ⊥
Sound L (stopped t) = Unit

module _ (L : ℕ → Type 0) {C : Type 0} (h : Handlers C) where
  admitted-Safe :
      (i : Option (Option ℕ)) (x : Made C) (r : ServerSocketsRouter C)
      → FitsSet i
      → ((d : ℕ) (e : Thrown) → i ≡ some (some d) → x ≡ not_made e → L d)
      → Agree L r
      → Safe L (admitted h i x r)
  unfolding admitted
  admitted-Safe none x r fits left k = k
  admitted-Safe (some none) x r fits left k = k
  admitted-Safe (some (some d)) x r fits left k =
      Safe-and_then L (λ c'. ok tt) (create_client_connection d x r)
        (create_client_connection-Safe L h d x r fits.0 fits.1 (λ e q. left d e refl q) k)
        (λ c' r' k'. k')

  waited-Safe : (b : Bool) (r : ServerSocketsRouter C) → Agree L r → Safe L (waited h b r)
  unfolding waited
  waited-Safe true r k = k
  waited-Safe false r k = tt

  server_turn-Safe :
      (t : Turn C) (r : ServerSocketsRouter C)
      → FitsSet (incoming_connection_request t.accept)
      → ((d : ℕ) → Unmade t d → L d)
      → Agree L r
      → Safe L (server_turn h t r)
  unfolding server_turn
  server_turn-Safe t r fits left k =
      Safe-and_then L (λ u. waited h t.wait_returns) _
        (Safe-and_then L (λ u. serve_client_sockets h t.pselect)
          (admitted h (incoming_connection_request t.accept) t.connection r)
          (admitted-Safe (incoming_connection_request t.accept) t.connection r fits
            (λ d e i x. left d (e, i, x)) k)
          (λ u r' k'. serve_client_sockets-Safe L h t.pselect r' k'))
        (λ u r' k'. waited-Safe t.wait_returns r' k')

  caught-Sound : (o : Out C (Unit {0})) → Safe L o → Sound L (caught h o)
  unfolding caught
  caught-Sound (ok u r) k = k
  caught-Sound (raised text r) k = k
  caught-Sound (raised out_of_range r) k = k
  caught-Sound (raised assertion r) k = tt
  caught-Sound (raised null_pointer r) k = tt
  caught-Sound (raised overrun r) k = tt

  next_turn-Sound :
      (s : Server C) (loop : ServerSocketsRouter C → Server C)
      → Sound L s
      → ((r : ServerSocketsRouter C) → Agree L r → Sound L (loop r))
      → Sound L (next_turn h loop s)
  next_turn-Sound (running r) loop k go = go r k
  next_turn-Sound (stopped text) loop k go = k
  next_turn-Sound (stopped out_of_range) loop k go = k
  next_turn-Sound (stopped assertion) loop k go = tt
  next_turn-Sound (stopped null_pointer) loop k go = tt
  next_turn-Sound (stopped overrun) loop k go = tt

  server_loop-Sound :
      (ts : List (Turn C)) (r : ServerSocketsRouter C)
      → AllFitSet ts
      → ((d : ℕ) → Orphan ts d → L d)
      → Agree L r
      → Sound L (server_loop h ts r)
  unfolding server_loop
  server_loop-Sound [] r fits left k = k
  server_loop-Sound (t ∷ ts) r fits left k =
      next_turn-Sound (caught h (server_turn h t r)) (server_loop h ts)
        (caught-Sound (server_turn h t r) (server_turn-Safe t r fits.0 (λ d u. left d (inl u)) k))
        (λ r' k'. server_loop-Sound ts r' fits.1 (λ d u. left d (inr u)) k')

-- Where each accepted descriptor is positive and below FD_SETSIZE, the server, from its start and
-- after any number of turns, whatever the system reports and the connections do, either runs on,
-- with tables that agree but for descriptors whose connection could not be made, or has stopped at a
-- failed assertion, a null pointer or an access outside an array: no exception ends it.
pub start-Sound :
    {C : Type 0} (h : Handlers C) (read write error : FdSet) (ts : List (Turn C))
    → AllFitSet ts
    → Sound (Orphan ts) (start h read write error ts)
unfolding start
start-Sound h read write error ts fits =
    server_loop-Sound (Orphan ts) h ts (server_sockets_router read write error) fits (λ d u. u)
      (unfold server_sockets_router find in
        record {
          size = length-replicate {A = Bool} 1024 false;
          listed = λ s e. absurd (cc (e));
          owned = λ s e. absurd (let k = fd_isset-clear 1024 s in cc (e, k));
          below = λ s e. absurd (let k = fd_isset-clear 1024 s in cc (e, k));
          count = refl;
          distinct = tt;
        })
