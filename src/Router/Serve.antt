-- ===== src/Router/Serve.antt =====
-- ServerClientConnection.cpp: how ServerSocketsRouter serves the sockets that pselect reports.
pub mod Stores
pub mod Receptions
pub mod Readable
pub mod Incoming
pub mod Invariant
pub mod Turns
use hex.Base.{
  ℕ, zero, suc, ◌+◌, Bool, true, false, not, Option, none, some, List, [], ◌∷◌, ◌++◌, ℤ, pos, ◌-ℤ◌,
  ltb_ℤ, pos_part, neg_part, ◌==◌, if◌then◌else◌,
}
use hex.Router.{
  FdSet, fd_isset, fd_clr, Thrown, text, out_of_range, assertion, null_pointer, overrun, find,
  store, ServerSocketsRouter, Out, ok, raised, release_client_connection, outgoing_data_for_client,
  fds_copy, fds_extract_list,
}

-- how socketDataRead ends: with the descriptors that OutgoingDataForClient has been called with, with
-- the exception socket_disconnection, or with another one
pub data Reading (C : Type 0) : Type 0 where
  handled : C → List ℕ → Reading C
  disconnection : C → Reading C
  failed : Thrown → C → Reading C

-- how socketDataWrite ends
pub data Writing (C : Type 0) : Type 0 where
  wrote : (again : Bool) → C → Writing C
  disconnection : C → Writing C
  failed : Thrown → C → Writing C

-- how socketError ends: with whether the indicators are to be cleared, or with an exception
pub data Erring (C : Type 0) : Type 0 where
  erred : (clear_io_indicators : Bool) → C → Erring C
  failed : Thrown → C → Erring C

-- what the class ServerClientConnection offers
pub record Handlers (C : Type 0) : Type 0 where
  pub socket_error : C → Erring C
  pub socket_data_read : C → Reading C
  pub socket_data_write : C → Writing C
  pub socket_disconnected : C → C

-- what pselect returns: its result and the sets
pub record Selected : Type 0 where
  pub nb_act : ℤ
  pub readfds : FdSet
  pub writefds : FdSet
  pub errorfds : FdSet

abbrev pub and_then : {C A B : Type 0} → (A → ServerSocketsRouter C → Out C B) → Out C A → Out C B
and_then f (ok a r) = f a r
and_then f (raised t r) = raised t r

module _ {C : Type 0} (h : Handlers C) where
  stored : ℕ → C → ServerSocketsRouter C → ServerSocketsRouter C
  stored s c r = record r { socket_map = store s c r.socket_map }

  -- a set without the descriptor, and whether it was in it
  abbrev cleared : ℕ → FdSet → FdSet × ℕ
  cleared s bs = if fd_isset s bs then (fd_clr s bs, 1) else (bs, 0)

  error_handled : ℕ → Bool × C → ServerSocketsRouter C → ServerSocketsRouter C × ℕ
  unfolding stored
  error_handled s (false, c) r = (stored s c r, 1)
  error_handled s (true, c) r = (
    record (stored s c r) {
      select_readfds = (cleared s r.select_readfds).0;
      select_writefds = (cleared s r.select_writefds).0;
    },
    (cleared s r.select_readfds).1 + (cleared s r.select_writefds).1 + 1,
  )

  erring_at : ℕ → Erring C → ServerSocketsRouter C → Out C ℕ
  unfolding error_handled
  erring_at s (erred clear c) r = let (r', n) = error_handled s (clear, c) r in ok n r'
  erring_at s (Erring.failed t c) r = raised t (stored s c r)

  handle_error_at : ℕ → Option C → ServerSocketsRouter C → Out C ℕ
  unfolding erring_at
  handle_error_at s none r = raised out_of_range r
  handle_error_at s (some c) r = erring_at s (h.socket_error c) r

  abbrev counted : ℕ → Out C ℕ → Out C ℕ
  counted nb out = and_then (λ n. ok (nb + n)) out

  unfoldable pub handle_socket_errors : List ℕ → ServerSocketsRouter C → Out C ℕ
  unfolding handle_error_at
  handle_socket_errors [] r = ok 0 r
  handle_socket_errors (s ∷ ss) r =
      and_then (λ n r'. counted n (handle_socket_errors ss r'))
        (handle_error_at s (find s r.socket_map) r)

  flag_all : List ℕ → ServerSocketsRouter C → Out C (Unit {0})
  unfolding outgoing_data_for_client
  flag_all [] r = ok tt r
  flag_all (d ∷ ds) r = and_then (λ u. flag_all ds) (outgoing_data_for_client d r)

  reading_at : ℕ → Reading C → ServerSocketsRouter C → Out C ℕ
  unfolding stored flag_all
  reading_at s (handled c flags) r = and_then (λ u. ok 1) (flag_all flags (stored s c r))
  reading_at s (Reading.disconnection c) r =
      ok 1 (record (stored s (h.socket_disconnected c) r) { dead_list = r.dead_list ++ s ∷ [] })
  reading_at s (Reading.failed t c) r = raised t (stored s c r)

  serve_reception_at : ℕ → Option C → ServerSocketsRouter C → Out C ℕ
  unfolding reading_at
  serve_reception_at s none r = raised out_of_range r
  serve_reception_at s (some c) r = reading_at s (h.socket_data_read c) r

  unfoldable pub serve_socket_receptions : List ℕ → ServerSocketsRouter C → Out C ℕ
  unfolding serve_reception_at
  serve_socket_receptions [] r = ok 0 r
  serve_socket_receptions (s ∷ ss) r =
      and_then (λ n r'. counted n (serve_socket_receptions ss r'))
        (serve_reception_at s (find s r.socket_map) r)

  -- the handler of the exception calls through the outer client_cnx_ptr, which is null
  writing_at : ℕ → Writing C → ServerSocketsRouter C → Out C ℕ
  unfolding stored
  writing_at s (wrote true c) r = ok 1 (stored s c r)
  writing_at s (wrote false c) r =
      ok 1 (record (stored s c r) { select_writefds = fd_clr s r.select_writefds })
  writing_at s (Writing.disconnection c) r = raised null_pointer (stored s c r)
  writing_at s (Writing.failed t c) r = raised t (stored s c r)

  serve_emission_at : ℕ → Option C → ServerSocketsRouter C → Out C ℕ
  unfolding writing_at
  serve_emission_at s none r = raised assertion r
  serve_emission_at s (some c) r = writing_at s (h.socket_data_write c) r

  unfoldable pub serve_socket_emissions : List ℕ → ServerSocketsRouter C → Out C ℕ
  unfolding serve_emission_at
  serve_socket_emissions [] r = ok 0 r
  serve_socket_emissions (s ∷ ss) r =
      and_then (λ n r'. counted n (serve_socket_emissions ss r'))
        (serve_emission_at s (find s r.socket_map) r)

  -- `if (nb_act > 0)` with the list of a set, which `serve` serves
  serve_list :
      (List ℕ → ServerSocketsRouter C → Out C ℕ)
      → Option (List ℕ × ℕ)
      → ℤ
      → ServerSocketsRouter C
      → Out C ℤ
  serve_list serve none nb_act r = raised overrun r
  serve_list serve (some (ss, n)) nb_act r = and_then (λ k. ok (nb_act -ℤ pos k)) (serve ss r)

  serve_set :
      (List ℕ → ServerSocketsRouter C → Out C ℕ)
      → (ServerSocketsRouter C → FdSet)
      → ℤ
      → ServerSocketsRouter C
      → Out C ℤ
  unfolding serve_list
  serve_set serve set nb_act r =
      let out = serve_list serve (fds_extract_list r (set r)) nb_act r in
      if ltb_ℤ (pos 0) nb_act then out else ok nb_act r

  unfoldable pub release_all : List ℕ → ServerSocketsRouter C → Out C (Unit {0})
  unfolding release_client_connection
  release_all [] r = ok tt r
  release_all (d ∷ ds) r = and_then (λ u. release_all ds) (release_client_connection d r)

  -- the assertion on nb_act, and the connections to delete
  finish : ℤ → ServerSocketsRouter C → Out C (Unit {0})
  unfolding release_all
  finish nb_act r =
      let out =
        and_then (λ u r'. ok tt (record r' { dead_list = [] })) (release_all r.dead_list r) in
      if pos_part nb_act + neg_part nb_act == 0 then out else raised assertion r

  selected : Selected → ServerSocketsRouter C → ServerSocketsRouter C
  selected x r = record r {
    select_readfds = x.readfds;
    select_writefds = x.writefds;
    select_errorfds = x.errorfds;
  }

  -- what follows pselect
  unfoldable pub serve_selected : Selected → ServerSocketsRouter C → Out C (Unit {0})
  unfolding selected serve_set handle_socket_errors serve_socket_receptions serve_socket_emissions
      finish
  serve_selected x r = and_then finish (
      and_then (serve_set serve_socket_emissions (λ r. r.select_writefds)) (
        and_then (serve_set serve_socket_receptions (λ r. r.select_readfds))
          (serve_set handle_socket_errors (λ r. r.select_errorfds) x.nb_act (selected x r))))

  prepared :
      Option FdSet
      → Option FdSet
      → (ℕ → FdSet → FdSet → FdSet → Selected)
      → ServerSocketsRouter C
      → Out C (Unit {0})
  unfolding serve_selected
  prepared (some read) (some error) pselect r =
      serve_selected (pselect r.clientsocks_nfds read r.select_writefds error) r
  prepared _ _ pselect r = raised overrun r

  -- `pselect` is given the number of descriptors and the sets
  unfoldable pub serve_client_sockets :
      (pselect : ℕ → (read write error : FdSet) → Selected)
      → ServerSocketsRouter C
      → Out C (Unit {0})
  unfolding prepared
  serve_client_sockets pselect r =
      prepared (fds_copy r r.clientsocks_fds r.select_readfds)
        (fds_copy r r.clientsocks_fds r.select_errorfds) pselect r
