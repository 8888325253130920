-- ===== src/Router/Tests.antt =====
-- Tests of the router, and the witnesses of the theorems about it, on connections that are numbers.
use hex.Base.{
  ℕ, ◌+◌, ◌≡◌, refl, sym, ap, ◌∙◌, Bool, true, false, ◌&&◌, none, some, [], arith, pos, length, ltb,
  ◌==◌, if◌then◌else◌, Bool-cases, inl, inr, length-replicate, eq_of_==, ne_of_==,
}
use hex.Router.{
  not_made, text, FdSet, fd_zero, fd_isset, fd_put, find, ServerSocketsRouter, ok,
  server_sockets_router, create_client_connection, release_client_connection, fds_extract_list,
}
use hex.Router.Sets.{
  fd_isset-clear, positions, length-fd_put, fd_isset-fd_put_other, fds_extract_list-positions,
}
use hex.Router.Coherent.{
  Coherent, OthersKept, with_client, with_client-Coherent, Creates,
  create_client_connection-Creates,
}
use hex.Router.Serve.{Reading, handled, erred, wrote, Handlers, Selected, serve_client_sockets}
use hex.Router.Serve.Receptions.{Harmless}
use hex.Router.Release.{release_client_connection-Coherent}
use hex.Router.Serve.Readable.{OnlyReadable, reported}
use hex.Router.Serve.Incoming.{AllServed, serve_client_sockets-AllServed}

abbrev new_router : ServerSocketsRouter ℕ
new_router = server_sockets_router fd_zero fd_zero fd_zero

new_router-Coherent : Coherent new_router
unfolding server_sockets_router find
new_router-Coherent = record {
  size = length-replicate {A = Bool} 1024 false;
  same = λ s. fd_isset-clear 1024 s;
  below = λ s e. absurd (let k = fd_isset-clear 1024 s in cc (e, k));
  count = refl;
  distinct = tt;
}

create_client_connection-Creates_example :
    Creates 5 (not_made text) new_router (create_client_connection 5 (not_made text) new_router)
unfolding server_sockets_router
create_client_connection-Creates_example =
    create_client_connection-Creates 5 (not_made text) new_router (omega arith) (omega arith)
      (fd_isset-clear 1024 5) new_router-Coherent

-- a router with the connection 7 on the socket 5
abbrev one_client : ServerSocketsRouter ℕ
one_client = with_client 5 7 new_router

one_client-Coherent : Coherent one_client
unfolding server_sockets_router find
one_client-Coherent =
    with_client-Coherent 5 7 new_router (omega arith) (omega arith) refl new_router-Coherent

release_client_connection-Coherent_example :
    (r' : ServerSocketsRouter ℕ) × (release_client_connection 5 one_client ≡ ok tt r')
    × Coherent r'
    × (find 5 r'.socket_map ≡ none)
    × OthersKept 5 one_client.socket_map r'.socket_map
unfolding server_sockets_router find
release_client_connection-Coherent_example =
    release_client_connection-Coherent 5 7 one_client refl one_client-Coherent

only_five : (s : ℕ) → fd_isset s (fd_put true 5 fd_zero) ≡ true → s ≡ 5
only_five s e = elim (Bool-cases (s == 5)) [
  | inl t ↦ eq_of_== s 5 t
  | inr t ↦ absurd (
      let a = fd_isset-fd_put_other true 5 s fd_zero (λ q. ne_of_== s 5 t (sym q)) in
      let b = fd_isset-clear 1024 s in cc (a, b, e))
]

fds_extract_list-positions_example :
    fds_extract_list one_client (fd_put true 5 fd_zero)
    ≡ some (positions 0 (fd_put true 5 fd_zero), length (positions 0 (fd_put true 5 fd_zero)))
unfolding server_sockets_router
fds_extract_list-positions_example =
    fds_extract_list-positions one_client (fd_put true 5 fd_zero)
      (length-fd_put true 5 fd_zero ∙ length-replicate {A = Bool} 1024 false) (omega arith)
      (λ s l. elim (Bool-cases (fd_isset s (fd_put true 5 fd_zero))) [
        | inl t ↦ absurd (let k = only_five s t in omega arith)
        | inr t ↦ t
      ])

-- the connection 7 is broken
abbrev read_number : ℕ → Reading ℕ
read_number c = if c == 7 then Reading.disconnection c else handled (c + 1) []

abbrev numbers : Handlers ℕ
numbers = record {
  socket_error = λ c. erred false c;
  socket_data_read = read_number;
  socket_data_write = λ c. wrote false c;
  socket_disconnected = λ c. 0;
}

-- incoming data on the socket 5, where it is asked for
abbrev reported_set : ℕ → FdSet → FdSet
reported_set n read = if ltb 5 n && fd_isset 5 read then fd_put true 5 fd_zero else fd_zero

abbrev select_five : ℕ → (read write error : FdSet) → Selected
select_five n read write error = record {
  nb_act = pos (length (positions 0 (reported_set n read)));
  readfds = reported_set n read;
  writefds = fd_zero;
  errorfds = fd_zero;
}

both : (a b : Bool) → (a && b) ≡ true → (a ≡ true) × (b ≡ true)
both true b e = (refl, e)
both false b e = absurd (cc (e))

select_five-OnlyReadable :
    (n : ℕ) (read write error : FdSet) → OnlyReadable n read (select_five n read write error)
select_five-OnlyReadable n read write error = elim (Bool-cases (ltb 5 n && fd_isset 5 read)) [
  | inl t ↦ record {
    read_size = rw (t) (length-fd_put true 5 fd_zero ∙ length-replicate {A = Bool} 1024 false);
    error_size = length-replicate {A = Bool} 1024 false;
    readable = λ s. rw (t) (λ e.
        let (low, five) = both (ltb 5 n) (fd_isset 5 read) t in
        let k = only_five s e in (ground arith, ap (λ y. fd_isset y read) k ∙ five));
    no_errors = λ s. fd_isset-clear 1024 s;
    number = refl;
  }
  | inr t ↦ record {
    read_size = rw (t) (length-replicate {A = Bool} 1024 false);
    error_size = length-replicate {A = Bool} 1024 false;
    readable = λ s. rw (t) (λ e. absurd (let k = fd_isset-clear 1024 s in cc (e, k)));
    no_errors = λ s. fd_isset-clear 1024 s;
    number = refl;
  }
]

read_number-Harmless : (fds : FdSet) (c : ℕ) → Harmless fds (read_number c)
read_number-Harmless fds c = elim (Bool-cases (c == 7)) [
  | inl t ↦ rw (t) tt
  | inr t ↦ rw (t) (λ d e. absurd (cc (e)))
]

serve_client_sockets-AllServed_example :
    (r' : ServerSocketsRouter ℕ) × (serve_client_sockets numbers select_five one_client ≡ ok tt r')
    × Coherent r'
    × (r'.dead_list ≡ [])
    × AllServed numbers
        (positions 0 (reported select_five one_client).readfds)
        one_client.socket_map
        r'.socket_map
unfolding server_sockets_router
serve_client_sockets-AllServed_example =
    serve_client_sockets-AllServed numbers select_five one_client (omega arith)
      select_five-OnlyReadable refl (λ s c m e. read_number-Harmless one_client.clientsocks_fds c)
      one_client-Coherent
