-- ===== src/Router/Serve/Readable.antt =====
-- ServerClientConnection.cpp: ServeClientSockets where pselect reports incoming data only.
use hex.Base.{
  ℕ, ◌-◌, ◌≤◌, ◌<◌, ◌≡◌, refl, sym, ap, ◌∙◌, Bool, true, false, ◌&&◌, Option, none, some, List, [],
  ◌∷◌, ◌++◌, arith, pos, ◌-ℤ◌, length, take, drop, ◌==◌, Bool-cases, inl, inr, eq_of_==,
}
use hex.Router.{FdSet, fd_isset, SocketMap, find, ServerSocketsRouter, nb_bits}
use hex.Router.Sets.{positions}
use hex.Router.Coherent.{is_some}
use hex.Router.Serve.{Reading, handled, Handlers, Selected}
use hex.Router.Releases.{memb, NoDup}
use hex.Router.Serve.Receptions.{read_conn, is_gone, gone_at, read_at, gone_in, Harmless}

-- pselect reports incoming data on some of the first `n` descriptors of `read`, and nothing else
pub record OnlyReadable (n : ℕ) (read : FdSet) (x : Selected) : Type 0 where
  pub read_size : length x.readfds ≡ 1024
  pub error_size : length x.errorfds ≡ 1024
  pub readable : (s : ℕ) → fd_isset s x.readfds ≡ true → (s < n) × (fd_isset s read ≡ true)
  pub no_errors : (s : ℕ) → fd_isset s x.errorfds ≡ false
  pub number : x.nb_act ≡ pos (length (positions 0 x.readfds))

and_false : (b : Bool) → (b && false) ≡ false
and_false true = refl
and_false false = refl

pub and_left : (a b : Bool) → (a && b) ≡ true → a ≡ true
and_left true b e = refl
and_left false b e = e

pub pos_sub : (a b : ℕ) → b ≤ a → pos a -ℤ pos b ≡ pos (a - b)
pos_sub a b l = ground arith

-- what pselect reports, on the copies of the set of all sockets
abbrev pub copied : {C : Type 0} → ServerSocketsRouter C → (to : FdSet) → FdSet
copied r to = take (nb_bits r) r.clientsocks_fds ++ drop (nb_bits r) to

abbrev pub reported :
    {C : Type 0} → (ℕ → (read write error : FdSet) → Selected) → ServerSocketsRouter C → Selected
reported pselect r =
    pselect r.clientsocks_nfds (copied r r.select_readfds) r.select_writefds
      (copied r r.select_errorfds)

module _ {C : Type 0} (h : Handlers C) where
  abbrev remains : Reading C → Option C
  remains (handled c flags) = some c
  remains (Reading.disconnection c) = none
  remains (Reading.failed t c') = none

  -- a connection after its data has been read: the one whose peer is gone is no more
  abbrev pub served : Option C → Option C
  served none = none
  served (some c) = remains (h.socket_data_read c)

  pub memb-gone_in :
      (s : ℕ) (m : SocketMap C) (ss : List ℕ)
      → memb s (gone_in h m ss) ≡ (memb s ss && gone_at h (find s m))
  memb-gone_in s m [] = refl
  memb-gone_in s m (t ∷ ss) = elim (Bool-cases (gone_at h (find t m))) [
    | inl g ↦ rw (g) (elim (Bool-cases (s == t)) [
      | inl u ↦
          let gone : gone_at h (find s m) ≡ true =
            ap (λ y. gone_at h (find y m)) (eq_of_== s t u) ∙ g in
          rw (u, gone) refl
      | inr u ↦ rw (u) (memb-gone_in s m ss)
    ])
    | inr g ↦ rw (g) (elim (Bool-cases (s == t)) [
      | inl u ↦
          let alive : gone_at h (find s m) ≡ false =
            ap (λ y. gone_at h (find y m)) (eq_of_== s t u) ∙ g in
          rw (u) (memb-gone_in s m ss ∙ (rw (alive) (and_false (memb s ss))) ∙ sym alive)
      | inr u ↦ rw (u) (memb-gone_in s m ss)
    ])
  ]

  pub NoDup-gone_in : (m : SocketMap C) (ss : List ℕ) → NoDup ss → NoDup (gone_in h m ss)
  NoDup-gone_in m [] nodup = tt
  NoDup-gone_in m (t ∷ ss) (fresh, nodup) = elim (Bool-cases (gone_at h (find t m))) [
    | inl g ↦
        rw (g) (
          memb-gone_in t m ss ∙ ap (λ b. b && gone_at h (find t m)) fresh,
          NoDup-gone_in m ss nodup,
        )
    | inr g ↦ rw (g) (NoDup-gone_in m ss nodup)
  ]

  remains_alive :
      (fds : FdSet) (c : C) (x : Reading C)
      → Harmless fds x
      → is_gone h x ≡ false
      → some (read_conn h c x) ≡ remains x
  remains_alive fds c (handled c' flags) good g = refl
  remains_alive fds c (Reading.disconnection c') good g = absurd (cc (g))
  remains_alive fds c (Reading.failed t c') good g = elim good [ ]

  remains_gone : (x : Reading C) → is_gone h x ≡ true → remains x ≡ none
  remains_gone (handled c' flags) g = absurd (cc (g))
  remains_gone (Reading.disconnection c') g = refl
  remains_gone (Reading.failed t c') g = refl

  pub served_gone : (o : Option C) → gone_at h o ≡ true → served o ≡ none
  served_gone none g = refl
  served_gone (some c) g = remains_gone (h.socket_data_read c) g

  pub served_alive :
      (fds : FdSet) (o : Option C)
      → ((c : C) → o ≡ some c → Harmless fds (h.socket_data_read c))
      → gone_at h o ≡ false
      → read_at h o ≡ served o
  served_alive fds none fine g = refl
  served_alive fds (some c) fine g = remains_alive fds c (h.socket_data_read c) (fine c refl) g

  pub read_at_some : (o : Option C) → is_some (read_at h o) ≡ is_some o
  read_at_some none = refl
  read_at_some (some c) = refl
