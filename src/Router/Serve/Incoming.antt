-- ===== src/Router/Serve/Incoming.antt =====
-- ServerClientConnection.cpp: a turn of ServeClientSockets where pselect reports incoming data only.
use hex.Base.{
  ℕ, zero, suc, ◌≤◌, ◌<◌, ◌≡◌, refl, sym, ap, ◌∙◌, true, false, ◌&&◌, some, List, [], ◌∷◌, ◌++◌,
  arith, pos, ◌-ℤ◌, ltb_ℤ, length, take, drop, ltb, if◌then◌else◌, Bool-cases, inl, inr,
}
use hex.Router.{
  FdSet, fd_isset, SocketMap, find, ServerSocketsRouter, Out, ok, nb_bits, fds_copy,
  fds_extract_list,
}
use hex.Router.Sets.{positions, fds_extract_list-positions, clear-positions}
use hex.Router.Coherent.{is_some, Coherent}
use hex.Router.Serve.{
  and_then, Handlers, Selected, handle_socket_errors, serve_socket_receptions,
  serve_socket_emissions, serve_list, serve_set, release_all, finish, selected, serve_selected,
  prepared, serve_client_sockets,
}
use hex.Router.Releases.{memb, NoDup, Registered, memb-positions, NoDup-positions, release_all_lem}
use hex.Router.Serve.Receptions.{
  gone_at, read_at, gone_in, AllHarmless, serve_socket_receptions_lem,
}
use hex.Router.Serve.Readable.{
  OnlyReadable, and_left, pos_sub, copied, reported, served, memb-gone_in, NoDup-gone_in,
  served_gone, served_alive, read_at_some,
}

module _ {C : Type 0} (h : Handlers C) where
  serve_set_nothing :
      (serve : List ℕ → ServerSocketsRouter C → Out C ℕ) (set : ServerSocketsRouter C → FdSet)
      (n k : ℕ) (r : ServerSocketsRouter C)
      → serve [] r ≡ ok 0 r
      → fds_extract_list r (set r) ≡ some ([], k)
      → serve_set h serve set (pos n) r ≡ ok (pos n) r
  unfolding serve_set serve_list
  serve_set_nothing serve set n k r idle e = elim (Bool-cases (ltb_ℤ (pos 0) (pos n))) [
    | inl t ↦ rw (t) (
        ap (λ l. serve_list h serve l (pos n) r) e
        ∙ ap (and_then (λ m. ok (pos n -ℤ pos m))) idle
        ∙ ap (λ z. ok z r) (pos_sub n 0 (omega arith) ∙ ap pos (omega arith)))
    | inr t ↦ rw (t) refl
  ]

  serve_set_all :
      (serve : List ℕ → ServerSocketsRouter C → Out C ℕ) (set : ServerSocketsRouter C → FdSet)
      (ss : List ℕ) (k : ℕ) (r r' : ServerSocketsRouter C)
      → serve [] r ≡ ok 0 r
      → fds_extract_list r (set r) ≡ some (ss, k)
      → serve ss r ≡ ok (length ss) r'
      → serve_set h serve set (pos (length ss)) r ≡ ok (pos 0) r'
  serve_set_all serve set [] k r r' idle e run =
      serve_set_nothing serve set 0 k r idle e
      ∙ (let same : r ≡ r' = cc (idle, run) in ap (ok (pos 0)) same)
  serve_set_all serve set (s ∷ ss) k r r' idle e run =
      unfold serve_set serve_list in
      let some_left : ltb_ℤ (pos 0) (pos (suc (length ss))) ≡ true = ground arith in
      rw (some_left) (
        ap (λ l. serve_list h serve l (pos (suc (length ss))) r) e
        ∙ ap (and_then (λ m. ok (pos (suc (length ss)) -ℤ pos m))) run
        ∙ ap (λ z. ok z r')
            (pos_sub (suc (length ss)) (suc (length ss)) (omega arith) ∙ ap pos (omega arith)))

  -- the router after a call, where `ss` were readable
  abbrev pub AllServed : List ℕ → (m m' : SocketMap C) → Type 0
  AllServed ss m m' = (s : ℕ) → find s m' ≡ (if memb s ss then served h (find s m) else find s m)

  finish_released :
      (r r1 : ServerSocketsRouter C) (ss : List ℕ)
      → NoDup ss
      → Registered h ss r.socket_map
      → AllHarmless h r.clientsocks_fds r.socket_map ss
      → Coherent r1
      → r1.dead_list ≡ gone_in h r.socket_map ss
      → ((s : ℕ) → memb s ss ≡ true → find s r1.socket_map ≡ read_at h (find s r.socket_map))
      → ((s : ℕ) → memb s ss ≡ false → find s r1.socket_map ≡ find s r.socket_map)
      → (r' : ServerSocketsRouter C) × (finish h (pos 0) r1 ≡ ok tt r')
        × Coherent r'
        × (r'.dead_list ≡ [])
        × AllServed ss r.socket_map r'.socket_map
  unfolding finish
  finish_released r r1 ss nodup reg fine k1 dead read others =
      let gone = gone_in h r.socket_map ss in
      let in_ss : (s : ℕ)
          → memb s gone ≡ true
          → (memb s ss && gone_at h (find s r.socket_map)) ≡ true =
        λ s t. sym (memb-gone_in h s r.socket_map ss) ∙ t in
      let (r2, e2, k2, none_of, kept) =
        release_all_lem h gone r1 (NoDup-gone_in h r.socket_map ss nodup)
          (λ s t.
            ap is_some (read s (and_left (memb s ss) (gone_at h (find s r.socket_map)) (in_ss s t)))
            ∙ read_at_some h (find s r.socket_map)
            ∙ reg s (and_left (memb s ss) (gone_at h (find s r.socket_map)) (in_ss s t)))
          k1 in
      (
        record r2 { dead_list = [] },
        ap (λ l. and_then (λ u r'. ok tt (record r' { dead_list = [] })) (release_all h l r1)) dead
            ∙ ap (and_then (λ u r'. ok tt (record r' { dead_list = [] }))) e2,
        record {
          size = k2.size;
          same = k2.same;
          below = k2.below;
          count = k2.count;
          distinct = k2.distinct;
        },
        refl,
        λ s. elim (Bool-cases (memb s ss)) [
          | inl t ↦ rw (t) (elim (Bool-cases (gone_at h (find s r.socket_map))) [
            | inl g ↦
                none_of s (memb-gone_in h s r.socket_map ss ∙ (rw (t, g) refl))
                ∙ sym (served_gone h (find s r.socket_map) g)
            | inr g ↦
                kept s (memb-gone_in h s r.socket_map ss ∙ (rw (t, g) refl))
                ∙ read s t
                ∙ served_alive h r.clientsocks_fds (find s r.socket_map) (λ c. fine s c t) g
          ])
          | inr t ↦ rw (t) (kept s (memb-gone_in h s r.socket_map ss ∙ (rw (t) refl)) ∙ others s t)
        ],
      )

  writes_idle :
      (r : ServerSocketsRouter C)
      → serve_set h (serve_socket_emissions h) (λ q. q.select_writefds) (pos 0) r ≡ ok (pos 0) r
  unfolding serve_set
  writes_idle r = refl

  clear_beyond :
      (r : ServerSocketsRouter C) (x : Selected)
      → OnlyReadable r.clientsocks_nfds r.clientsocks_fds x
      → (s : ℕ) → r.clientsocks_nfds ≤ s
      → fd_isset s x.readfds ≡ false
  clear_beyond r x only s l = elim (Bool-cases (fd_isset s x.readfds)) [
    | inl t ↦ absurd (let b = (only.readable s t).0 in omega arith)
    | inr t ↦ t
  ]

  serve_selected-AllServed :
      (x : Selected) (r : ServerSocketsRouter C)
      → r.clientsocks_nfds < 1024
      → OnlyReadable r.clientsocks_nfds r.clientsocks_fds x
      → r.dead_list ≡ []
      → AllHarmless h r.clientsocks_fds r.socket_map (positions 0 x.readfds)
      → Coherent r
      → (r' : ServerSocketsRouter C) × (serve_selected h x r ≡ ok tt r')
        × Coherent r'
        × (r'.dead_list ≡ [])
        × AllServed (positions 0 x.readfds) r.socket_map r'.socket_map
  unfolding serve_selected selected
  serve_selected-AllServed x r few only no_dead fine k =
      let ss = positions 0 x.readfds in
      let r0 = selected h x r in
      let k0 : Coherent r0 = record {
        size = k.size;
        same = k.same;
        below = k.below;
        count = k.count;
        distinct = k.distinct;
      } in
      let reg : Registered h ss r.socket_map = λ s t.
        sym (k.same s)
        ∙ (only.readable s
            (sym (memb-positions x.readfds s 0) ∙ ap (λ y. memb y ss) (omega arith) ∙ t)).1 in
      let no_list : fds_extract_list r0 x.errorfds ≡ some ([], 0) =
        fds_extract_list-positions r0 x.errorfds only.error_size few (λ s l. only.no_errors s)
        ∙ ap (λ l. some (l, length l)) (clear-positions 0 x.errorfds only.no_errors) in
      let the_list =
        fds_extract_list-positions r0 x.readfds only.read_size few (clear_beyond r x only) in
      let (r1, e1, k1, dead, read, others) =
        serve_socket_receptions_lem h ss r0 (NoDup-positions x.readfds 0) reg fine k0 in
      let (r2, e2, k2, none_dead, all) =
        finish_released r r1 ss (NoDup-positions x.readfds 0) reg fine k1
          (dead ∙ ap (λ l. l ++ gone_in h r.socket_map ss) no_dead) read others in
      let errors = serve_set h (handle_socket_errors h) (λ q. q.select_errorfds) in
      let reads = serve_set h (serve_socket_receptions h) (λ q. q.select_readfds) in
      let writes = serve_set h (serve_socket_emissions h) (λ q. q.select_writefds) in
      (
        r2,
        ap (λ z. and_then (finish h) (and_then writes (and_then reads (errors z r0)))) only.number
            ∙ ap (λ o. and_then (finish h) (and_then writes (and_then reads o)))
                (serve_set_nothing (handle_socket_errors h) (λ q. q.select_errorfds) (length ss) 0
                  r0 (unfold handle_socket_errors in refl) no_list)
            ∙ ap (λ o. and_then (finish h) (and_then writes o))
                (serve_set_all (serve_socket_receptions h) (λ q. q.select_readfds) ss (length ss) r0
                  r1 (unfold serve_socket_receptions in refl) the_list e1)
            ∙ ap (and_then (finish h)) (writes_idle r1)
            ∙ e2,
        k2,
        none_dead,
        all,
      )

  fd_isset-copied :
      (n s : ℕ) (bs ys : FdSet)
      → s < n
      → n ≤ length bs
      → fd_isset s (take n bs ++ ys) ≡ fd_isset s bs
  unfolding fd_isset
  fd_isset-copied zero s bs ys l m = absurd (omega arith)
  fd_isset-copied (suc n) s [] ys l m = absurd (omega arith)
  fd_isset-copied (suc n) zero (b ∷ bs) ys l m = refl
  fd_isset-copied (suc n) (suc s) (b ∷ bs) ys l m =
      fd_isset-copied n s bs ys (omega arith) (omega arith)

  -- Where the tables agree, clientsocks_nfds is below 1024, no connection is left to delete,
  -- pselect reports incoming data on some of the sockets and nothing else, and socketDataRead
  -- ends well or with socket_disconnection on each of them, with OutgoingDataForClient called
  -- for sockets of clients only, ServeClientSockets returns. It has read from these sockets,
  -- the connections whose peers are gone are released, the other connections are as before, no
  -- connection is left to delete and the tables agree.
  pub serve_client_sockets-AllServed :
      (pselect : ℕ → (read write error : FdSet) → Selected) (r : ServerSocketsRouter C)
      → r.clientsocks_nfds < 1024
      → ((n : ℕ) (read write error : FdSet) → OnlyReadable n read (pselect n read write error))
      → r.dead_list ≡ []
      → AllHarmless h r.clientsocks_fds r.socket_map (positions 0 (reported pselect r).readfds)
      → Coherent r
      → (r' : ServerSocketsRouter C) × (serve_client_sockets h pselect r ≡ ok tt r')
        × Coherent r'
        × (r'.dead_list ≡ [])
        × AllServed (positions 0 (reported pselect r).readfds) r.socket_map r'.socket_map
  unfolding serve_client_sockets prepared fds_copy
  serve_client_sockets-AllServed pselect r few law no_dead fine k =
      let inside : ltb 1024 (nb_bits r) ≡ false = ground arith in
      let x = reported pselect r in
      let only =
        law r.clientsocks_nfds (copied r r.select_readfds) r.select_writefds
          (copied r r.select_errorfds) in
      let only' : OnlyReadable r.clientsocks_nfds r.clientsocks_fds x = record {
        read_size = only.read_size;
        error_size = only.error_size;
        readable = λ s t.
            let (l, e) = only.readable s t in
            (
              l,
              sym (
                    fd_isset-copied (nb_bits r) s r.clientsocks_fds
                      (drop (nb_bits r) r.select_readfds) (ground arith)
                      (let z = k.size in ground arith))
                  ∙ e,
            );
        no_errors = only.no_errors;
        number = only.number;
      } in
      let (r', e, k', dead, all) = serve_selected-AllServed x r few only' no_dead fine k in
      (r', rw (inside) e, k', dead, all)
