-- ===== src/Router/Serve/Turns.antt =====
-- ServerClientConnection.cpp: what CreateClientConnection and a turn of ServeClientSockets keep,
-- whatever pselect reports.
use mathlib.Core.Path.{subst}
use hex.Base.{
  ◌≡◌, ◌<◌, false, refl, ℕ, ◌+◌, sym, Option, none, some, List, [], ◌∷◌, ℤ, pos, ◌-ℤ◌, ltb_ℤ,
  pos_part, neg_part, ◌==◌, Bool-cases, Option-cases, inl, inr,
}
use hex.Router.{
  Thrown, Made, made, not_made, created, inserted, create_client_connection, fd_isset, FdSet, find,
  ServerSocketsRouter, Out, ok, released, release_client_connection, fds_copy, fds_extract_list,
}
use hex.Router.Coherent.{Agree, with_client-Agree, with_orphan, with_orphan-Agree, unlisted}
use hex.Router.Release.{release_client_connection-Agree}
use hex.Router.Serve.{
  Handlers, Selected, handle_socket_errors, serve_socket_receptions, serve_socket_emissions,
  serve_list, serve_set, release_all, finish, selected, serve_selected, prepared,
  serve_client_sockets,
}
use hex.Router.Serve.Invariant.{
  Safe, Safe-raised, Safe-and_then, erase_missing, with_sets, handle_socket_errors-Safe,
  serve_socket_receptions-Safe, serve_socket_emissions-Safe,
}

module _ (L : ℕ → Type 0) {C : Type 0} (h : Handlers C) where
  created-Safe :
      (d : ℕ) (x : Made C) (r : ServerSocketsRouter C)
      → 0 < d
      → d < 1024
      → ((e : Thrown) → x ≡ not_made e → L d)
      → fd_isset d r.clientsocks_fds ≡ false
      → Agree L r
      → Safe L (create_client_connection d x r)
  unfolding create_client_connection created inserted
  created-Safe d (made c) r p l left new k =
      let absent = unlisted L d r new k in
      rw (new) (rw (absent) (with_client-Agree L d c r p l absent k))
  created-Safe d (not_made e) r p l left new k =
      rw (new) (Safe-raised L C e (with_orphan d r) (with_orphan-Agree L d r p l (left e refl) k))

  pub create_client_connection-Safe :
      (d : ℕ) (x : Made C) (r : ServerSocketsRouter C)
      → 0 < d
      → d < 1024
      → ((e : Thrown) → x ≡ not_made e → L d)
      → Agree L r
      → Safe L (create_client_connection d x r)
  create_client_connection-Safe d x r p l left k =
      elim (Bool-cases (fd_isset d r.clientsocks_fds)) [
        | inl t ↦ unfold create_client_connection in rw (t) k
        | inr t ↦ created-Safe d x r p l left t k
      ]

  serve_list-Safe :
      (serve : List ℕ → ServerSocketsRouter C → Out C ℕ) (l : Option (List ℕ × ℕ)) (nb : ℤ)
      (r : ServerSocketsRouter C)
      → ((ss : List ℕ) → Safe L (serve ss r))
      → Safe L (serve_list h serve l nb r)
  unfolding serve_list
  serve_list-Safe serve none nb r safe = tt
  serve_list-Safe serve (some (ss, n)) nb r safe =
      Safe-and_then L (λ m. ok (nb -ℤ pos m)) (serve ss r) (safe ss) (λ m r' k'. k')

  serve_set-Safe :
      (serve : List ℕ → ServerSocketsRouter C → Out C ℕ) (set : ServerSocketsRouter C → FdSet)
      (nb : ℤ) (r : ServerSocketsRouter C)
      → Agree L r
      → ((ss : List ℕ) → Safe L (serve ss r))
      → Safe L (serve_set h serve set nb r)
  unfolding serve_set
  serve_set-Safe serve set nb r k safe = elim (Bool-cases (ltb_ℤ (pos 0) nb)) [
    | inl t ↦ rw (t) (serve_list-Safe serve (fds_extract_list r (set r)) nb r safe)
    | inr t ↦ rw (t) k
  ]

  release_client_connection-Safe :
      (d : ℕ) (r : ServerSocketsRouter C) → Agree L r → Safe L (release_client_connection d r)
  release_client_connection-Safe d r k = elim (Option-cases (find d r.socket_map)) [
    | inl e ↦
        unfold release_client_connection in
        rw (erase_missing d r.socket_map e) (unfold released in tt)
    | inr (c, e) ↦
        let (r', run, k', gone, kept) = release_client_connection-Agree L d c r e k in
        subst (Safe L) (sym run) k'
  ]

  release_all-Safe :
      (ds : List ℕ) (r : ServerSocketsRouter C) → Agree L r → Safe L (release_all h ds r)
  unfolding release_all
  release_all-Safe [] r k = k
  release_all-Safe (d ∷ ds) r k =
      Safe-and_then L (λ u. release_all h ds) (release_client_connection d r)
        (release_client_connection-Safe d r k) (λ u r' k'. release_all-Safe ds r' k')

  finish-Safe : (nb : ℤ) (r : ServerSocketsRouter C) → Agree L r → Safe L (finish h nb r)
  unfolding finish
  finish-Safe nb r k = elim (Bool-cases (pos_part nb + neg_part nb == 0)) [
    | inl t ↦ rw (t) (
        Safe-and_then L (λ u r'. ok tt (record r' { dead_list = [] })) (release_all h r.dead_list r)
          (release_all-Safe r.dead_list r k)
          (λ u r' k'.
            with_sets L h r' r'.select_readfds r'.select_writefds r'.select_errorfds [] k'))
    | inr t ↦ rw (t) tt
  ]

  serve_selected-Safe :
      (x : Selected) (r : ServerSocketsRouter C) → Agree L r → Safe L (serve_selected h x r)
  unfolding serve_selected selected
  serve_selected-Safe x r k =
      let r0 = selected h x r in
      let k0 = with_sets L h r x.readfds x.writefds x.errorfds r.dead_list k in
      Safe-and_then L (finish h) _
        (Safe-and_then L (serve_set h (serve_socket_emissions h) (λ q. q.select_writefds)) _
          (Safe-and_then L (serve_set h (serve_socket_receptions h) (λ q. q.select_readfds)) _
            (serve_set-Safe (handle_socket_errors h) (λ q. q.select_errorfds) x.nb_act r0 k0
              (λ ss. handle_socket_errors-Safe L h ss r0 k0))
            (λ nb r' k'.
              serve_set-Safe (serve_socket_receptions h) (λ q. q.select_readfds) nb r' k'
                (λ ss. serve_socket_receptions-Safe L h ss r' k')))
          (λ nb r' k'.
            serve_set-Safe (serve_socket_emissions h) (λ q. q.select_writefds) nb r' k'
              (λ ss. serve_socket_emissions-Safe L h ss r' k')))
        (λ nb r' k'. finish-Safe nb r' k')

  prepared-Safe :
      (a b : Option FdSet) (pselect : ℕ → (read write error : FdSet) → Selected)
      (r : ServerSocketsRouter C)
      → Agree L r
      → Safe L (prepared h a b pselect r)
  unfolding prepared
  prepared-Safe none b pselect r k = tt
  prepared-Safe (some read) none pselect r k = tt
  prepared-Safe (some read) (some error) pselect r k =
      serve_selected-Safe (pselect r.clientsocks_nfds read r.select_writefds error) r k

  -- Where the tables agree, but for descriptors of `L` that are in the set without a connection,
  -- ServeClientSockets leaves tables that agree in this way, whether it returns or ends
  -- with an exception, whatever pselect reports and the connections do: otherwise it has stopped at
  -- a failed assertion, a null pointer or an access outside an array.
  pub serve_client_sockets-Safe :
      (pselect : ℕ → (read write error : FdSet) → Selected) (r : ServerSocketsRouter C)
      → Agree L r
      → Safe L (serve_client_sockets h pselect r)
  unfolding serve_client_sockets
  serve_client_sockets-Safe pselect r k =
      prepared-Safe (fds_copy r r.clientsocks_fds r.select_readfds)
        (fds_copy r r.clientsocks_fds r.select_errorfds) pselect r k
