-- ===== src/Router/Release.antt =====
-- ServerClientConnection.cpp: ReleaseClientConnection keeps the tables of ServerSocketsRouter.
use hex.Base.{
  ℕ, suc, ◌+◌, ◌-◌, ◌<◌, ◌≡◌, refl, sym, ap, ◌∙◌, true, false, Option, none, some, [], ◌∷◌, arith,
  pos, ◌-ℤ◌, length, ltb, ◌==◌, if◌then◌else◌, Bool-cases, inl, inr, eq_of_==, ne_of_==,
}
use hex.Router.{
  fd_isset, fd_put, SocketMap, find, erase, erased, ServerSocketsRouter, ok, highest, released,
  release_client_connection,
}
use hex.Router.Sets.{length-fd_put, fd_isset-fd_put_other, fd_isset_beyond, highest_lem}
use hex.Router.Coherent.{
  Coherent, Agree, None, Agree-of_Coherent, Coherent-of_Agree, is_some, Distinct, OthersKept,
  find-here, find_past, pos_pred, not_in_nil, still_set,
}

module _ {C : Type 0} where
  -- what erasing a key leaves
  abbrev Erased : ℕ → SocketMap C → Option (SocketMap C) → Type 0
  Erased d m result =
      (m' : SocketMap C) × (result ≡ some m')
      × Distinct m'
      × (length m ≡ suc (length m'))
      × (find d m' ≡ none)
      × OthersKept d m m'

  erase-Erased :
      (d : ℕ) (m : SocketMap C) (c : C) → Distinct m → find d m ≡ some c → Erased d m (erase d m)
  unfolding erase
  erase-Erased d [] c dis e = absurd (not_in_nil d c e)
  erase-Erased d ((k, x) ∷ m) c dis e = elim (Bool-cases (k == d)) [
    | inl t ↦ rw (t) (
      m,
      refl,
      dis.1,
      refl,
      ap (λ y. find y m) (sym (eq_of_== k d t)) ∙ dis.0,
      λ s ne. sym (find_past s k x m (λ q. ne (q ∙ eq_of_== k d t))),
    )
    | inr t ↦
        let past : find d m ≡ some c = sym (find_past d k x m (λ q. ne_of_== k d t (sym q))) ∙ e in
        let (m', er, dis', len, gone, kept) = erase-Erased d m c dis.1 past in
        rw (t) (
          (k, x) ∷ m',
          unfold erased in ap (erased (k, x)) er,
          (kept k (ne_of_== k d t) ∙ dis.0, dis'),
          ap suc len,
          find_past d k x m' (λ q. ne_of_== k d t (sym q)) ∙ gone,
          λ s ne. elim (Bool-cases (s == k)) [
            | inl u ↦
                ap (λ y. find y ((k, x) ∷ m')) (eq_of_== s k u)
                ∙ find-here k x m'
                ∙ sym (ap (λ y. find y ((k, x) ∷ m)) (eq_of_== s k u) ∙ find-here k x m)
            | inr u ↦
                find_past s k x m' (ne_of_== s k u)
                ∙ kept s ne
                ∙ sym (find_past s k x m (ne_of_== s k u))
          ],
        )
  ]

  -- the tables without a client
  abbrev without_client : ℕ → SocketMap C → ServerSocketsRouter C → ServerSocketsRouter C
  without_client d m' r = record r {
    clientsocks_fds = fd_put false d r.clientsocks_fds;
    select_writefds = fd_put false d r.select_writefds;
    clientsocks_nfds =
        if d + 1 == r.clientsocks_nfds
        then highest (d - 1) (fd_put false d r.clientsocks_fds)
        else r.clientsocks_nfds;
    socket_map = m';
    nb_client_connections = r.nb_client_connections -ℤ pos 1;
  }

  module _ (Left : ℕ → Type 0) where
    below_size :
        (d : ℕ) (c : C) (r : ServerSocketsRouter C)
        → find d r.socket_map ≡ some c
        → Agree Left r
        → d < 1024
    below_size d c r e k = elim (Bool-cases (ltb d 1024)) [
      | inl t ↦ ground arith
      | inr t ↦ absurd (
          let a = fd_isset_beyond d r.clientsocks_fds (let z = k.size in ground arith) in
          let b = k.listed d (ap is_some e) in cc (a, b))
    ]

    below_without :
        (d s : ℕ) (m' : SocketMap C) (r : ServerSocketsRouter C)
        → d < 1024
        → Agree Left r
        → fd_isset s (fd_put false d r.clientsocks_fds) ≡ true
        → (0 < s) × (s < (without_client d m' r).clientsocks_nfds)
    below_without d s m' r l k e =
        let (ne, was) = still_set d s r.clientsocks_fds (let z = k.size in omega arith) e in
        let b = k.below s was in
        let b0 = b.0 in
        let b1 = b.1 in
        elim (Bool-cases (d + 1 == r.clientsocks_nfds)) [
          | inl t ↦
              rw (t)
                (b.0, highest_lem (d - 1) s (fd_put false d r.clientsocks_fds) b.0 (ground arith) e)
          | inr t ↦ rw (t) (b.0, b.1)
        ]

    without_client-Agree :
        (d : ℕ) (m' : SocketMap C) (r : ServerSocketsRouter C)
        → d < 1024
        → Agree Left r
        → Distinct m'
        → length r.socket_map ≡ suc (length m')
        → find d m' ≡ none
        → OthersKept d r.socket_map m'
        → Agree Left (without_client d m' r)
    without_client-Agree d m' r l k dis len gone kept = record {
      size = length-fd_put false d r.clientsocks_fds ∙ k.size;
      listed = λ s e. elim (Bool-cases (s == d)) [
        | inl t ↦ absurd (
            let none_there = ap (λ x. is_some (find x m')) (eq_of_== s d t) ∙ ap is_some gone in
            cc (none_there, e))
        | inr t ↦
            fd_isset-fd_put_other false d s r.clientsocks_fds (λ e. ne_of_== s d t (sym e))
            ∙ k.listed s (sym (ap is_some (kept s (ne_of_== s d t))) ∙ e)
      ];
      owned = λ s e.
          let (ne, was) = still_set d s r.clientsocks_fds (let z = k.size in omega arith) e in
          elim (k.owned s was) [
            | inl found ↦ inl (ap is_some (kept s ne) ∙ found)
            | inr left ↦ inr left
          ];
      below = λ s e. below_without d s m' r l k e;
      count = ap (λ z. z -ℤ pos 1) (k.count ∙ ap pos len) ∙ pos_pred (length m');
      distinct = dis;
    }

    pub release_client_connection-Agree :
        (d : ℕ) (c : C) (r : ServerSocketsRouter C)
        → find d r.socket_map ≡ some c
        → Agree Left r
        → (r' : ServerSocketsRouter C) × (release_client_connection d r ≡ ok tt r')
          × Agree Left r'
          × (find d r'.socket_map ≡ none)
          × OthersKept d r.socket_map r'.socket_map
    unfolding release_client_connection
    release_client_connection-Agree d c r e k =
        let (m', er, dis, len, gone, kept) = erase-Erased d r.socket_map c k.distinct e in
        (
          without_client d m' r,
          rw (er) (unfold released in refl),
          without_client-Agree d m' r (below_size d c r e k) k dis len gone kept,
          gone,
          kept,
        )

  -- Where the tables agree and the descriptor is of a connection, ReleaseClientConnection returns,
  -- the connection is gone, the tables agree and the other connections are as before.
  pub release_client_connection-Coherent :
      (d : ℕ) (c : C) (r : ServerSocketsRouter C)
      → find d r.socket_map ≡ some c
      → Coherent r
      → (r' : ServerSocketsRouter C) × (release_client_connection d r ≡ ok tt r')
        × Coherent r'
        × (find d r'.socket_map ≡ none)
        × OthersKept d r.socket_map r'.socket_map
  release_client_connection-Coherent d c r e k =
      let (r', run, k', gone, kept) =
        release_client_connection-Agree None d c r e (Agree-of_Coherent None r k) in
      (r', run, Coherent-of_Agree r' k', gone, kept)
