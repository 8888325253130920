-- ===== src/Router/Serve/Receptions.antt =====
-- ServerClientConnection.cpp: _serveSocketReceptions, on descriptors of connections.
use hex.Base.{
  ℕ, ◌≡◌, refl, sym, ap, ◌∙◌, Bool, true, false, Option, none, some, List, [], ◌∷◌, ◌++◌, arith,
  length, pos, ◌==◌, if◌then◌else◌, Bool-cases, inl, inr, eq_of_==, ne_of_==,
}
use hex.MsgSocket.Stream.{append_nil, append_assoc}
use hex.Router.{
  FdSet, fd_isset, fd_set, SocketMap, find, store, ServerSocketsRouter, Out, ok, flagged,
  outgoing_data_for_client,
}
use hex.Router.Coherent.{is_some, Coherent}
use hex.Router.Serve.{
  and_then, Reading, handled, Handlers, stored, counted, flag_all, reading_at, serve_reception_at,
  serve_socket_receptions,
}
use hex.Router.Releases.{memb, NoDup, memb-here, memb_past, ne_of_memb, Registered, some_of}
use hex.Router.Serve.Stores.{
  find-store, find-store_other, length-store, Distinct-store, is_some-store,
}

-- a reading that ends well, or with the peer gone; it calls OutgoingDataForClient for connections only
abbrev pub Harmless : {C : Type 0} → FdSet → Reading C → Type 0
Harmless fds (handled c flags) = (d : ℕ) → memb d flags ≡ true → fd_isset d fds ≡ true
Harmless fds (Reading.disconnection c) = Unit
Harmless fds (Reading.failed t c') = ⊥

memb_later : (t d : ℕ) (ds : List ℕ) → memb t ds ≡ true → memb t (d ∷ ds) ≡ true
memb_later t d ds m = elim (Bool-cases (t == d)) [ inl u ↦ rw (u) refl | inr u ↦ rw (u) m ]

module _ {C : Type 0} (h : Handlers C) where
  -- the connection after a reading, and whether its peer is gone
  abbrev pub read_conn : C → Reading C → C
  read_conn c (handled c' flags) = c'
  read_conn c (Reading.disconnection c') = h.socket_disconnected c'
  read_conn c (Reading.failed t c') = c

  abbrev pub is_gone : Reading C → Bool
  is_gone (Reading.disconnection c') = true
  is_gone _ = false

  abbrev pub gone_at : Option C → Bool
  gone_at none = false
  gone_at (some c) = is_gone (h.socket_data_read c)

  abbrev pub read_at : Option C → Option C
  read_at none = none
  read_at (some c) = some (read_conn c (h.socket_data_read c))

  abbrev pub gone_in : SocketMap C → List ℕ → List ℕ
  gone_in m [] = []
  gone_in m (s ∷ ss) = if gone_at (find s m) then s ∷ gone_in m ss else gone_in m ss

  -- the router after a reading on the socket `s`
  abbrev after_reading : ℕ → C → Reading C → FdSet → ServerSocketsRouter C → ServerSocketsRouter C
  after_reading s c x w r = record r {
    socket_map = store s (read_conn c x) r.socket_map;
    select_writefds = w;
    dead_list = r.dead_list ++ (if is_gone x then s ∷ [] else []);
  }

  flag_one :
      (d : ℕ) (c : C) (r : ServerSocketsRouter C)
      → find d r.socket_map ≡ some c
      → outgoing_data_for_client d r
        ≡ ok tt (record r {
          select_writefds =
              if fd_isset d r.select_writefds
              then r.select_writefds
              else fd_set d r.select_writefds;
        })
  unfolding outgoing_data_for_client flagged
  flag_one d c r here =
      ap (λ o. flagged o d r) here ∙ (elim (Bool-cases (fd_isset d r.select_writefds)) [
        | inl t ↦ rw (t) refl
        | inr t ↦ rw (t) refl
      ])

  flag_all_lem :
      (flags : List ℕ) (r : ServerSocketsRouter C)
      → ((d : ℕ) → memb d flags ≡ true → is_some (find d r.socket_map) ≡ true)
      → (w : FdSet) × (flag_all h flags r ≡ ok tt (record r { select_writefds = w }))
  unfolding flag_all
  flag_all_lem [] r reg = (r.select_writefds, refl)
  flag_all_lem (d ∷ ds) r reg =
      let (c, here) = some_of h (find d r.socket_map) (reg d (memb-here d ds)) in
      let w0 : FdSet =
        if fd_isset d r.select_writefds then r.select_writefds else fd_set d r.select_writefds in
      let (w, e) =
        flag_all_lem ds (record r { select_writefds = w0 }) (λ t m. reg t (memb_later t d ds m)) in
      (w, ap (and_then (λ u. flag_all h ds)) (flag_one d c r here) ∙ e)

  reading_step :
      (s : ℕ) (c : C) (x : Reading C) (r : ServerSocketsRouter C)
      → Harmless r.clientsocks_fds x
      → Coherent r
      → find s r.socket_map ≡ some c
      → (w : FdSet) × (reading_at h s x r ≡ ok 1 (after_reading s c x w r))
  unfolding reading_at stored
  reading_step s c (handled c' flags) r fine k here =
      let (w, e) =
        flag_all_lem flags (stored h s c' r)
          (λ d m. is_some-store s d c c' r.socket_map here ∙ sym (k.same d) ∙ fine d m) in
      (
        w,
        ap (and_then (λ u. ok 1)) e
            ∙ ap
                (λ l. ok 1 (record r {
                  socket_map = store s c' r.socket_map;
                  select_writefds = w;
                  dead_list = l;
                }))
                (sym (append_nil r.dead_list)),
      )
  reading_step s c (Reading.disconnection c') r fine k here = (r.select_writefds, refl)
  reading_step s c (Reading.failed t c') r fine k here = elim fine [ ]

  after_reading-Coherent :
      (s : ℕ) (c : C) (x : Reading C) (w : FdSet) (r : ServerSocketsRouter C)
      → find s r.socket_map ≡ some c
      → Coherent r
      → Coherent (after_reading s c x w r)
  after_reading-Coherent s c x w r here k = record {
    size = k.size;
    same = λ t. k.same t ∙ sym (is_some-store s t c (read_conn c x) r.socket_map here);
    below = k.below;
    count = k.count ∙ ap pos (sym (length-store s (read_conn c x) r.socket_map));
    distinct = Distinct-store s (read_conn c x) r.socket_map k.distinct;
  }

  gone_in-same :
      (m m' : SocketMap C) (ss : List ℕ)
      → ((s : ℕ) → memb s ss ≡ true → find s m' ≡ find s m)
      → gone_in m' ss ≡ gone_in m ss
  gone_in-same m m' [] e = refl
  gone_in-same m m' (s ∷ ss) e =
      ap (λ b. if b then s ∷ gone_in m' ss else gone_in m' ss) (ap gone_at (e s (memb-here s ss)))
      ∙ ap (λ l. if gone_at (find s m) then s ∷ l else l)
          (gone_in-same m m' ss (λ t q. e t (memb_later t s ss q)))

  -- the readings of these sockets are harmless
  abbrev pub AllHarmless : FdSet → SocketMap C → List ℕ → Type 0
  AllHarmless fds m ss =
      (s : ℕ) (c : C) → memb s ss ≡ true → find s m ≡ some c → Harmless fds (h.socket_data_read c)

  -- what the loop over `ss` leaves
  abbrev Served : List ℕ → ServerSocketsRouter C → Out C ℕ → Type 0
  Served ss r out =
      (r' : ServerSocketsRouter C) × (out ≡ ok (length ss) r')
      × Coherent r'
      × (r'.dead_list ≡ r.dead_list ++ gone_in r.socket_map ss)
      × ((s : ℕ) → memb s ss ≡ true → find s r'.socket_map ≡ read_at (find s r.socket_map))
      × ((s : ℕ) → memb s ss ≡ false → find s r'.socket_map ≡ find s r.socket_map)

  joined :
      (b : Bool) (s : ℕ) (ds l : List ℕ)
      → (ds ++ (if b then s ∷ [] else [])) ++ l ≡ ds ++ (if b then s ∷ l else l)
  joined true s ds l = append_assoc ds (s ∷ []) l
  joined false s ds l = ap (λ t. t ++ l) (append_nil ds)

  pub serve_socket_receptions_lem :
      (ss : List ℕ) (r : ServerSocketsRouter C)
      → NoDup ss
      → Registered h ss r.socket_map
      → AllHarmless r.clientsocks_fds r.socket_map ss
      → Coherent r
      → Served ss r (serve_socket_receptions h ss r)
  unfolding serve_socket_receptions serve_reception_at
  serve_socket_receptions_lem [] r nodup reg fine k =
      (r, refl, k, sym (append_nil r.dead_list), λ s t. absurd (cc (t)), λ s t. refl)
  serve_socket_receptions_lem (s ∷ ss) r (fresh, nodup) reg fine k =
      let (c, here) = some_of h (find s r.socket_map) (reg s (memb-here s ss)) in
      let x = h.socket_data_read c in
      let (w, e) = reading_step s c x r (fine s c (memb-here s ss) here) k here in
      let r1 = after_reading s c x w r in
      let keeps : (t : ℕ) → memb t ss ≡ true → find t r1.socket_map ≡ find t r.socket_map =
        λ t q. find-store_other s t (read_conn c x) r.socket_map (ne_of_memb t s ss fresh q) in
      let (r2, e2, k2, dead, read, others) =
        serve_socket_receptions_lem ss r1 nodup
          (λ t q. ap is_some (keeps t q) ∙ reg t (memb_later t s ss q))
          (λ t y q f. fine t y (memb_later t s ss q) (sym (keeps t q) ∙ f))
          (after_reading-Coherent s c x w r here k) in
      (
        r2,
        ap
              (λ o.
                and_then (λ n r'. counted h n (serve_socket_receptions h ss r'))
                  (serve_reception_at h s o r))
              here
            ∙ ap (and_then (λ n r'. counted h n (serve_socket_receptions h ss r'))) e
            ∙ ap (counted h 1) e2
            ∙ ap (λ n. ok n r2) (omega arith),
        k2,
        dead
            ∙ ap (λ l. r1.dead_list ++ l) (gone_in-same r.socket_map r1.socket_map ss keeps)
            ∙ joined (is_gone x) s r.dead_list (gone_in r.socket_map ss)
            ∙ ap
                (λ o.
                  r.dead_list
                  ++ (if gone_at o then s ∷ gone_in r.socket_map ss else gone_in r.socket_map ss))
                (sym here),
        λ t q. elim (Bool-cases (t == s)) [
          | inl u ↦
              ap (λ y. find y r2.socket_map) (eq_of_== t s u)
              ∙ others s fresh
              ∙ find-store s c (read_conn c x) r.socket_map here
              ∙ sym (ap (λ y. read_at (find y r.socket_map)) (eq_of_== t s u) ∙ ap read_at here)
          | inr u ↦
              let later : memb t ss ≡ true = sym (memb_past t s ss (ne_of_== t s u)) ∙ q in
              read t later ∙ ap read_at (keeps t later)
        ],
        λ t q. elim (Bool-cases (t == s)) [
          | inl u ↦ absurd (
              let a = ap (λ y. memb y (s ∷ ss)) (eq_of_== t s u) in
              let b = memb-here s ss in cc (a, b, q))
          | inr u ↦
              others t (sym (memb_past t s ss (ne_of_== t s u)) ∙ q)
              ∙ find-store_other s t (read_conn c x) r.socket_map (ne_of_== t s u)
        ],
      )
