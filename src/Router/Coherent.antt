-- ===== src/Router/Coherent.antt =====
-- The tables of ServerSocketsRouter agree, and the functions that change them keep them so.
use mathlib.Core.Path.{subst}
use hex.Base.{
  ◌⊎◌, Option-cases, ℕ, suc, ◌+◌, ◌<◌, ◌≡◌, ◌≢◌, refl, sym, ap, ◌∙◌, Bool, true, false, Option,
  none, some, [], ◌∷◌, arith, pos, ◌+ℤ◌, ◌-ℤ◌, length, leb, ◌==◌, if◌then◌else◌, Bool-cases, inl,
  inr, ==-self, ==-ne, eq_of_==, ne_of_==,
}
use hex.Router.{
  FdSet, fd_isset, fd_put, SocketMap, find, ServerSocketsRouter, Out, ok, raised, text, inserted,
  created, Made, made, not_made, create_client_connection,
}
use hex.Router.Sets.{length-fd_put, fd_isset-fd_put, fd_isset-fd_put_other}

abbrev pub is_some : {A : Type 0} → Option A → Bool
is_some none = false
is_some (some a) = true

-- no descriptor stands twice in the map
abbrev pub Distinct : {C : Type 0} → SocketMap C → Type 0
Distinct [] = Unit
Distinct ((k, c) ∷ m) = (find k m ≡ none) × Distinct m

-- The set of descriptors and the map agree, each descriptor is positive and below
-- clientsocks_nfds, and the number of connections is that of the map.
pub record Coherent {C : Type 0} (r : ServerSocketsRouter C) : Type 0 where
  pub size : length r.clientsocks_fds ≡ 1024
  pub same : (s : ℕ) → fd_isset s r.clientsocks_fds ≡ is_some (find s r.socket_map)
  pub below : (s : ℕ) → fd_isset s r.clientsocks_fds ≡ true → (0 < s) × (s < r.clientsocks_nfds)
  pub count : r.nb_client_connections ≡ pos (length r.socket_map)
  pub distinct : Distinct r.socket_map

-- The tables agree, but for descriptors of `Left` that are in the set without a connection.
pub record Agree {C : Type 0} (Left : ℕ → Type 0) (r : ServerSocketsRouter C) : Type 0 where
  pub size : length r.clientsocks_fds ≡ 1024
  pub listed : (s : ℕ) → is_some (find s r.socket_map) ≡ true → fd_isset s r.clientsocks_fds ≡ true
  pub owned :
      (s : ℕ)
      → fd_isset s r.clientsocks_fds ≡ true
      → (is_some (find s r.socket_map) ≡ true) ⊎ Left s
  pub below : (s : ℕ) → fd_isset s r.clientsocks_fds ≡ true → (0 < s) × (s < r.clientsocks_nfds)
  pub count : r.nb_client_connections ≡ pos (length r.socket_map)
  pub distinct : Distinct r.socket_map

abbrev pub None : ℕ → Type 0
None s = ⊥

same_test : (a b : Bool) → (a ≡ true → b ≡ true) → (b ≡ true → a ≡ true) → a ≡ b
same_test true b f g = sym (f refl)
same_test false true f g = g refl
same_test false false f g = refl

pub Agree-of_Coherent :
    {C : Type 0} (Left : ℕ → Type 0) (r : ServerSocketsRouter C) → Coherent r → Agree Left r
Agree-of_Coherent Left r k = record {
  size = k.size;
  listed = λ s e. k.same s ∙ e;
  owned = λ s e. inl (sym (k.same s) ∙ e);
  below = k.below;
  count = k.count;
  distinct = k.distinct;
}

pub Coherent-of_Agree : {C : Type 0} (r : ServerSocketsRouter C) → Agree None r → Coherent r
Coherent-of_Agree r k = record {
  size = k.size;
  same = λ s.
      same_test (fd_isset s r.clientsocks_fds) (is_some (find s r.socket_map))
        (λ e. elim (k.owned s e) [ inl found ↦ found | inr left ↦ absurd left ]) (k.listed s);
  below = k.below;
  count = k.count;
  distinct = k.distinct;
}

-- the other connections are as before
abbrev pub OthersKept : {C : Type 0} → ℕ → (m m' : SocketMap C) → Type 0
OthersKept d m m' = (s : ℕ) → s ≢ d → find s m' ≡ find s m

pub find-here : {C : Type 0} (d : ℕ) (c : C) (m : SocketMap C) → find d ((d, c) ∷ m) ≡ some c
unfolding find
find-here d c m = rw (==-self d) refl

pub find_past :
    {C : Type 0} (s d : ℕ) (c : C) (m : SocketMap C) → s ≢ d → find s ((d, c) ∷ m) ≡ find s m
unfolding find
find_past s d c m ne = rw (==-ne d s (λ e. ne (sym e))) refl

pos_suc : (n : ℕ) → pos n +ℤ pos 1 ≡ pos (suc n)
pos_suc n = ground arith

pub pos_pred : (n : ℕ) → pos (suc n) -ℤ pos 1 ≡ pos n
pos_pred n = ground arith

pub not_in_nil : {C : Type 0} (d : ℕ) (c : C) → find d [] ≡ some c → ⊥
unfolding find
not_in_nil d c e = cc (e)

-- a descriptor of the set without `d` is another one
pub still_set :
    (d s : ℕ) (bs : FdSet)
    → d < length bs
    → fd_isset s (fd_put false d bs) ≡ true
    → (s ≢ d) × (fd_isset s bs ≡ true)
still_set d s bs l e = elim (Bool-cases (s == d)) [
  | inl t ↦ absurd (
      let k = fd_isset-fd_put false d bs l in
      let k' = ap (λ x. fd_isset x (fd_put false d bs)) (eq_of_== s d t) in cc (k, k', e))
  | inr t ↦
      (ne_of_== s d t, sym (fd_isset-fd_put_other false d s bs (λ q. ne_of_== s d t (sym q))) ∙ e)
]

module _ {C : Type 0} where
  -- the tables with a new connection
  abbrev pub with_client : ℕ → C → ServerSocketsRouter C → ServerSocketsRouter C
  with_client d c r = record r {
    clientsocks_nfds = if leb r.clientsocks_nfds d then d + 1 else r.clientsocks_nfds;
    clientsocks_fds = fd_put true d r.clientsocks_fds;
    socket_map = (d, c) ∷ r.socket_map;
    nb_client_connections = r.nb_client_connections +ℤ pos 1;
  }

  -- the tables after the constructor of a connection has thrown
  abbrev pub with_orphan : ℕ → ServerSocketsRouter C → ServerSocketsRouter C
  with_orphan d r = record r {
    clientsocks_nfds = if leb r.clientsocks_nfds d then d + 1 else r.clientsocks_nfds;
    clientsocks_fds = fd_put true d r.clientsocks_fds;
  }

  put_below :
      (d : ℕ) (r : ServerSocketsRouter C)
      → 0 < d
      → ((s : ℕ) → fd_isset s r.clientsocks_fds ≡ true → (0 < s) × (s < r.clientsocks_nfds))
      → (s : ℕ) → fd_isset s (fd_put true d r.clientsocks_fds) ≡ true
      → (0 < s) × (s < (if leb r.clientsocks_nfds d then d + 1 else r.clientsocks_nfds))
  put_below d r p below s e = elim (Bool-cases (s == d)) [
    | inl t ↦ (ground arith, ground arith)
    | inr t ↦
        let was = below s (
          sym (fd_isset-fd_put_other true d s r.clientsocks_fds (λ e. ne_of_== s d t (sym e)))
          ∙ e) in
        (was.0, let b = was.1 in ground arith)
  ]

  module _ (Left : ℕ → Type 0) where
    pub with_client-Agree :
        (d : ℕ) (c : C) (r : ServerSocketsRouter C)
        → 0 < d
        → d < 1024
        → find d r.socket_map ≡ none
        → Agree Left r
        → Agree Left (with_client d c r)
    with_client-Agree d c r p l new k = record {
      size = length-fd_put true d r.clientsocks_fds ∙ k.size;
      listed = λ s e. elim (Bool-cases (s == d)) [
        | inl t ↦
            ap (λ x. fd_isset x (fd_put true d r.clientsocks_fds)) (eq_of_== s d t)
            ∙ fd_isset-fd_put true d r.clientsocks_fds (let z = k.size in omega arith)
        | inr t ↦
            fd_isset-fd_put_other true d s r.clientsocks_fds (λ e. ne_of_== s d t (sym e))
            ∙ k.listed s (sym (ap is_some (find_past s d c r.socket_map (ne_of_== s d t))) ∙ e)
      ];
      owned = λ s e. elim (Bool-cases (s == d)) [
        | inl t ↦ inl (
            ap is_some (
              ap (λ x. find x ((d, c) ∷ r.socket_map)) (eq_of_== s d t)
              ∙ find-here d c r.socket_map))
        | inr t ↦
            elim (k.owned s (
              sym (fd_isset-fd_put_other true d s r.clientsocks_fds (λ e. ne_of_== s d t (sym e)))
              ∙ e)) [
                | inl found ↦
                    inl (ap is_some (find_past s d c r.socket_map (ne_of_== s d t)) ∙ found)
                | inr left ↦ inr left
              ]
      ];
      below = put_below d r p k.below;
      count = ap (λ z. z +ℤ pos 1) k.count ∙ pos_suc (length r.socket_map);
      distinct = (new, k.distinct);
    }

    pub with_orphan-Agree :
        (d : ℕ) (r : ServerSocketsRouter C)
        → 0 < d
        → d < 1024
        → Left d
        → Agree Left r
        → Agree Left (with_orphan d r)
    with_orphan-Agree d r p l left k = record {
      size = length-fd_put true d r.clientsocks_fds ∙ k.size;
      listed = λ s e. elim (Bool-cases (s == d)) [
        | inl t ↦
            ap (λ x. fd_isset x (fd_put true d r.clientsocks_fds)) (eq_of_== s d t)
            ∙ fd_isset-fd_put true d r.clientsocks_fds (let z = k.size in omega arith)
        | inr t ↦
            fd_isset-fd_put_other true d s r.clientsocks_fds (λ e. ne_of_== s d t (sym e))
            ∙ k.listed s e
      ];
      owned = λ s e. elim (Bool-cases (s == d)) [
        | inl t ↦ inr (subst Left (sym (eq_of_== s d t)) left)
        | inr t ↦ k.owned s (
            sym (fd_isset-fd_put_other true d s r.clientsocks_fds (λ e. ne_of_== s d t (sym e)))
            ∙ e)
      ];
      below = put_below d r p k.below;
      count = k.count;
      distinct = k.distinct;
    }

    -- a descriptor that is not in the set has no connection
    pub unlisted :
        (d : ℕ) (r : ServerSocketsRouter C)
        → fd_isset d r.clientsocks_fds ≡ false
        → Agree Left r
        → find d r.socket_map ≡ none
    unlisted d r new k = elim (Option-cases (find d r.socket_map)) [
      | inl e ↦ e
      | inr (c, e) ↦ absurd (let listed = k.listed d (ap is_some e) in cc (listed, new))
    ]

  pub with_client-Coherent :
      (d : ℕ) (c : C) (r : ServerSocketsRouter C)
      → 0 < d
      → d < 1024
      → find d r.socket_map ≡ none
      → Coherent r
      → Coherent (with_client d c r)
  with_client-Coherent d c r p l new k =
      Coherent-of_Agree (with_client d c r)
        (with_client-Agree None d c r p l new (Agree-of_Coherent None r k))

  -- what CreateClientConnection ends with and leaves, on a descriptor that is not in the set
  abbrev pub Creates : ℕ → Made C → (r : ServerSocketsRouter C) → Out C C → Type 0
  Creates d (made c) r out =
      (r' : ServerSocketsRouter C) × (out ≡ ok c r')
      × Coherent r'
      × (find d r'.socket_map ≡ some c)
      × OthersKept d r.socket_map r'.socket_map
  Creates d (not_made t) r out =
      (r' : ServerSocketsRouter C) × (out ≡ raised t r')
      × Agree (λ s. s ≡ d) r'
      × (fd_isset d r'.clientsocks_fds ≡ true)
      × (r'.socket_map ≡ r.socket_map)
      × ((x : Made C) → create_client_connection d x r' ≡ raised text r')

  -- Where the tables agree and the descriptor is positive, below FD_SETSIZE and not of a
  -- connection: where the constructor of the connection returns, CreateClientConnection returns the
  -- connection, registered under the descriptor, the tables agree and the other connections are as
  -- before; where the constructor throws, the exception goes on, the connections are as before and
  -- the tables agree but for the descriptor, which stays in the set without a connection, so that
  -- every later call for it throws.
  pub create_client_connection-Creates :
      (d : ℕ) (x : Made C) (r : ServerSocketsRouter C)
      → 0 < d
      → d < 1024
      → fd_isset d r.clientsocks_fds ≡ false
      → Coherent r
      → Creates d x r (create_client_connection d x r)
  unfolding create_client_connection
  create_client_connection-Creates d (made c) r p l new k =
      let absent : find d r.socket_map ≡ none =
        unlisted None d r new (Agree-of_Coherent None r k) in
      (
        with_client d c r,
        rw (new) (unfold created inserted in rw (absent) refl),
        with_client-Coherent d c r p l absent k,
        find-here d c r.socket_map,
        λ s ne. find_past s d c r.socket_map ne,
      )
  create_client_connection-Creates d (not_made t) r p l new k =
      let there : fd_isset d (fd_put true d r.clientsocks_fds) ≡ true =
        fd_isset-fd_put true d r.clientsocks_fds (let z = k.size in omega arith) in
      (
        with_orphan d r,
        rw (new) (unfold created in refl),
        with_orphan-Agree (λ s. s ≡ d) d r p l refl (Agree-of_Coherent (λ s. s ≡ d) r k),
        there,
        refl,
        λ x. rw (there) refl,
      )
