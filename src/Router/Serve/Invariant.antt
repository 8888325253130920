-- ===== src/Router/Serve/Invariant.antt =====
-- ServerClientConnection.cpp: what ServeClientSockets keeps, whatever pselect reports and the
-- connections do.
use hex.Base.{
  ℕ, ◌+◌, ◌≡◌, refl, sym, ap, ◌∙◌, Bool, true, false, Option, none, some, List, [], ◌∷◌, pos, ◌==◌,
  Bool-cases, inl, inr, eq_of_==, ne_of_==,
}
use hex.Router.{
  FdSet, fd_isset, fd_set, fd_clr, Thrown, text, out_of_range, assertion, null_pointer, overrun,
  SocketMap, find, erase, erased, ServerSocketsRouter, Out, ok, raised, flagged,
  outgoing_data_for_client,
}
use hex.Router.Coherent.{Agree, find-here, find_past}
use hex.Router.Serve.{
  and_then, Reading, handled, Writing, wrote, Handlers, stored, Erring, erred, error_handled,
  erring_at, handle_error_at, counted, handle_socket_errors, flag_all, reading_at,
  serve_reception_at, serve_socket_receptions, writing_at, serve_emission_at,
  serve_socket_emissions,
}
use hex.Router.Serve.Stores.{length-store, Distinct-store, is_some-store}

-- the program goes on, with tables that agree, or has stopped at an assertion or an access through
-- a null pointer or outside an array
abbrev pub Safe : (L : ℕ → Type 0) → {C A : Type 0} → Out C A → Type 0
Safe L (ok a r) = Agree L r
Safe L (raised text r) = Agree L r
Safe L (raised out_of_range r) = Agree L r
Safe L (raised t r) = Unit

pub Safe-raised :
    (L : ℕ → Type 0) {C : Type 0} (A : Type 0) (t : Thrown) (r : ServerSocketsRouter C)
    → Agree L r
    → Safe L {A = A} (raised t r)
Safe-raised L A text r k = k
Safe-raised L A out_of_range r k = k
Safe-raised L A assertion r k = tt
Safe-raised L A null_pointer r k = tt
Safe-raised L A overrun r k = tt

pub Safe-and_then :
    (L : ℕ → Type 0) {C A B : Type 0} (f : A → ServerSocketsRouter C → Out C B) (o : Out C A)
    → Safe L o
    → ((a : A) (r : ServerSocketsRouter C) → Agree L r → Safe L (f a r))
    → Safe L (and_then f o)
Safe-and_then L f (ok a r) k next = next a r k
Safe-and_then L f (raised text r) k next = k
Safe-and_then L f (raised out_of_range r) k next = k
Safe-and_then L f (raised assertion r) k next = tt
Safe-and_then L f (raised null_pointer r) k next = tt
Safe-and_then L f (raised overrun r) k next = tt

pub erase_missing : {C : Type 0} (d : ℕ) (m : SocketMap C) → find d m ≡ none → erase d m ≡ none
unfolding erase
erase_missing d [] e = refl
erase_missing d ((k, c) ∷ m) e = elim (Bool-cases (k == d)) [
  | inl t ↦ absurd (
      let here = find-here d c m in
      let same = ap (λ y. find d ((y, c) ∷ m)) (eq_of_== k d t) in cc (here, same, e))
  | inr t ↦ rw (t) (
      unfold erased in
      ap (erased (k, c))
        (erase_missing d m (sym (find_past d k c m (λ q. ne_of_== k d t (sym q))) ∙ e)))
]

module _ (L : ℕ → Type 0) {C : Type 0} (h : Handlers C) where
  stored-Agree :
      (s : ℕ) (c c' : C) (r : ServerSocketsRouter C)
      → find s r.socket_map ≡ some c
      → Agree L r
      → Agree L (stored h s c' r)
  unfolding stored
  stored-Agree s c c' r here k = record {
    size = k.size;
    listed = λ t e. k.listed t (sym (is_some-store s t c c' r.socket_map here) ∙ e);
    owned = λ t e. elim (k.owned t e) [
      | inl found ↦ inl (is_some-store s t c c' r.socket_map here ∙ found)
      | inr left ↦ inr left
    ];
    below = k.below;
    count = k.count ∙ ap pos (sym (length-store s c' r.socket_map));
    distinct = Distinct-store s c' r.socket_map k.distinct;
  }

  -- other sets, another list: the same tables
  pub with_sets :
      (r : ServerSocketsRouter C) (read write error : FdSet) (dead : List ℕ)
      → Agree L r
      → Agree L (record r {
        select_readfds = read;
        select_writefds = write;
        select_errorfds = error;
        dead_list = dead;
      })
  with_sets r read write error dead k = record {
    size = k.size;
    listed = k.listed;
    owned = k.owned;
    below = k.below;
    count = k.count;
    distinct = k.distinct;
  }

  flagged-Safe :
      (o : Option C) (d : ℕ) (r : ServerSocketsRouter C) → Agree L r → Safe L (flagged o d r)
  unfolding flagged
  flagged-Safe none d r k = k
  flagged-Safe (some c) d r k = elim (Bool-cases (fd_isset d r.select_writefds)) [
    | inl t ↦ rw (t) k
    | inr t ↦
        rw (t) (
          with_sets r r.select_readfds (fd_set d r.select_writefds) r.select_errorfds r.dead_list k)
  ]

  outgoing_data_for_client-Safe :
      (d : ℕ) (r : ServerSocketsRouter C) → Agree L r → Safe L (outgoing_data_for_client d r)
  unfolding outgoing_data_for_client
  outgoing_data_for_client-Safe d r k = flagged-Safe (find d r.socket_map) d r k

  flag_all-Safe : (ds : List ℕ) (r : ServerSocketsRouter C) → Agree L r → Safe L (flag_all h ds r)
  unfolding flag_all
  flag_all-Safe [] r k = k
  flag_all-Safe (d ∷ ds) r k =
      Safe-and_then L (λ u. flag_all h ds) (outgoing_data_for_client d r)
        (outgoing_data_for_client-Safe d r k) (λ u r' k'. flag_all-Safe ds r' k')

  reading_at-Safe :
      (s : ℕ) (c : C) (x : Reading C) (r : ServerSocketsRouter C)
      → find s r.socket_map ≡ some c
      → Agree L r
      → Safe L (reading_at h s x r)
  unfolding reading_at
  reading_at-Safe s c (handled c' flags) r here k =
      Safe-and_then L (λ u. ok 1) (flag_all h flags (stored h s c' r))
        (flag_all-Safe flags (stored h s c' r) (stored-Agree s c c' r here k)) (λ u r' k'. k')
  reading_at-Safe s c (Reading.disconnection c') r here k =
      let k' = stored-Agree s c (h.socket_disconnected c') r here k in
      unfold stored in
      record {
        size = k'.size;
        listed = k'.listed;
        owned = k'.owned;
        below = k'.below;
        count = k'.count;
        distinct = k'.distinct;
      }
  reading_at-Safe s c (Reading.failed t c') r here k =
      Safe-raised L ℕ t (stored h s c' r) (stored-Agree s c c' r here k)

  writing_at-Safe :
      (s : ℕ) (c : C) (x : Writing C) (r : ServerSocketsRouter C)
      → find s r.socket_map ≡ some c
      → Agree L r
      → Safe L (writing_at h s x r)
  unfolding writing_at
  writing_at-Safe s c (wrote true c') r here k = stored-Agree s c c' r here k
  writing_at-Safe s c (wrote false c') r here k =
      let r' = stored h s c' r in
      with_sets r' r'.select_readfds (fd_clr s r.select_writefds) r'.select_errorfds r'.dead_list
        (stored-Agree s c c' r here k)
  writing_at-Safe s c (Writing.disconnection c') r here k = tt
  writing_at-Safe s c (Writing.failed t c') r here k =
      Safe-raised L ℕ t (stored h s c' r) (stored-Agree s c c' r here k)

  error_handled-Agree :
      (s : ℕ) (c : C) (x : Bool × C) (r : ServerSocketsRouter C)
      → find s r.socket_map ≡ some c
      → Agree L r
      → Agree L (error_handled h s x r).0
  unfolding error_handled
  error_handled-Agree s c (false, c') r here k = stored-Agree s c c' r here k
  error_handled-Agree s c (true, c') r here k =
      let k' = stored-Agree s c c' r here k in
      record {
        size = k'.size;
        listed = k'.listed;
        owned = k'.owned;
        below = k'.below;
        count = k'.count;
        distinct = k'.distinct;
      }

  erring_at-Safe :
      (s : ℕ) (c : C) (x : Erring C) (r : ServerSocketsRouter C)
      → find s r.socket_map ≡ some c
      → Agree L r
      → Safe L (erring_at h s x r)
  unfolding erring_at
  erring_at-Safe s c (erred clear c') r here k = error_handled-Agree s c (clear, c') r here k
  erring_at-Safe s c (Erring.failed t c') r here k =
      Safe-raised L ℕ t (stored h s c' r) (stored-Agree s c c' r here k)

  -- a call for the connection of a socket, if there is one
  Safe-at :
      {A : Type 0} (s : ℕ) (r : ServerSocketsRouter C) (f : Option C → Out C A) (o : Option C)
      → find s r.socket_map ≡ o
      → Safe L (f none)
      → ((c : C) → find s r.socket_map ≡ some c → Safe L (f (some c)))
      → Safe L (f o)
  Safe-at s r f none e without with_conn = without
  Safe-at s r f (some c) e without with_conn = with_conn c e

  counted-Safe : (n : ℕ) (o : Out C ℕ) → Safe L o → Safe L (counted h n o)
  counted-Safe n o k = Safe-and_then L (λ m. ok (n + m)) o k (λ m r k'. k')

  pub handle_socket_errors-Safe :
      (ss : List ℕ) (r : ServerSocketsRouter C) → Agree L r → Safe L (handle_socket_errors h ss r)
  unfolding handle_socket_errors
  handle_socket_errors-Safe [] r k = k
  handle_socket_errors-Safe (s ∷ ss) r k =
      Safe-and_then L (λ n r'. counted h n (handle_socket_errors h ss r'))
        (handle_error_at h s (find s r.socket_map) r)
        (unfold handle_error_at in
          Safe-at s r (λ o. handle_error_at h s o r) (find s r.socket_map) refl k
            (λ c e. erring_at-Safe s c (h.socket_error c) r e k))
        (λ n r' k'.
          counted-Safe n (handle_socket_errors h ss r') (handle_socket_errors-Safe ss r' k'))

  pub serve_socket_receptions-Safe :
      (ss : List ℕ) (r : ServerSocketsRouter C)
      → Agree L r
      → Safe L (serve_socket_receptions h ss r)
  unfolding serve_socket_receptions
  serve_socket_receptions-Safe [] r k = k
  serve_socket_receptions-Safe (s ∷ ss) r k =
      Safe-and_then L (λ n r'. counted h n (serve_socket_receptions h ss r'))
        (serve_reception_at h s (find s r.socket_map) r)
        (unfold serve_reception_at in
          Safe-at s r (λ o. serve_reception_at h s o r) (find s r.socket_map) refl k
            (λ c e. reading_at-Safe s c (h.socket_data_read c) r e k))
        (λ n r' k'.
          counted-Safe n (serve_socket_receptions h ss r') (serve_socket_receptions-Safe ss r' k'))

  pub serve_socket_emissions-Safe :
      (ss : List ℕ) (r : ServerSocketsRouter C) → Agree L r → Safe L (serve_socket_emissions h ss r)
  unfolding serve_socket_emissions
  serve_socket_emissions-Safe [] r k = k
  serve_socket_emissions-Safe (s ∷ ss) r k =
      Safe-and_then L (λ n r'. counted h n (serve_socket_emissions h ss r'))
        (serve_emission_at h s (find s r.socket_map) r)
        (unfold serve_emission_at in
          Safe-at s r (λ o. serve_emission_at h s o r) (find s r.socket_map) refl tt
            (λ c e. writing_at-Safe s c (h.socket_data_write c) r e k))
        (λ n r' k'.
          counted-Safe n (serve_socket_emissions h ss r') (serve_socket_emissions-Safe ss r' k'))
