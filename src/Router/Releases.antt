-- ===== src/Router/Releases.antt =====
-- Descriptors served one after the other by ServerSocketsRouter, and the release of those whose
-- connections are broken.
use hex.Base.{
  ℕ, zero, suc, ◌+◌, ◌<◌, ◌≡◌, ◌≢◌, refl, sym, ap, ◌∙◌, Bool, true, false, ◌||◌, Option, none, some,
  List, [], ◌∷◌, arith, ◌==◌, Bool-cases, inl, inr, ==-self, ==-ne, eq_of_==, ne_of_==,
}
use hex.Router.{FdSet, fd_isset, SocketMap, find, ServerSocketsRouter, ok}
use hex.Router.Sets.{positions}
use hex.Router.Coherent.{is_some, Coherent}
use hex.Router.Release.{release_client_connection-Coherent}
use hex.Router.Serve.{and_then, Handlers, release_all}

abbrev pub memb : ℕ → List ℕ → Bool
memb s [] = false
memb s (x ∷ xs) = (s == x) || memb s xs

abbrev pub NoDup : List ℕ → Type 0
NoDup [] = Unit
NoDup (x ∷ xs) = (memb x xs ≡ false) × NoDup xs

pub memb-here : (s : ℕ) (xs : List ℕ) → memb s (s ∷ xs) ≡ true
memb-here s xs = rw (==-self s) refl

pub memb_past : (s x : ℕ) (xs : List ℕ) → s ≢ x → memb s (x ∷ xs) ≡ memb s xs
memb_past s x xs ne = rw (==-ne s x ne) refl

pub ne_of_memb : (s x : ℕ) (xs : List ℕ) → memb x xs ≡ false → memb s xs ≡ true → s ≢ x
ne_of_memb s x xs f t e = let k = ap (λ y. memb y xs) e in cc (f, t, k)

memb-positions_below : (bs : FdSet) (s k : ℕ) → s < k → memb s (positions k bs) ≡ false
memb-positions_below [] s k l = refl
memb-positions_below (true ∷ bs) s k l =
    memb_past s k (positions (suc k) bs) (λ e. omega arith)
    ∙ memb-positions_below bs s (suc k) (omega arith)
memb-positions_below (false ∷ bs) s k l = memb-positions_below bs s (suc k) (omega arith)

pub NoDup-positions : (bs : FdSet) (k : ℕ) → NoDup (positions k bs)
NoDup-positions [] k = tt
NoDup-positions (true ∷ bs) k =
    (memb-positions_below bs k (suc k) (omega arith), NoDup-positions bs (suc k))
NoDup-positions (false ∷ bs) k = NoDup-positions bs (suc k)

pub memb-positions : (bs : FdSet) (s k : ℕ) → memb (k + s) (positions k bs) ≡ fd_isset s bs
unfolding fd_isset
memb-positions [] s k = refl
memb-positions (true ∷ bs) zero k =
    ap (λ x. memb x (k ∷ positions (suc k) bs)) (omega arith) ∙ memb-here k (positions (suc k) bs)
memb-positions (false ∷ bs) zero k = memb-positions_below bs (k + 0) (suc k) (omega arith)
memb-positions (true ∷ bs) (suc s) k =
    memb_past (k + suc s) k (positions (suc k) bs) (λ e. omega arith)
    ∙ ap (λ x. memb x (positions (suc k) bs)) (omega arith)
    ∙ memb-positions bs s (suc k)
memb-positions (false ∷ bs) (suc s) k =
    ap (λ x. memb x (positions (suc k) bs)) (omega arith) ∙ memb-positions bs s (suc k)

module _ {C : Type 0} (h : Handlers C) where
  -- all the descriptors are of connections
  abbrev pub Registered : List ℕ → SocketMap C → Type 0
  Registered ss m = (s : ℕ) → memb s ss ≡ true → is_some (find s m) ≡ true

  pub some_of : {A : Type 0} (o : Option A) → is_some o ≡ true → (a : A) × (o ≡ some a)
  some_of none e = absurd (cc (e))
  some_of (some a) e = (a, refl)

  pub release_all_lem :
      (ds : List ℕ) (r : ServerSocketsRouter C)
      → NoDup ds
      → Registered ds r.socket_map
      → Coherent r
      → (r' : ServerSocketsRouter C) × (release_all h ds r ≡ ok tt r')
        × Coherent r'
        × ((s : ℕ) → memb s ds ≡ true → find s r'.socket_map ≡ none)
        × ((s : ℕ) → memb s ds ≡ false → find s r'.socket_map ≡ find s r.socket_map)
  unfolding release_all
  release_all_lem [] r nodup reg k = (r, refl, k, λ s e. absurd (cc (e)), λ s e. refl)
  release_all_lem (d ∷ ds) r (fresh, nodup) reg k =
      let (c, here) = some_of (find d r.socket_map) (reg d (memb-here d ds)) in
      let (r1, e1, k1, gone, kept) = release_client_connection-Coherent d c r here k in
      let (r2, e2, k2, none_of, others) =
        release_all_lem ds r1 nodup
          (λ s t.
            ap is_some (kept s (ne_of_memb s d ds fresh t))
            ∙ reg s (memb_past s d ds (ne_of_memb s d ds fresh t) ∙ t))
          k1 in
      (
        r2,
        ap (and_then (λ u. release_all h ds)) e1 ∙ e2,
        k2,
        λ s t. elim (Bool-cases (s == d)) [
          | inl u ↦ ap (λ x. find x r2.socket_map) (eq_of_== s d u) ∙ others d fresh ∙ gone
          | inr u ↦ none_of s (sym (memb_past s d ds (ne_of_== s d u)) ∙ t)
        ],
        λ s t. elim (Bool-cases (s == d)) [
          | inl u ↦ absurd (
              let a = ap (λ x. memb x (d ∷ ds)) (eq_of_== s d u) in
              let b = memb-here d ds in cc (a, b, t))
          | inr u ↦ others s (sym (memb_past s d ds (ne_of_== s d u)) ∙ t) ∙ kept s (ne_of_== s d u)
        ],
      )
