-- ===== src/Router/Serve/Stores.antt =====
-- A connection stored in the map of ServerSocketsRouter in place of another.
use hex.Base.{
  ℕ, suc, ◌≡◌, ◌≢◌, refl, sym, ap, ◌∙◌, some, [], ◌∷◌, length, ◌==◌, Bool-cases, inl, inr, eq_of_==,
  ne_of_==,
}
use hex.Router.{SocketMap, find, store}
use hex.Router.Coherent.{is_some, Distinct, find-here, find_past}

pub find-store :
    {C : Type 0} (s : ℕ) (c c' : C) (m : SocketMap C)
    → find s m ≡ some c
    → find s (store s c' m) ≡ some c'
unfolding find store
find-store s c c' [] e = absurd (cc (e))
find-store s c c' ((k, x) ∷ m) e = elim (Bool-cases (k == s)) [
  | inl t ↦ rw (t) (rw (t) refl)
  | inr t ↦
      let ne : s ≢ k = λ q. ne_of_== k s t (sym q) in
      rw (t)
        (find_past s k x (store s c' m) ne ∙ find-store s c c' m (sym (find_past s k x m ne) ∙ e))
]

pub find-store_other :
    {C : Type 0} (s t : ℕ) (c' : C) (m : SocketMap C) → t ≢ s → find t (store s c' m) ≡ find t m
unfolding find store
find-store_other s t c' [] ne = refl
find-store_other s t c' ((k, x) ∷ m) ne = elim (Bool-cases (k == s)) [
  | inl u ↦
      let ne' : t ≢ k = λ q. ne (q ∙ eq_of_== k s u) in
      rw (u) (find_past t k c' m ne' ∙ sym (find_past t k x m ne'))
  | inr u ↦ rw (u) (elim (Bool-cases (t == k)) [
    | inl v ↦
        ap (λ y. find y ((k, x) ∷ store s c' m)) (eq_of_== t k v)
        ∙ find-here k x (store s c' m)
        ∙ sym (ap (λ y. find y ((k, x) ∷ m)) (eq_of_== t k v) ∙ find-here k x m)
    | inr v ↦
        find_past t k x (store s c' m) (ne_of_== t k v)
        ∙ find-store_other s t c' m ne
        ∙ sym (find_past t k x m (ne_of_== t k v))
  ])
]

pub length-store :
    {C : Type 0} (s : ℕ) (c' : C) (m : SocketMap C) → length (store s c' m) ≡ length m
unfolding store
length-store s c' [] = refl
length-store s c' ((k, x) ∷ m) = elim (Bool-cases (k == s)) [
  | inl u ↦ rw (u) refl
  | inr u ↦ rw (u) (ap suc (length-store s c' m))
]

pub Distinct-store :
    {C : Type 0} (s : ℕ) (c' : C) (m : SocketMap C) → Distinct m → Distinct (store s c' m)
unfolding store
Distinct-store s c' [] d = d
Distinct-store s c' ((k, x) ∷ m) d = elim (Bool-cases (k == s)) [
  | inl u ↦ rw (u) d
  | inr u ↦ rw (u) (find-store_other s k c' m (ne_of_== k s u) ∙ d.0, Distinct-store s c' m d.1)
]

pub is_some-store :
    {C : Type 0} (s t : ℕ) (c c' : C) (m : SocketMap C)
    → find s m ≡ some c
    → is_some (find t (store s c' m)) ≡ is_some (find t m)
is_some-store s t c c' m e = elim (Bool-cases (t == s)) [
  | inl u ↦
      ap (λ y. is_some (find y (store s c' m))) (eq_of_== t s u)
      ∙ ap is_some (find-store s c c' m e)
      ∙ sym (ap (λ y. is_some (find y m)) (eq_of_== t s u) ∙ ap is_some e)
  | inr u ↦ ap is_some (find-store_other s t c' m (ne_of_== t s u))
]
