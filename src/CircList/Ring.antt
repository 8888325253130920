-- ===== src/CircList/Ring.antt =====
-- Rings of linked elements: the addresses met from an element round to itself. A ring is read from
-- any of its elements, so an operation needs to be proved at one place only.
use mathlib.Core.Bool.{or_assoc, false≢true}
use hex.Base.{
  ◌≡◌, ◌≢◌, refl, sym, ◌∙◌, inl, inr, Bool, true, false, ◌||◌, List, [], ◌∷◌, ◌++◌, arith, ◌==◌,
  Bool-cases,
}
use hex.CircList.{Ptr, Heap}

abbrev pub has : Ptr → List Ptr → Bool
has a [] = false
has a (x ∷ xs) = (a == x) || has a xs

abbrev pub Distinct : List Ptr → Type 0
Distinct [] = Unit {0}
Distinct (x ∷ xs) = (has x xs ≡ false) × Distinct xs

abbrev pub Disjoint : List Ptr → List Ptr → Type 0
Disjoint xs ys = (a : Ptr) → has a xs ≡ true → has a ys ≡ false

-- `next` leads from `a` through `xs` to `b`, and `prev` leads back
abbrev pub Chain : Heap → Ptr → List Ptr → Ptr → Type 0
Chain h a [] b = (h.next a ≡ b) × (h.prev b ≡ a)
Chain h a (x ∷ xs) b = (h.next a ≡ x) × (h.prev x ≡ a) × Chain h x xs b

-- the elements met from `p` round to `p` are `xs`, all different and different from `p`
pub record Ring (h : Heap) (p : Ptr) (xs : List Ptr) : Type 0 where
  pub chain : Chain h p xs p
  pub distinct : Distinct (p ∷ xs)

pub has-append : (a : Ptr) (xs ys : List Ptr) → has a (xs ++ ys) ≡ (has a xs || has a ys)
has-append a [] ys = refl
has-append a (x ∷ xs) ys = rw (has-append a xs ys, or_assoc)

pub Distinct-append :
    (xs ys : List Ptr) → Distinct xs → Distinct ys → Disjoint xs ys → Distinct (xs ++ ys)
Distinct-append [] ys p q r = q
Distinct-append (x ∷ xs) ys p q r = (
  ground (arith, has-append x xs ys, r x),
  Distinct-append xs ys p.1 q (λ a i. r a (ground arith)),
)

pub append-Distinct :
    (xs ys : List Ptr) → Distinct (xs ++ ys) → Distinct xs × Distinct ys × Disjoint xs ys
append-Distinct [] ys p = (tt, p, λ a i. cc)
append-Distinct (x ∷ xs) ys p =
    let (q, r, s) = append-Distinct xs ys p.1 in
    ((ground (arith, has-append x xs ys), q), r, λ a i. apart a i s)
  where
    apart : (a : Ptr) → has a (x ∷ xs) ≡ true → Disjoint xs ys → has a ys ≡ false
    apart a i s = ground (arith, has-append x xs ys, s a)

pub Disjoint-comm : (xs ys : List Ptr) → Disjoint xs ys → Disjoint ys xs
Disjoint-comm xs ys d a i = elim (Bool-cases (has a xs)) [
  | inl t ↦ absurd (false≢true (sym (d a t) ∙ i))
  | inr f ↦ f
]

pub Distinct-swap : (xs ys : List Ptr) → Distinct (xs ++ ys) → Distinct (ys ++ xs)
Distinct-swap xs ys p =
    let (q, r, s) = append-Distinct xs ys p in Distinct-append ys xs r q (Disjoint-comm xs ys s)

pub Chain-append :
    (h : Heap) (a b c : Ptr) (xs ys : List Ptr)
    → Chain h a xs b
    → Chain h b ys c
    → Chain h a (xs ++ b ∷ ys) c
Chain-append h a b c [] ys p q = (p.0, p.1, q)
Chain-append h a b c (x ∷ xs) ys p q = (p.0, p.1, Chain-append h x b c xs ys p.2 q)

pub Chain-split :
    (h : Heap) (a b c : Ptr) (xs ys : List Ptr)
    → Chain h a (xs ++ b ∷ ys) c
    → Chain h a xs b × Chain h b ys c
Chain-split h a b c [] ys p = ((p.0, p.1), p.2)
Chain-split h a b c (x ∷ xs) ys p = let (q, r) = Chain-split h x b c xs ys p.2 in ((p.0, p.1, q), r)

-- A chain survives a change that spares the `next` of its elements and the `prev` behind them.
pub Chain-frame :
    (h g : Heap) (a b : Ptr) (xs : List Ptr)
    → ((q : Ptr) → has q (a ∷ xs) ≡ true → g.next q ≡ h.next q)
    → ((q : Ptr) → has q (b ∷ xs) ≡ true → g.prev q ≡ h.prev q)
    → Chain h a xs b
    → Chain g a xs b
Chain-frame h g a b [] n p c = (n a (ground arith) ∙ c.0, p b (ground arith) ∙ c.1)
Chain-frame h g a b (x ∷ xs) n p c = (
  n a (ground arith) ∙ c.0,
  p x (ground arith) ∙ c.1,
  Chain-frame h g x b xs (λ q i. n q (ground arith)) (λ q i. p q (ground arith)) c.2,
)

-- The same ring, read from another of its elements.
pub Ring-rotate :
    {h : Heap} {p : Ptr} (xs : List Ptr) (u : Ptr) (ys : List Ptr)
    → Ring h p (xs ++ u ∷ ys)
    → Ring h u (ys ++ p ∷ xs)
Ring-rotate {h} {p} xs u ys r =
    let (c, d) = Chain-split h p u p xs ys r.chain in
    record {
      chain = Chain-append h u p u ys xs d c;
      distinct = Distinct-swap (p ∷ xs) (u ∷ ys) r.distinct;
    }

abbrev pub last_of : Ptr → List Ptr → Ptr
last_of a [] = a
last_of a (x ∷ xs) = last_of x xs

pub has-last_of : (a : Ptr) (xs : List Ptr) → has (last_of a xs) (a ∷ xs) ≡ true
has-last_of a [] = ground arith
has-last_of a (x ∷ xs) = ground (arith, has-last_of x xs)

pub last_of-append : (a b : Ptr) (xs ys : List Ptr) → last_of a (xs ++ b ∷ ys) ≡ last_of b ys
last_of-append a b [] ys = refl
last_of-append a b (x ∷ xs) ys = last_of-append x b xs ys

pub Chain-prev : (h : Heap) (a b : Ptr) (xs : List Ptr) → Chain h a xs b → h.prev b ≡ last_of a xs
Chain-prev h a b [] c = c.1
Chain-prev h a b (x ∷ xs) c = Chain-prev h x b xs c.2

pub Chain-next : (h : Heap) (a b : Ptr) (xs : List Ptr) → Chain h a xs b → h.next (last_of a xs) ≡ b
Chain-next h a b [] c = c.0
Chain-next h a b (x ∷ xs) c = Chain-next h x b xs c.2

-- The chain whose last link is turned to another address.
pub Chain-close :
    (h g : Heap) (a b c : Ptr) (xs : List Ptr)
    → Chain h a xs b
    → Distinct (a ∷ xs)
    → ((q : Ptr) → has q (a ∷ xs) ≡ true → q ≢ last_of a xs → g.next q ≡ h.next q)
    → ((q : Ptr) → has q xs ≡ true → g.prev q ≡ h.prev q)
    → g.next (last_of a xs) ≡ c
    → g.prev c ≡ last_of a xs
    → Chain g a xs c
Chain-close h g a b c [] k d n p e f = (e, f)
Chain-close h g a b c (x ∷ xs) k d n p e f = (
  n a (ground arith) a_ne ∙ k.0,
  p x (ground arith) ∙ k.1,
  Chain-close h g x b c xs k.2 d.1 (λ q i m. n q (ground arith) m) (λ q i. p q (ground arith)) e f,
)
  where
    a_ne : a ≢ last_of x xs
    a_ne e = ground (arith, has-last_of x xs)
