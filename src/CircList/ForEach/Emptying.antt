-- ===== src/CircList/ForEach/Emptying.antt =====
-- The loops of util/circList.h whose body takes the element met out of the list.
use hex.Base.{
  ℕ, zero, suc, ◌<◌, ◌≡◌, refl, sym, ◌∙◌, ap, true, false, Option, none, some, List, [], ◌∷◌, arith,
  length, ◌==◌, ◌⊎◌, inl, inr, Bool-cases,
}
use hex.CircList.{Ptr, Heap, extract, unlink, empty, is_head}
use hex.CircList.Ring.{Chain}
use hex.CircList.Lists.{IsList, extract-IsList}
use hex.CircList.ForEach.{
  met, after_body, for_each_from, list_for_each, for_each_safe_from, list_for_each_safe,
  destroy_head,
}

abbrev pub heap_of : Option (Heap × Ptr) → Option Heap
heap_of none = none
heap_of (some (g, payload)) = some g

-- `pos->extract()`
abbrev pub take_out : Ptr → Heap → Option Heap
take_out pos h = heap_of (extract pos h)

take_out_lem :
    (h g : Heap) (x payload : Ptr) → extract x h ≡ some (g, payload) → take_out x h ≡ some g
take_out_lem h g x payload e = ap heap_of e

-- two ways into the same elements
same_first :
    (h g : Heap) (a b c : Ptr) (xs : List Ptr)
    → Chain h a xs c
    → Chain g b xs c
    → h.next a ≡ g.next b
same_first h g a b c [] k m = k.0 ∙ sym m.0
same_first h g a b c (x ∷ xs) k m = k.0 ∙ sym m.0

safe_from :
    (h : Heap) (p : Ptr) (xs : List Ptr) (fuel : ℕ) (pos n : Ptr)
    → IsList h p xs
    → pos ≡ h.next p
    → n ≡ h.next pos
    → length xs < fuel
    → (g : Heap) × (for_each_safe_from take_out p fuel pos n h ≡ some (xs, g)) × IsList g p []
unfolding for_each_safe_from
safe_from h p xs zero pos n l at later f = absurd (omega arith)
safe_from h p [] (suc fuel) pos n l at later f =
    let done : (pos == p) ≡ true = let c = l.ring.chain.0 in ground arith in (h, rw done refl, l)
safe_from h p (x ∷ xs) (suc fuel) pos n l at later f =
    let first : pos ≡ x = at ∙ l.ring.chain.0 in
    let more : (pos == p) ≡ false = let d = l.ring.distinct.0 in ground arith in
    let (g, e, l', alone) = extract-IsList x [] xs l in
    let again : n ≡ g.next p =
      later ∙ ap h.next first ∙ same_first h g x p p xs l.ring.chain.2 l'.ring.chain in
    let taken : take_out pos h ≡ some g =
      ap (λ q. take_out q h) first ∙ take_out_lem h g x (h.payload x) e in
    let (k, run, cleared) = safe_from g p xs fuel n (g.next n) l' again refl (omega arith) in
    (
      k,
      rw more (
          ap (λ o. met pos (after_body (λ g. for_each_safe_from take_out p fuel n (g.next n) g) o))
            taken
          ∙ ap (met pos) run
          ∙ ap (λ q. some (q ∷ xs, k)) first),
      cleared,
    )

-- list_for_each_safe whose body extracts the element met ends within any fuel above the number of
-- elements; it has met all elements in order, and leaves a list that is empty, so that the
-- destructor of its head does not fail.
pub list_for_each_safe-extract :
    {h : Heap} {p : Ptr} (xs : List Ptr) (fuel : ℕ)
    → IsList h p xs
    → length xs < fuel
    → (g : Heap) × (list_for_each_safe take_out p fuel h ≡ some (xs, g))
      × IsList g p []
      × (destroy_head p g ≡ some g)
unfolding list_for_each_safe destroy_head empty
list_for_each_safe-extract {h} {p} xs fuel l f =
    let (g, run, cleared) = safe_from h p xs fuel (h.next p) (h.next (h.next p)) l refl refl f in
    (g, run, cleared, (let c = cleared.ring.chain.0 in ground arith))

unlink_alone : (g : Heap) (x : Ptr) → g.next x ≡ x → unlink x g ≡ g
unfolding unlink empty
unlink_alone g x e = ground arith

take_out_alone :
    (g : Heap) (x : Ptr) → g.next x ≡ x → (take_out x g ≡ none) ⊎ (take_out x g ≡ some g)
unfolding extract is_head
take_out_alone g x e = elim (Bool-cases (g.payload x == 0)) [
  | inl t ↦ inl (rw t refl)
  | inr f ↦ inr (rw f (ap some (unlink_alone g x e)))
]

stays :
    (g : Heap) (p x : Ptr) (fuel : ℕ)
    → g.next x ≡ x
    → (x == p) ≡ false
    → for_each_from take_out p fuel x g ≡ none
unfolding for_each_from
stays g p x zero e d = refl
stays g p x (suc fuel) e d =
    let loop =
      λ (o : Option Heap). met x (after_body (λ g. for_each_from take_out p fuel (g.next x) g) o) in
    elim (take_out_alone g x e) [
      | inl fails ↦ rw d (ap loop fails)
      | inr same ↦ rw d (
          ap loop same
          ∙ ap (λ q. met x (for_each_from take_out p fuel q g)) e
          ∙ ap (met x) (stays g p x fuel e d))
    ]

-- list_for_each with the same body does not end within any fuel, on a list that is not empty.
pub list_for_each-extract_endless :
    {h : Heap} {p : Ptr} (x : Ptr) (xs : List Ptr) (fuel : ℕ)
    → IsList h p (x ∷ xs)
    → list_for_each take_out p fuel h ≡ none
unfolding list_for_each for_each_from
list_for_each-extract_endless {h} {p} x xs zero l = refl
list_for_each-extract_endless {h} {p} x xs (suc fuel) l =
    let more : (x == p) ≡ false = let d = l.ring.distinct.0 in ground arith in
    let (g, e, l', alone) = extract-IsList x [] xs l in
    ap (λ q. for_each_from take_out p (suc fuel) q h) l.ring.chain.0
    ∙ (rw more (
        ap (λ o. met x (after_body (λ g. for_each_from take_out p fuel (g.next x) g) o))
          (take_out_lem h g x (h.payload x) e)
        ∙ ap (λ q. met x (for_each_from take_out p fuel q g)) alone.chain.0
        ∙ ap (met x) (stays g p x fuel alone.chain.0 more)))
