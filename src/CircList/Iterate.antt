-- ===== src/CircList/Iterate.antt =====
-- util/circList.h: traversal of a list by its iterators.
use mathlib.Core.List.{reverse, reverse_aux}
use hex.Base.{
  ℕ, zero, suc, ◌<◌, ◌≡◌, ◌≢◌, refl, ◌∙◌, ap, false, ◌||◌, some, List, [], ◌∷◌, arith, length,
  length-reverse_aux,
}
use hex.CircList.{Ptr, Heap}
use hex.CircList.Iterators.{
  Iterator, iterator, begin, rbegin, end, increment, decrement, traverse, traverse_back,
}
use hex.CircList.Ring.{has, Chain, Ring, has-last_of, Chain-prev}
use hex.CircList.Lists.{IsList}

-- an iterator at the element behind `a`, on the way through `xs` to `b`
traverse-Chain :
    (h : Heap) (b : Ptr) (fuel : ℕ) (it last : Iterator) (a : Ptr) (xs : List Ptr)
    → Chain h a xs b
    → it.p_elt ≡ h.next a
    → it.p_next ≡ h.next it.p_elt
    → last.p_elt ≡ b
    → has b xs ≡ false
    → length xs < fuel
    → traverse h fuel it last ≡ some xs
unfolding traverse
traverse-Chain h b zero it last a xs c e n l d f = absurd (omega arith)
traverse-Chain h b (suc fuel) it last a [] c e n l d f = ground arith
traverse-Chain h b (suc fuel) it last a (x ∷ xs) c e n l d f =
    ground (
      arith,
      traverse-Chain h b fuel (increment h it) last x xs c.2 (n ∙ ap h.next (e ∙ c.0)) refl l,
    )

-- the way back from `b` through `zs` to `a`, by `prev`
abbrev BackChain : Heap → Ptr → List Ptr → Ptr → Type 0
BackChain h b [] a = h.prev b ≡ a
BackChain h b (z ∷ zs) a = (h.prev b ≡ z) × BackChain h z zs a

Chain-BackChain :
    (h : Heap) (a x b : Ptr) (xs acc : List Ptr)
    → Chain h x xs b
    → BackChain h x acc a
    → BackChain h b (reverse_aux xs (x ∷ acc)) a
Chain-BackChain h a x b [] acc c k = (c.1, k)
Chain-BackChain h a x b (y ∷ ys) acc c k = Chain-BackChain h a y b ys (x ∷ acc) c.2 (c.1, k)

Ring-BackChain : (h : Heap) (p : Ptr) (xs : List Ptr) → Ring h p xs → BackChain h p (reverse xs) p
Ring-BackChain h p [] r = r.chain.1
Ring-BackChain h p (x ∷ xs) r = Chain-BackChain h p x p xs [] r.chain.2 r.chain.1

has-reverse_aux : (a : Ptr) (xs ys : List Ptr) → has a (reverse_aux xs ys) ≡ (has a xs || has a ys)
has-reverse_aux a [] ys = refl
has-reverse_aux a (x ∷ xs) ys = ground (arith, has-reverse_aux a xs (x ∷ ys))

traverse-BackChain :
    (h : Heap) (b : Ptr) (fuel : ℕ) (it last : Iterator) (a : Ptr) (zs : List Ptr)
    → BackChain h a zs b
    → it.p_elt ≡ h.prev a
    → it.p_prev ≡ h.prev it.p_elt
    → last.p_elt ≡ b
    → has b zs ≡ false
    → length zs < fuel
    → traverse_back h fuel it last ≡ some zs
unfolding traverse_back
traverse-BackChain h b zero it last a zs c e n l d f = absurd (omega arith)
traverse-BackChain h b (suc fuel) it last a [] c e n l d f = ground arith
traverse-BackChain h b (suc fuel) it last a (z ∷ zs) c e n l d f = ground (
  arith,
  traverse-BackChain h b fuel (decrement h it) last z zs c.1 (n ∙ ap h.prev (e ∙ c.0)) refl l,
)

begin_lem :
    (h : Heap) (p : Ptr)
    → h.payload p ≡ 0
    → h.next p ≢ 0
    → begin h p
      ≡ some (record { p_elt = h.next p; p_prev = h.prev (h.next p); p_next = h.next (h.next p) })
unfolding begin
begin_lem h p e n = ground arith

rbegin_lem :
    (h : Heap) (p : Ptr)
    → h.payload p ≡ 0
    → h.prev p ≢ 0
    → rbegin h p
      ≡ some (record { p_elt = h.prev p; p_prev = h.prev (h.prev p); p_next = h.next (h.prev p) })
unfolding rbegin
rbegin_lem h p e n = ground arith

end_lem :
    (h : Heap) (p : Ptr) → h.payload p ≡ 0 → (it : Iterator) × (end h p ≡ some it) × (it.p_elt ≡ p)
unfolding end
end_lem h p e = (iterator h p, ground arith, ground arith)

in-Ring :
    (h : Heap) (p : Ptr) (xs : List Ptr)
    → Ring h p xs
    → has 0 (p ∷ xs) ≡ false
    → (h.next p ≢ 0) × (h.prev p ≢ 0)
in-Ring h p [] r z = (ground (arith, r.chain.0), ground (arith, r.chain.1))
in-Ring h p (x ∷ xs) r z =
    (ground (arith, r.chain.0), ground (arith, Chain-prev h p p (x ∷ xs) r.chain, has-last_of x xs))

-- Where no element of a list has the address NULL, the loops from begin() to end() and from
-- rbegin() to rend() end within any fuel above the number of elements, and meet the elements in
-- order and in reverse.
pub traverse-IsList :
    {h : Heap} {p : Ptr} (xs : List Ptr) (fuel : ℕ)
    → IsList h p xs
    → has 0 (p ∷ xs) ≡ false
    → length xs < fuel
    → (first : Iterator) × (final : Iterator) × (past : Iterator) × (begin h p ≡ some first)
      × (rbegin h p ≡ some final)
      × (end h p ≡ some past)
      × (traverse h fuel first past ≡ some xs)
      × (traverse_back h fuel final past ≡ some (reverse xs))
traverse-IsList {h} {p} xs fuel l z f =
    let (a, b) = in-Ring h p xs l.ring z in
    let (past, e, at) = end_lem h p l.head in
    (
      _,
      _,
      past,
      begin_lem h p l.head a,
      rbegin_lem h p l.head b,
      e,
      traverse-Chain h p fuel _ past p xs l.ring.chain refl refl at l.ring.distinct.0 f,
      traverse-BackChain h p fuel _ past p (reverse xs) (Ring-BackChain h p xs l.ring) refl refl at
          (ground (arith, has-reverse_aux p xs [], l.ring.distinct.0))
          (omega (arith, length-reverse_aux xs [])),
    )
