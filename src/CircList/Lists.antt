-- ===== src/CircList/Lists.antt =====
-- The list that a head stands for, and what each operation on the list does to it.
use hex.Base.{
  ◌≡◌, ◌≢◌, ◌⊎◌, inl, inr, refl, sym, ◌∙◌, ap, true, false, some, List, [], ◌∷◌, ◌++◌, arith, ==-ne,
}
use hex.CircList.{Ptr, Heap, insert, unlink, insert_after, insert_before, extract, push, push_back}
use hex.CircList.Ring.{has, has-append, Ring}
use hex.CircList.Basic.{insert-Ring}
use hex.CircList.Places.{
  insert_back-Ring, insert_after-Ring, insert_before-Ring, unlink-Ring, unlink-alone,
}

-- the head `p` carries no payload, and the elements `xs` round to it carry one each
pub record IsList (h : Heap) (p : Ptr) (xs : List Ptr) : Type 0 where
  pub ring : Ring h p xs
  pub head : h.payload p ≡ 0
  pub elts : (q : Ptr) → has q xs ≡ true → h.payload q ≢ 0

payload-insert : (e a b : Ptr) (h : Heap) → (insert e a b h).payload ≡ h.payload
unfolding insert
payload-insert e a b h = refl

pub payload-unlink : (e : Ptr) (h : Heap) → (unlink e h).payload ≡ h.payload
unfolding unlink
payload-unlink e h = ground arith

-- A ring of the same head, after writes of `next` and `prev` only.
pub relist :
    {h g : Heap} {p : Ptr} {xs zs : List Ptr}
    → IsList h p xs
    → g.payload ≡ h.payload
    → Ring g p zs
    → ((q : Ptr) → has q zs ≡ true → h.payload q ≢ 0)
    → IsList g p zs
relist {p} l same r from = record {
  ring = r;
  head = ap (λ f. f p) same ∙ l.head;
  elts = λ q i z. from q i (sym (ap (λ f. f q) same) ∙ z);
}

module _ {h : Heap} {p : Ptr} (e : Ptr) (live : h.payload e ≢ 0) where
  fresh : {xs : List Ptr} → IsList h p xs → has e xs ≡ false → has e (p ∷ xs) ≡ false
  fresh l new = rw (==-ne e p (λ k. live (ap h.payload k ∙ l.head))) new

  -- what insertion between two neighbours makes of a list
  insert-IsList :
      (a b : Ptr) {xs zs : List Ptr}
      → IsList h p xs
      → Ring (insert e a b h) p zs
      → ((q : Ptr) → has q zs ≡ true → (q ≡ e) ⊎ (has q xs ≡ true))
      → IsList (insert e a b h) p zs
  insert-IsList a b l r from =
      relist l (payload-insert e a b h) r
        λ q i. elim (from q i) [ inl k ↦ λ z. live (ap h.payload (sym k) ∙ z) | inr k ↦ l.elts q k ]

  -- On a list whose head is `p`, and for an element `e` that carries a payload and is not among
  -- its elements, push succeeds and makes `e` the first element.
  pub push-IsList :
      {xs : List Ptr}
      → IsList h p xs
      → has e xs ≡ false
      → (g : Heap) × (push p e h ≡ some g) × IsList g p (e ∷ xs)
  unfolding push
  push-IsList {xs} l new = (
    insert e p (h.next p) h,
    (let e0 = l.head in ground arith),
    insert-IsList p (h.next p) l (insert-Ring p e xs l.ring (fresh l new)) (λ q i. ground arith),
  )

  -- On a list whose head is `p`, and for an element `e` that carries a payload and is not among
  -- its elements, push_back succeeds and makes `e` the last element.
  pub push_back-IsList :
      {xs : List Ptr}
      → IsList h p xs
      → has e xs ≡ false
      → (g : Heap) × (push_back p e h ≡ some g) × IsList g p (xs ++ e ∷ [])
  unfolding push_back
  push_back-IsList {xs} l new = (
    insert e (h.prev p) p h,
    (let e0 = l.head in ground arith),
    insert-IsList (h.prev p) p l (insert_back-Ring p e xs l.ring (fresh l new))
        (λ q i. ground (arith, has-append q xs (e ∷ []))),
  )

  -- For an element `e` that carries a payload and is not in the list, insert_after succeeds and
  -- puts `e` right behind the element `u` of the list.
  pub insert_after-IsList :
      (u : Ptr) (xs ys : List Ptr)
      → IsList h p (xs ++ u ∷ ys)
      → has e (xs ++ u ∷ ys) ≡ false
      → (g : Heap) × (insert_after e u h ≡ some g) × IsList g p (xs ++ u ∷ e ∷ ys)
  unfolding insert_after
  insert_after-IsList u xs ys l new = (
    insert e u (h.next u) h,
    ground arith,
    insert-IsList u (h.next u) l (insert_after-Ring e u xs ys l.ring (fresh l new))
        (λ q i. ground (arith, has-append q xs (u ∷ e ∷ ys), has-append q xs (u ∷ ys))),
  )

  -- For an element `e` that carries a payload and is not in the list, insert_before succeeds and
  -- puts `e` right in front of the element `u` of the list.
  pub insert_before-IsList :
      (u : Ptr) (xs ys : List Ptr)
      → IsList h p (xs ++ u ∷ ys)
      → has e (xs ++ u ∷ ys) ≡ false
      → (g : Heap) × (insert_before e u h ≡ some g) × IsList g p (xs ++ e ∷ u ∷ ys)
  unfolding insert_before
  insert_before-IsList u xs ys l new = (
    insert e (h.prev u) u h,
    ground arith,
    insert-IsList (h.prev u) u l (insert_before-Ring e u xs ys l.ring (fresh l new))
        (λ q i. ground (arith, has-append q xs (e ∷ u ∷ ys), has-append q xs (u ∷ ys))),
  )

-- extract on an element `e` of a list succeeds with the payload of `e`, takes `e` out of the list
-- and leaves it in a ring of its own.
pub extract-IsList :
    {h : Heap} {p : Ptr} (e : Ptr) (xs ys : List Ptr)
    → IsList h p (xs ++ e ∷ ys)
    → (g : Heap) × (extract e h ≡ some (g, h.payload e)) × IsList g p (xs ++ ys) × Ring g e []
unfolding extract
extract-IsList {h} e xs ys l = (
  unlink e h,
  (let live = l.elts e (ground (arith, has-append e xs (e ∷ ys))) in ground arith),
  relist l (payload-unlink e h) (unlink-Ring e xs ys l.ring)
      (λ q i. l.elts q (ground (arith, has-append q xs ys, has-append q xs (e ∷ ys)))),
  unlink-alone e xs ys l.ring,
)
