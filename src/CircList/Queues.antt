-- ===== src/CircList/Queues.antt =====
-- util/circList.h: the operations at the ends of a list: pop, pop_back and rotate_left.
use mathlib.Core.Path.{subst}
use mathlib.Core.List.{append-nil}
use hex.Base.{◌≡◌, ◌≢◌, refl, true, false, some, List, [], ◌∷◌, ◌++◌, arith}
use hex.CircList.{Ptr, Heap, insert, link, init, leave, empty, pop, pop_back, rotate_left}
use hex.CircList.Ring.{has, has-append, Chain-split, Ring}
use hex.CircList.Basic.{link-Ring, init-Ring, Ring-init}
use hex.CircList.Places.{
  empty-nil, empty-cons, empty-append, insert_back-Ring, unlinked-Ring, leave-Ring, gone,
}
use hex.CircList.Lists.{IsList, relist}

payload-popped : (e a b : Ptr) (h : Heap) → (init e (link a b h)).payload ≡ h.payload
unfolding init link
payload-popped e a b h = refl

pub payload-moved : (e a b : Ptr) (h : Heap) → (insert e a b (leave e h)).payload ≡ h.payload
unfolding insert leave
payload-moved e a b h = ground arith

abbrev pub first_or : Ptr → List Ptr → Ptr
first_or d [] = d
first_or d (x ∷ xs) = x

abbrev pub rest : List Ptr → List Ptr
rest [] = []
rest (x ∷ xs) = xs

abbrev pub rotated : List Ptr → List Ptr
rotated [] = []
rotated (x ∷ xs) = xs ++ x ∷ []

-- what pop and pop_back compute where the head is one and the list is not empty
pop_step :
    (h : Heap) (p x : Ptr)
    → h.payload p ≡ 0
    → empty h p ≡ false
    → h.next p ≡ x
    → pop p h ≡ some (init x (link p (h.next x) h), x)
unfolding pop
pop_step h p x e f n = rw n (ground arith)

pop_back_step :
    (h : Heap) (p x : Ptr)
    → h.payload p ≡ 0
    → empty h p ≡ false
    → h.prev p ≡ x
    → h.next x ≡ p
    → pop_back p h ≡ some (init x (link (h.prev x) (h.next x) h), x)
unfolding pop_back
pop_back_step h p x e f n k = rw (n, k) (ground arith)

pop-empty : (h : Heap) (p : Ptr) → h.payload p ≡ 0 → empty h p ≡ true → pop p h ≡ some (h, 0)
unfolding pop
pop-empty h p e f = ground arith

-- pop succeeds: it returns the first element and takes it off the list, and returns NULL and
-- leaves the list alone where the list is empty.
pub pop-IsList :
    {h : Heap} {p : Ptr} (xs : List Ptr)
    → IsList h p xs
    → (g : Heap) × (pop p h ≡ some (g, first_or 0 xs)) × IsList g p (rest xs)
pop-IsList {h} {p} [] l = (h, pop-empty h p l.head (empty-nil l.ring), l)
pop-IsList {h} {p} (x ∷ xs) l = (
  init x (link p (h.next x) h),
  pop_step h p x l.head (empty-cons l.ring) l.ring.chain.0,
  relist l (payload-popped x p (h.next x) h)
      (Ring-init p x xs (link-Ring p x xs l.ring) (let d = l.ring.distinct in ground arith))
      (λ q i. l.elts q (ground arith)),
)

last_links :
    {h : Heap} {p : Ptr} (x : Ptr) (xs : List Ptr)
    → Ring h p (xs ++ x ∷ [])
    → (h.prev p ≡ x) × (h.next x ≡ p)
last_links {h} {p} x xs r = let (c, d) = Chain-split h p x p xs [] r.chain in (d.1, d.0)

-- pop_back on a list that is not empty succeeds: it returns the last element, takes it off the
-- list and leaves it in a ring of its own.
pub pop_back-IsList :
    {h : Heap} {p : Ptr} (x : Ptr) (xs : List Ptr)
    → IsList h p (xs ++ x ∷ [])
    → (g : Heap) × (pop_back p h ≡ some (g, x)) × IsList g p xs × Ring g x []
pop_back-IsList {h} {p} x xs l =
    let (back, forth) = last_links x xs l.ring in
    (
      init x (link (h.prev x) (h.next x) h),
      pop_back_step h p x l.head (empty-append x [] xs l.ring) back forth,
      relist l (payload-popped x (h.prev x) (h.next x) h)
          (Ring-init p x xs (subst (Ring _ p) (append-nil xs) (unlinked-Ring x xs [] l.ring))
            (subst (λ t. has x (p ∷ t) ≡ false) (append-nil xs) (gone x xs [] l.ring)))
          (λ q i. l.elts q (ground (arith, has-append q xs (x ∷ [])))),
      init-Ring _ x,
    )

rotate_step :
    (h : Heap) (p x : Ptr)
    → h.payload p ≡ 0
    → h.payload x ≢ 0
    → empty h p ≡ false
    → h.next p ≡ x
    → rotate_left p h ≡ some (insert x ((leave x h).prev p) p (leave x h))
unfolding rotate_left
rotate_step h p x e k f n = rw n (ground arith)

rotate_empty : (h : Heap) (p : Ptr) → h.payload p ≡ 0 → empty h p ≡ true → rotate_left p h ≡ some h
unfolding rotate_left
rotate_empty h p e f = ground arith

-- rotate_left succeeds and moves the first element of the list, if there is one, behind the last.
pub rotate_left-IsList :
    {h : Heap} {p : Ptr} (xs : List Ptr)
    → IsList h p xs
    → (g : Heap) × (rotate_left p h ≡ some g) × IsList g p (rotated xs)
rotate_left-IsList {h} {p} [] l = (h, rotate_empty h p l.head (empty-nil l.ring), l)
rotate_left-IsList {h} {p} (x ∷ xs) l = (
  insert x ((leave x h).prev p) p (leave x h),
  rotate_step h p x l.head (l.elts x (ground arith)) (empty-cons l.ring) l.ring.chain.0,
  relist l (payload-moved x ((leave x h).prev p) p h)
      (insert_back-Ring p x xs (leave-Ring x [] xs l.ring) (gone x [] xs l.ring))
      (λ q i. l.elts q (ground (arith, has-append q xs (x ∷ [])))),
)
