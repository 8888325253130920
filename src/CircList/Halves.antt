-- ===== src/CircList/Halves.antt =====
-- truncate, which cuts a list in two, replace_by on heads, and the moves inside one list.
use mathlib.Core.Path.{subst}
use mathlib.Core.List.{append_assoc}
use hex.Base.{
  ◌≡◌, ◌≢◌, refl, sym, ◌∙◌, ap, true, false, not, ◌&&◌, ◌||◌, some, List, [], ◌∷◌, ◌++◌, arith,
  ◌==◌, if◌then◌else◌,
}
use hex.CircList.{
  Ptr, Heap, init, insert, leave, empty, truncate, cut, take_place, replace_by, move_elt,
  move_elt_tail,
}
use hex.CircList.Ring.{has, has-append, Ring, last_of, last_of-append, has-last_of, Chain-prev}
use hex.CircList.Basic.{take_place-Ring, init-Ring, Ring-init}
use hex.CircList.Cut.{cut-Ring}
use hex.CircList.Places.{empty-cons, gone, leave-Ring, insert_after-Ring, insert_before-Ring}
use hex.CircList.Lists.{IsList, relist}
use hex.CircList.Transfers.{payload-cut, payload-replaced}
use hex.CircList.Queues.{payload-moved}

-- the test for a list of one other element fails: `entry` is on the list
not_other :
    {h : Heap} (p f : Ptr) (fs ys : List Ptr)
    → Ring h p (f ∷ fs ++ ys)
    → ((h.next p == h.prev p) && not (h.next p == last_of f fs)) ≡ false
not_other p f [] ys r = let e = r.chain.0 in ground arith
not_other {h} p f (x ∷ fs) ys r =
    let e = r.chain.0 in
    let k = Chain-prev h p p (f ∷ x ∷ fs ++ ys) r.chain in
    ground (arith, has-last_of x (fs ++ ys), r.distinct.1.0)

truncate_step :
    (h : Heap) (p e l : Ptr)
    → h.payload p ≡ 0
    → h.payload l ≡ 0
    → h.payload e ≢ 0
    → empty h p ≡ false
    → ((h.next p == h.prev p) && not (h.next p == e)) ≡ false
    → truncate p e l h ≡ some (cut p e l h)
unfolding truncate
truncate_step h p e l a b c d k = ground arith

truncate-cons :
    {h : Heap} {p : Ptr} (f l : Ptr) (fs ys : List Ptr)
    → IsList h p (f ∷ fs ++ ys)
    → h.payload l ≡ 0
    → l ≢ p
    → (g : Heap) × (truncate p (last_of f fs) l h ≡ some g) × IsList g l (f ∷ fs) × IsList g p ys
truncate-cons {h} {p} f l fs ys a null ne =
    let e = last_of f fs in
    let l_out : has l (p ∷ f ∷ fs ++ ys) ≡ false = off l null in
    let (front, back) = cut-Ring p l f fs ys a.ring l_out in
    (
      cut p e l h,
      truncate_step h p e l a.head null
          (a.elts e (ground (arith, has-last_of f fs, has-append e fs ys))) (empty-cons a.ring)
          (not_other p f fs ys a.ring),
      record {
        ring = front;
        head = ap (λ k. k l) (payload-cut p e l h) ∙ null;
        elts = λ q i z.
            a.elts q (ground (arith, has-append q fs ys))
              (sym (ap (λ k. k q) (payload-cut p e l h)) ∙ z);
      },
      relist a (payload-cut p e l h) back (λ q i. a.elts q (ground (arith, has-append q fs ys))),
    )
  where
    off : (q : Ptr) → h.payload q ≡ 0 → has l (p ∷ f ∷ fs ++ ys) ≡ false
    off q z = ground (arith, a.elts l)

-- truncate on an element `entry` of the list and another head `l` succeeds: it moves the elements
-- up to and including `entry` to `l`, whatever `l` held, and keeps those behind `entry`.
pub truncate-IsList :
    {h : Heap} {p : Ptr} (entry l : Ptr) (xs ys : List Ptr)
    → IsList h p (xs ++ entry ∷ ys)
    → h.payload l ≡ 0
    → l ≢ p
    → (g : Heap) × (truncate p entry l h ≡ some g) × IsList g l (xs ++ entry ∷ []) × IsList g p ys
truncate-IsList entry l [] ys a null ne = truncate-cons entry l [] ys a null ne
truncate-IsList {h} {p} entry l (x ∷ xs) ys a null ne =
    subst
      (λ e.
        (g : Heap) × (truncate p e l h ≡ some g)
        × IsList g l (x ∷ xs ++ entry ∷ [])
        × IsList g p ys)
      (last_of-append x entry xs [])
      (truncate-cons x l (xs ++ entry ∷ []) ys
        (subst (λ t. IsList h p (x ∷ t)) (sym (append_assoc xs (entry ∷ []) ys)) a) null ne)

replace_by_step :
    (h : Heap) (p q : Ptr)
    → h.payload p ≡ 0
    → h.payload q ≡ 0
    → replace_by p q h ≡ some (if empty h p then h else init p (take_place q p h))
unfolding replace_by
replace_by_step h p q a b = ground arith

-- replace_by succeeds on the head `p` of a list that is not empty and another head `q`: `q`
-- becomes the head of that list, and `p` the head of an empty one.
pub replace_by-IsList :
    {h : Heap} {p : Ptr} (q x : Ptr) (xs : List Ptr)
    → IsList h p (x ∷ xs)
    → h.payload q ≡ 0
    → q ≢ p
    → (g : Heap) × (replace_by p q h ≡ some g) × IsList g q (x ∷ xs) × IsList g p []
replace_by-IsList {h} {p} q x xs a null ne =
    let out : has q (p ∷ x ∷ xs) ≡ false = ground (arith, a.elts q) in
    let pay = payload-replaced q p h in
    let r = take_place-Ring q p (x ∷ xs) a.ring out in
    (
      init p (take_place q p h),
      replace_by_step h p q a.head null ∙ ap some (rw (empty-cons a.ring) refl),
      record {
        ring = Ring-init q p (x ∷ xs) r (let d = a.ring.distinct.0 in ground arith);
        head = ap (λ k. k q) pay ∙ null;
        elts = λ z i w. a.elts z i (sym (ap (λ k. k z) pay) ∙ w);
      },
      record { ring = init-Ring _ p; head = ap (λ k. k p) pay ∙ a.head; elts = λ z i. cc },
    )

move_step :
    (h : Heap) (e u : Ptr)
    → h.payload e ≢ 0
    → (move_elt e u h ≡ some (insert e u ((leave e h).next u) (leave e h)))
      × (move_elt_tail e u h ≡ some (insert e ((leave e h).prev u) u (leave e h)))
unfolding move_elt move_elt_tail
move_step h e u k = (ground arith, ground arith)

-- move_elt and move_elt_tail, on an element `e` of a list and another element `u` of it, succeed:
-- they take `e` out of its place and put it right behind `u`, and right in front of `u`.
pub move-IsList :
    {h : Heap} {p : Ptr} (e u : Ptr) (xs ys front back : List Ptr)
    → IsList h p (xs ++ e ∷ ys)
    → xs ++ ys ≡ front ++ u ∷ back
    → ((g : Heap) × (move_elt e u h ≡ some g) × IsList g p (front ++ u ∷ e ∷ back))
      × ((g : Heap) × (move_elt_tail e u h ≡ some g) × IsList g p (front ++ e ∷ u ∷ back))
move-IsList {h} {p} e u xs ys front back l s =
    let r = subst (Ring (leave e h) p) s (leave-Ring e xs ys l.ring) in
    let new = subst (λ t. has e (p ∷ t) ≡ false) s (gone e xs ys l.ring) in
    let (k, j) = move_step h e u (l.elts e (ground (arith, has-append e xs (e ∷ ys)))) in
    (
      (
        insert e u ((leave e h).next u) (leave e h),
        k,
        relist l (payload-moved e u ((leave e h).next u) h) (insert_after-Ring e u front back r new)
            (λ q i.
              old q
                (ground (arith, has-append q front (u ∷ e ∷ back), has-append q front (u ∷ back)))),
      ),
      (
        insert e ((leave e h).prev u) u (leave e h),
        j,
        relist l (payload-moved e ((leave e h).prev u) u h)
            (insert_before-Ring e u front back r new)
            (λ q i.
              old q
                (ground (arith, has-append q front (e ∷ u ∷ back), has-append q front (u ∷ back)))),
      ),
    )
  where
    old : (q : Ptr) → ((q == e) || has q (front ++ u ∷ back)) ≡ true → h.payload q ≢ 0
    old q i = ground (arith, l.elts q, ap (has q) s, has-append q xs ys, has-append q xs (e ∷ ys))
