-- ===== src/CircList/Transfers.antt =====
-- util/circList.h: append and append_back, between two lists, and replace, between two elements.
use mathlib.Core.Path.{subst}
use mathlib.Core.List.{append-nil, append_assoc}
use hex.Base.{
  ◌≡◌, ◌≢◌, inl, inr, refl, sym, ◌∙◌, ap, true, false, ◌||◌, some, List, [], ◌∷◌, ◌++◌, arith, ◌==◌,
}
use hex.CircList.{Ptr, Heap, init, empty, append, append_back, concat, cut, take_place, replace}
use hex.CircList.Ring.{has, has-append, Disjoint, Ring, Ring-rotate}
use hex.CircList.Basic.{concat-Ring, take_place-Ring, init-Ring, Ring-init}
use hex.CircList.Places.{snoc_cases, empty-nil, empty-cons, gone}
use hex.CircList.Lists.{IsList, relist}

payload-concat : (l a b : Ptr) (h : Heap) → (concat l a b h).payload ≡ h.payload
unfolding concat
payload-concat l a b h = refl

pub payload-cut : (p e l : Ptr) (h : Heap) → (cut p e l h).payload ≡ h.payload
unfolding cut
payload-cut p e l h = refl

pub payload-replaced : (n e : Ptr) (h : Heap) → (init e (take_place n e h)).payload ≡ h.payload
unfolding init take_place
payload-replaced n e h = refl

append_step :
    (h : Heap) (p l : Ptr)
    → h.payload p ≡ 0
    → h.payload l ≡ 0
    → empty h l ≡ false
    → append p l h ≡ some (concat l p (h.next p) h)
unfolding append
append_step h p l e k f = ground arith

append_back_step :
    (h : Heap) (p l : Ptr)
    → h.payload p ≡ 0
    → h.payload l ≡ 0
    → empty h l ≡ false
    → append_back p l h ≡ some (concat l (h.prev p) p h)
unfolding append_back
append_back_step h p l e k f = ground arith

append_none :
    (h : Heap) (p l : Ptr)
    → h.payload p ≡ 0
    → h.payload l ≡ 0
    → empty h l ≡ true
    → (append p l h ≡ some h) × (append_back p l h ≡ some h)
unfolding append append_back
append_none h p l e k f = (ground arith, ground arith)

concat_back-Ring :
    {h : Heap} (u l y : Ptr) (xs ys : List Ptr)
    → Ring h u xs
    → Ring h l (y ∷ ys)
    → Disjoint (u ∷ xs) (l ∷ y ∷ ys)
    → Ring (concat l (h.prev u) u h) u (xs ++ y ∷ ys)
concat_back-Ring {h} u l y xs ys r s d = elim (snoc_cases xs) [
  | inl n ↦ at_nil n
  | inr (ws, w, n) ↦ at_snoc ws w n
]
  where
    at_nil : xs ≡ [] → Ring (concat l (h.prev u) u h) u (xs ++ y ∷ ys)
    at_nil n =
        let r0 : Ring h u [] = subst (Ring h u) n r in
        let k = concat-Ring u l y [] ys r0 s (subst (λ t. Disjoint (u ∷ t) (l ∷ y ∷ ys)) n d) in
        subst (λ t. Ring (concat l (h.prev u) u h) u (t ++ y ∷ ys)) (sym n)
          (subst (λ a. Ring (concat l a u h) u (y ∷ ys)) (sym r0.chain.1)
            (subst (λ a. Ring (concat l u a h) u (y ∷ ys)) r0.chain.0
              (subst (Ring _ u) (append-nil (y ∷ ys)) k)))

    at_snoc :
        (ws : List Ptr) (w : Ptr)
        → xs ≡ ws ++ w ∷ []
        → Ring (concat l (h.prev u) u h) u (xs ++ y ∷ ys)
    at_snoc ws w n =
        let r1 : Ring h w (u ∷ ws) = Ring-rotate ws w [] (subst (Ring h u) n r) in
        let d1 : Disjoint (w ∷ u ∷ ws) (l ∷ y ∷ ys) = λ q i.
          d q (
            subst (λ t. has q (u ∷ t) ≡ true) (sym n) (ground (arith, has-append q ws (w ∷ [])))) in
        let k = Ring-rotate (y ∷ ys) u ws (concat-Ring w l y (u ∷ ws) ys r1 s d1) in
        subst (Ring (concat l (h.prev u) u h) u)
          (sym (append_assoc ws (w ∷ []) (y ∷ ys)) ∙ ap (λ t. t ++ y ∷ ys) (sym n))
          (subst (λ a. Ring (concat l a u h) u (ws ++ w ∷ y ∷ ys)) (sym r1.chain.1)
            (subst (λ a. Ring (concat l w a h) u (ws ++ w ∷ y ∷ ys)) r1.chain.0 k))

module _ {h : Heap} {p : Ptr} (l : Ptr) (xs : List Ptr) (a : IsList h p xs) where
  -- append succeeds: it puts the elements of another list, which shares neither head nor elements
  -- with this one, in front of those of this list, in their order.
  pub append-IsList :
      (ys : List Ptr)
      → IsList h l ys
      → Disjoint (p ∷ xs) (l ∷ ys)
      → (g : Heap) × (append p l h ≡ some g) × IsList g p (ys ++ xs)
  append-IsList [] b d = (h, (append_none h p l a.head b.head (empty-nil b.ring)).0, a)
  append-IsList (y ∷ ys) b d = (
    concat l p (h.next p) h,
    append_step h p l a.head b.head (empty-cons b.ring),
    relist a (payload-concat l p (h.next p) h) (concat-Ring p l y xs ys a.ring b.ring d)
        (λ q i. both q (ground (arith, has-append q ys xs))),
  )
    where
      both : (q : Ptr) → (has q xs || has q (y ∷ ys)) ≡ true → h.payload q ≢ 0
      both q i = ground (arith, a.elts q, b.elts q)

  -- append_back succeeds: it puts the elements of another list, which shares neither head nor
  -- elements with this one, behind those of this list, in their order.
  pub append_back-IsList :
      (ys : List Ptr)
      → IsList h l ys
      → Disjoint (p ∷ xs) (l ∷ ys)
      → (g : Heap) × (append_back p l h ≡ some g) × IsList g p (xs ++ ys)
  append_back-IsList [] b d = (
    h,
    (append_none h p l a.head b.head (empty-nil b.ring)).1,
    subst (IsList h p) (sym (append-nil xs)) a,
  )
  append_back-IsList (y ∷ ys) b d = (
    concat l (h.prev p) p h,
    append_back_step h p l a.head b.head (empty-cons b.ring),
    relist a (payload-concat l (h.prev p) p h) (concat_back-Ring p l y xs ys a.ring b.ring d)
        (λ q i. both q (ground (arith, has-append q xs (y ∷ ys)))),
  )
    where
      both : (q : Ptr) → (has q xs || has q (y ∷ ys)) ≡ true → h.payload q ≢ 0
      both q i = ground (arith, a.elts q, b.elts q)

replace_step :
    (h : Heap) (n e : Ptr)
    → h.payload n ≢ 0
    → h.payload e ≢ 0
    → replace n e h ≡ some (init e (take_place n e h))
unfolding replace
replace_step h n e k j = ground arith

-- For an element `n` that carries a payload and is not in the list, replace succeeds, puts `n`
-- where the element `e` stood and leaves `e` in a ring of its own.
pub replace-IsList :
    {h : Heap} {p : Ptr} (n e : Ptr) (xs ys : List Ptr)
    → IsList h p (xs ++ e ∷ ys)
    → h.payload n ≢ 0
    → has n (xs ++ e ∷ ys) ≡ false
    → (g : Heap) × (replace n e h ≡ some g) × IsList g p (xs ++ n ∷ ys) × Ring g e []
replace-IsList {h} {p} n e xs ys l live new =
    let e_in : has e (xs ++ e ∷ ys) ≡ true = ground (arith, has-append e xs (e ∷ ys)) in
    let n_p : n ≢ p = λ k. live (ap h.payload k ∙ l.head) in
    let r =
      take_place-Ring n e (ys ++ p ∷ xs) (Ring-rotate xs e ys l.ring)
        (ground (arith, has-append n ys (p ∷ xs), has-append n xs (e ∷ ys))) in
    (
      init e (take_place n e h),
      replace_step h n e live (l.elts e e_in),
      relist l (payload-replaced n e h)
          (Ring-init p e (xs ++ n ∷ ys) (Ring-rotate ys p xs r) (
            ground (
              arith,
              gone e xs ys l.ring,
              has-append e xs ys,
              has-append e xs (n ∷ ys),
              has-append n xs (e ∷ ys),
            )))
          (λ q i. old q (ground (arith, has-append q xs (n ∷ ys), has-append q xs (e ∷ ys)))),
      init-Ring _ e,
    )
  where
    old : (q : Ptr) → ((q == n) || has q (xs ++ e ∷ ys)) ≡ true → h.payload q ≢ 0
    old q i = ground (arith, l.elts q)
