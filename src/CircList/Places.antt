-- ===== src/CircList/Places.antt =====
-- The writes of the operations at any place of a ring, by reading the ring from that place.
use mathlib.Core.Path.{subst}
use mathlib.Core.List.{append_assoc}
use hex.Base.{◌≡◌, ◌⊎◌, inl, inr, refl, sym, ◌∙◌, ap, true, false, List, [], ◌∷◌, ◌++◌, arith}
use hex.CircList.{Ptr, Heap, insert, link, unlink, leave, empty}
use hex.CircList.Ring.{has, has-append, append-Distinct, Ring, Ring-rotate}
use hex.CircList.Basic.{insert-Ring, link-Ring, init-Ring, Ring-init}

pub snoc_cases {ℓ} :
    {A : Type ℓ} (xs : List A) → (xs ≡ []) ⊎ ((ys : List A) × (y : A) × (xs ≡ ys ++ y ∷ []))
snoc_cases [] = inl refl
snoc_cases (x ∷ xs) = elim (snoc_cases xs) [
  | inl e ↦ inr ([], x, ap (λ t. x ∷ t) e)
  | inr (ys, y, e) ↦ inr (x ∷ ys, y, ap (λ t. x ∷ t) e)
]

pub empty-nil : {h : Heap} {p : Ptr} → Ring h p [] → empty h p ≡ true
unfolding empty
empty-nil r = ground arith

pub empty-cons : {h : Heap} {p x : Ptr} {xs : List Ptr} → Ring h p (x ∷ xs) → empty h p ≡ false
unfolding empty
empty-cons r = ground (arith, r.distinct.0)

pub empty-append :
    {h : Heap} {e : Ptr} (p : Ptr) (xs ys : List Ptr) → Ring h e (ys ++ p ∷ xs) → empty h e ≡ false
empty-append p xs [] r = empty-cons r
empty-append p xs (y ∷ ys) r = empty-cons r

pub insert_back-Ring :
    {h : Heap} (v e : Ptr) (zs : List Ptr)
    → Ring h v zs
    → has e (v ∷ zs) ≡ false
    → Ring (insert e (h.prev v) v h) v (zs ++ e ∷ [])
insert_back-Ring {h} v e zs r new = elim (snoc_cases zs) [
  | inl n ↦ at_nil n
  | inr (ws, w, n) ↦ at_snoc ws w n
]
  where
    at_nil : zs ≡ [] → Ring (insert e (h.prev v) v h) v (zs ++ e ∷ [])
    at_nil n =
        let r0 : Ring h v [] = subst (Ring h v) n r in
        let k = insert-Ring v e [] r0 (subst (λ t. has e (v ∷ t) ≡ false) n new) in
        subst (λ t. Ring (insert e (h.prev v) v h) v (t ++ e ∷ [])) (sym n)
          (subst (λ a. Ring (insert e a v h) v (e ∷ [])) (sym r0.chain.1)
            (subst (λ a. Ring (insert e v a h) v (e ∷ [])) r0.chain.0 k))

    at_snoc :
        (ws : List Ptr) (w : Ptr)
        → zs ≡ ws ++ w ∷ []
        → Ring (insert e (h.prev v) v h) v (zs ++ e ∷ [])
    at_snoc ws w n =
        let r1 : Ring h w (v ∷ ws) = Ring-rotate ws w [] (subst (Ring h v) n r) in
        let out : has e (w ∷ v ∷ ws) ≡ false =
          ground (arith, subst (λ t. has e (v ∷ t) ≡ false) n new, has-append e ws (w ∷ [])) in
        let k = Ring-rotate (e ∷ []) v ws (insert-Ring w e (v ∷ ws) r1 out) in
        subst (λ t. Ring (insert e (h.prev v) v h) v t)
          (sym (append_assoc ws (w ∷ []) (e ∷ [])) ∙ ap (λ t. t ++ e ∷ []) (sym n))
          (subst (λ a. Ring (insert e a v h) v (ws ++ w ∷ e ∷ [])) (sym r1.chain.1)
            (subst (λ a. Ring (insert e w a h) v (ws ++ w ∷ e ∷ [])) r1.chain.0 k))

module _ {h : Heap} {p : Ptr} (e u : Ptr) (xs ys : List Ptr) (r : Ring h p (xs ++ u ∷ ys))
    (new : has e (p ∷ xs ++ u ∷ ys) ≡ false) where
  new_at : has e (u ∷ ys ++ p ∷ xs) ≡ false
  new_at = ground (arith, new, has-append e xs (u ∷ ys), has-append e ys (p ∷ xs))

  pub insert_after-Ring : Ring (insert e u (h.next u) h) p (xs ++ u ∷ e ∷ ys)
  insert_after-Ring =
      Ring-rotate (e ∷ ys) p xs (insert-Ring u e (ys ++ p ∷ xs) (Ring-rotate xs u ys r) new_at)

  pub insert_before-Ring : Ring (insert e (h.prev u) u h) p (xs ++ e ∷ u ∷ ys)
  insert_before-Ring =
      let k = insert_back-Ring u e (ys ++ p ∷ xs) (Ring-rotate xs u ys r) new_at in
      subst (Ring _ p) (append_assoc xs (e ∷ []) (u ∷ ys))
        (Ring-rotate ys p (xs ++ e ∷ []) (subst (Ring _ u) (append_assoc ys (p ∷ xs) (e ∷ [])) k))

module _ {h : Heap} {p : Ptr} (e : Ptr) (xs ys : List Ptr) (r : Ring h p (xs ++ e ∷ ys)) where
  pub unlinked-Ring : Ring (link (h.prev e) (h.next e) h) p (xs ++ ys)
  unlinked-Ring = elim (snoc_cases xs) [ inl n ↦ at_nil n | inr (ws, w, n) ↦ at_snoc ws w n ]
    where
      at_nil : xs ≡ [] → Ring (link (h.prev e) (h.next e) h) p (xs ++ ys)
      at_nil n =
          let r0 : Ring h p (e ∷ ys) = subst (λ t. Ring h p (t ++ e ∷ ys)) n r in
          subst (λ t. Ring (link (h.prev e) (h.next e) h) p (t ++ ys)) (sym n)
            (subst (λ a. Ring (link a (h.next e) h) p ys) (sym r0.chain.1) (link-Ring p e ys r0))

      at_snoc :
          (ws : List Ptr) (w : Ptr)
          → xs ≡ ws ++ w ∷ []
          → Ring (link (h.prev e) (h.next e) h) p (xs ++ ys)
      at_snoc ws w n =
          let r1 : Ring h p (ws ++ w ∷ e ∷ ys) =
            subst (Ring h p) (ap (λ t. t ++ e ∷ ys) n ∙ append_assoc ws (w ∷ []) (e ∷ ys)) r in
          let r2 : Ring h w (e ∷ ys ++ p ∷ ws) = Ring-rotate ws w (e ∷ ys) r1 in
          let k = Ring-rotate ys p ws (link-Ring w e (ys ++ p ∷ ws) r2) in
          subst (Ring (link (h.prev e) (h.next e) h) p)
            (sym (append_assoc ws (w ∷ []) ys) ∙ ap (λ t. t ++ ys) (sym n))
            (subst (λ a. Ring (link a (h.next e) h) p (ws ++ w ∷ ys)) (sym r2.chain.1) k)

  pub not_empty_at : empty h e ≡ false
  not_empty_at = empty-append p xs ys (Ring-rotate xs e ys r)

  pub leave-Ring : Ring (leave e h) p (xs ++ ys)
  unfolding leave
  leave-Ring = rw not_empty_at unlinked-Ring

  pub gone : has e (p ∷ xs ++ ys) ≡ false
  gone =
      let (a, b, c) = append-Distinct xs (e ∷ ys) r.distinct.1 in
      ground (arith, r.distinct.0, has-append p xs (e ∷ ys), has-append e xs ys, b.0, c e)

  pub unlink-Ring : Ring (unlink e h) p (xs ++ ys)
  unfolding unlink
  unlink-Ring = rw not_empty_at (Ring-init p e (xs ++ ys) unlinked-Ring gone)

  pub unlink-alone : Ring (unlink e h) e []
  unfolding unlink
  unlink-alone = rw not_empty_at (init-Ring _ e)
