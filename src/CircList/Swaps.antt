-- ===== src/CircList/Swaps.antt =====
-- util/circList.h: what swap does to two neighbours of a list, and to one element.
use hex.Base.{
  ◌≡◌, ◌≢◌, false, refl, sym, ◌∙◌, true, false, some, List, [], ◌∷◌, ◌++◌, arith, ==-ne, ==-self,
}
use mathlib.Core.Path.{subst}
use mathlib.Core.List.{append_assoc}
use hex.CircList.{Ptr, Heap, extract, insert_after, insert_before, insert, unlink}
use hex.CircList.Iterators.{Iterator, safe, relink, swap, swap_links}
use hex.CircList.Ring.{has, has-append, Chain, Chain-split}
use hex.CircList.Places.{gone}
use hex.CircList.Lists.{
  payload-unlink, IsList, extract-IsList, insert_after-IsList, insert_before-IsList,
}

-- an iterator on an element, whatever neighbours it saved
abbrev pub on : Ptr → (before behind : Ptr) → Iterator
on e before behind = record { p_elt = e; p_prev = before; p_next = behind }

extract-payload :
    (e : Ptr) (h g : Heap) (x : Ptr) → extract e h ≡ some (g, x) → g.payload e ≡ h.payload e
unfolding extract
extract-payload e h g x k = let z = payload-unlink e h in ground arith

links_forward :
    (h g f : Heap) (a b x : Ptr)
    → h.next a ≡ b
    → h.prev b ≡ a
    → extract a h ≡ some (g, x)
    → insert_after a b g ≡ some f
    → swap_links (relink h a) (relink h b) h ≡ some f
unfolding swap_links relink
links_forward h g f a b x n v e i = rw (e, n, v, ==-self a, ==-self b) i

links_backward :
    (h g f : Heap) (a b x : Ptr)
    → h.next a ≢ b
    → h.prev a ≡ b
    → h.next b ≡ a
    → extract a h ≡ some (g, x)
    → insert_before a b g ≡ some f
    → swap_links (relink h a) (relink h b) h ≡ some f
unfolding swap_links relink
links_backward h g f a b x o v n e i = rw (e, ==-ne (h.next a) b o, v, n, ==-self a, ==-self b) i

module _ {h : Heap} {p : Ptr} (a b : Ptr) (xs ys : List Ptr)
    (l : IsList h p (xs ++ a ∷ b ∷ ys)) where
  linked : (h.next a ≡ b) × (h.prev b ≡ a)
  linked = let (_, d) = Chain-split h p a p xs (b ∷ ys) l.ring.chain in (d.0, d.1)

swap_of_links :
    (h f : Heap) (a b i j i' j' : Ptr)
    → swap_links (relink h a) (relink h b) h ≡ some f
    → swap (on a i j) (on b i' j') h ≡ some (f, relink f b, relink f a)
unfolding swap safe relink
swap_of_links h f a b i j i' j' e = rw (e, swap, safe, relink) refl

next_in : (h : Heap) (b p : Ptr) (ys : List Ptr) → Chain h b ys p → has (h.next b) (p ∷ ys) ≡ true
next_in h b p [] c = ground (arith, c.0)
next_in h b p (y ∷ ys) c = ground (arith, c.0)

-- swap of two iterators on neighbours of a list, in either order and whatever neighbours they
-- saved, succeeds, exchanges the two elements in the list, and leaves each iterator on the element
-- of the other with its present neighbours.
pub swap_neighbours-IsList :
    {h : Heap} {p : Ptr} (a b a_prev a_next b_prev b_next : Ptr) (xs ys : List Ptr)
    → IsList h p (xs ++ a ∷ b ∷ ys)
    → ((g : Heap) × (swap (on a a_prev a_next) (on b b_prev b_next) h
          ≡ some (g, relink g b, relink g a))
        × IsList g p (xs ++ b ∷ a ∷ ys))
      × ((g : Heap) × (swap (on b b_prev b_next) (on a a_prev a_next) h
            ≡ some (g, relink g a, relink g b))
          × IsList g p (xs ++ b ∷ a ∷ ys))
swap_neighbours-IsList {h} {p} a b a_prev a_next b_prev b_next xs ys l = (forward, backward)
  where
    ends : (h.next a ≡ b) × (h.prev b ≡ a)
    ends = linked a b xs ys l

    a_live : h.payload a ≢ 0
    a_live = l.elts a (ground (arith, has-append a xs (a ∷ b ∷ ys)))

    b_live : h.payload b ≢ 0
    b_live = l.elts b (ground (arith, has-append b xs (a ∷ b ∷ ys)))

    a_out : has a (p ∷ xs ++ b ∷ ys) ≡ false
    a_out = gone a xs (b ∷ ys) l.ring

    split : IsList h p ((xs ++ a ∷ []) ++ b ∷ ys)
    split = subst (IsList h p) (sym (append_assoc xs (a ∷ []) (b ∷ ys))) l

    b_out : has b (p ∷ xs ++ a ∷ ys) ≡ false
    b_out =
        subst (λ t. has b (p ∷ t) ≡ false) (append_assoc xs (a ∷ []) ys)
          (gone b (xs ++ a ∷ []) ys split.ring)

    apart : h.next b ≢ a
    apart n =
        let d = Chain-split h p b p (xs ++ a ∷ []) ys split.ring.chain in
        let met : has a (p ∷ ys) ≡ true =
          subst (λ q. has q (p ∷ ys) ≡ true) n (next_in h b p ys d.1) in
        let out = a_out in ground (arith, has-append a xs (b ∷ ys))

    forward :
        (g : Heap) × (swap (on a a_prev a_next) (on b b_prev b_next) h
          ≡ some (g, relink g b, relink g a))
        × IsList g p (xs ++ b ∷ a ∷ ys)
    forward =
        let (g, e, k, _) = extract-IsList a xs (b ∷ ys) l in
        let (f, i, m) =
          insert_after-IsList a (λ z. a_live (sym (extract-payload a h g (h.payload a) e) ∙ z)) b xs
            ys k (let out = a_out in ground arith) in
        (
          f,
          swap_of_links h f a b a_prev a_next b_prev b_next
              (links_forward h g f a b (h.payload a) ends.0 ends.1 e i),
          m,
        )

    backward :
        (g : Heap) × (swap (on b b_prev b_next) (on a a_prev a_next) h
          ≡ some (g, relink g a, relink g b))
        × IsList g p (xs ++ b ∷ a ∷ ys)
    backward =
        let (g, e, k, _) = extract-IsList b (xs ++ a ∷ []) ys split in
        let (f, i, m) =
          insert_before-IsList b (λ z. b_live (sym (extract-payload b h g (h.payload b) e) ∙ z)) a
            xs ys (subst (IsList g p) (append_assoc xs (a ∷ []) ys) k)
            (let out = b_out in ground arith) in
        (
          f,
          swap_of_links h f b a b_prev b_next a_prev a_next
              (links_backward h g f b a (h.payload b) apart ends.1 ends.0 e i),
          m,
        )

links_self :
    (h g k f f' : Heap) (e x y : Ptr)
    → h.next e ≢ e
    → h.prev e ≢ e
    → extract e h ≡ some (g, x)
    → extract e g ≡ some (k, y)
    → insert_after e (h.prev e) k ≡ some f
    → insert_after e (h.prev e) f ≡ some f'
    → swap_links (relink h e) (relink h e) h ≡ some f'
unfolding swap_links relink
links_self h g k f f' e x y n v d d' i i' =
    rw (d, ==-ne (h.next e) e n, ==-ne (h.prev e) e v, d', i) i'

prev_in : (h : Heap) (b e : Ptr) (xs : List Ptr) → Chain h b xs e → has (h.prev e) (b ∷ xs) ≡ true
prev_in h b e [] c = ground (arith, c.1)
prev_in h b e (x ∷ xs) c = ground (arith, prev_in h x e xs c.2)

extract_live :
    (e : Ptr) (h : Heap) → h.payload e ≢ 0 → (g : Heap) × (extract e h ≡ some (g, h.payload e))
unfolding extract
extract_live e h live = (unlink e h, ground arith)

insert_live :
    (e u : Ptr) (h : Heap)
    → h.payload e ≢ 0
    → (g : Heap) × (insert_after e u h ≡ some g)
      × (g.next u ≡ e)
      × (g.payload e ≢ 0)
      × (h.next u ≡ e → g.next e ≡ e)
unfolding insert_after
insert_live e u h live = (insert e u (h.next u) h, ground arith, ground arith, live, ground arith)

-- swap of two iterators on the same element of a list succeeds and corrupts the list: the element
-- did not point to itself before, and does afterwards.
pub swap_self :
    {h : Heap} {p : Ptr} (e i j i' j' : Ptr) (xs ys : List Ptr)
    → IsList h p (xs ++ e ∷ ys)
    → (h.next e ≢ e)
      × ((g : Heap) × (swap (on e i j) (on e i' j') h ≡ some (g, relink g e, relink g e))
          × (g.next e ≡ e))
swap_self {h} {p} e i j i' j' xs ys l =
    let live = l.elts e (ground (arith, has-append e xs (e ∷ ys))) in
    let out = gone e xs ys l.ring in
    let (c, d) = Chain-split h p e p xs ys l.ring.chain in
    let n : h.next e ≢ e = (λ z.
      let met : has e (p ∷ ys) ≡ true = subst (λ q. has q (p ∷ ys) ≡ true) z (next_in h e p ys d) in
      ground (arith, has-append e xs ys)) in
    let v : h.prev e ≢ e = (λ z.
      let met : has e (p ∷ xs) ≡ true = subst (λ q. has q (p ∷ xs) ≡ true) z (prev_in h p e xs c) in
      ground (arith, has-append e xs ys)) in
    let (g, a) = extract_live e h live in
    let g_live : g.payload e ≢ 0 = (λ z. live (sym (extract-payload e h g (h.payload e) a) ∙ z)) in
    let (k, b) = extract_live e g g_live in
    let k_live : k.payload e ≢ 0 =
      (λ z. g_live (sym (extract-payload e g k (g.payload e) b) ∙ z)) in
    let (f, m, at, f_live, _) = insert_live e (h.prev e) k k_live in
    let (f', m', _, _, loop) = insert_live e (h.prev e) f f_live in
    (
      n,
      (
        f',
        swap_of_links h f' e e i j i' j'
            (links_self h g k f f' e (h.payload e) (g.payload e) n v a b m m'),
        loop at,
      ),
    )
