-- ===== src/CircList/Basic.antt =====
-- The writes of the operations, at the element from which the ring is read.
use hex.Base.{◌≡◌, ◌≢◌, refl, sym, ◌∙◌, ap, true, false, List, [], ◌∷◌, ◌++◌, arith, ==-self, ==-ne}
use mathlib.Core.Path.{subst}
use mathlib.Core.List.{append-nil}
use hex.CircList.{Ptr, Heap, set_next, set_prev, insert, link, init, concat, take_place}
use hex.CircList.Ring.{
  has, has-append, Distinct, Disjoint, Chain, Ring, Chain-frame, Chain-append, last_of, Chain-prev,
  Chain-close, has-last_of, Distinct-append, Disjoint-comm,
}

-- Linking `e` behind `u` puts it in front of the rest of the ring.
pub insert-Ring :
    {h : Heap} (u e : Ptr) (zs : List Ptr)
    → Ring h u zs
    → has e (u ∷ zs) ≡ false
    → Ring (insert e u (h.next u) h) u (e ∷ zs)
unfolding insert
insert-Ring u e [] r new = rw r.chain.0 (record { chain = ground arith; distinct = ground arith })
insert-Ring {h} u e (y ∷ ys) r new =
    subst (λ v. Ring (insert e u v h) u (e ∷ y ∷ ys)) (sym r.chain.0)
      (record {
        chain = (
          ground arith,
          ground arith,
          (
            ground arith,
            ground arith,
            Chain-frame h (insert e u y h) y u ys
                (λ q i. ground (arith, r.distinct.0, r.distinct.1.0))
                (λ q i. ground (arith, r.distinct.0, r.distinct.1.0)) r.chain.2,
          ),
        );
        distinct = ground (arith, r.distinct.0, r.distinct.1);
      })

-- Linking over the element behind `u` takes it out of the ring.
pub link-Ring :
    {h : Heap} (u e : Ptr) (zs : List Ptr) → Ring h u (e ∷ zs) → Ring (link u (h.next e) h) u zs
unfolding link
link-Ring u e [] r = rw r.chain.2.0 (record { chain = ground arith; distinct = (refl, tt) })
link-Ring {h} u e (y ∷ ys) r =
    subst (λ v. Ring (link u v h) u (y ∷ ys)) (sym r.chain.2.0)
      (record {
        chain = (
          ground arith,
          ground arith,
          Chain-frame h (link u y h) y u ys (λ q i. ground (arith, r.distinct.0, r.distinct.1.0))
              (λ q i. ground (arith, r.distinct.0, r.distinct.1.0, r.distinct.1.1.0)) r.chain.2.2,
        );
        distinct = ground (arith, r.distinct.0, r.distinct.1);
      })

-- An element initialised by itself is a ring of its own.
pub init-Ring : (h : Heap) (e : Ptr) → Ring (init e h) e []
unfolding init
init-Ring h e = record { chain = ground arith; distinct = (refl, tt) }

-- Initialising an element does not touch the rings that it is not in.
pub Ring-init :
    {h : Heap} (u e : Ptr) (zs : List Ptr)
    → Ring h u zs
    → has e (u ∷ zs) ≡ false
    → Ring (init e h) u zs
unfolding init
Ring-init {h} u e zs r out = record {
  chain = Chain-frame h (init e h) u u zs (λ q i. ground arith) (λ q i. ground arith) r.chain;
  distinct = r.distinct;
}

-- Where the ring of `e` is not empty, `n` takes the place of `e` by these four writes.
place : (n y z : Ptr) → Heap → Heap
place n y z h = set_next z n (set_prev n z (set_prev y n (set_next n y h)))

take_place-place :
    (h : Heap) (n e y : Ptr) → h.next e ≡ y → e ≢ y → take_place n e h ≡ place n y (h.prev e) h
unfolding take_place place
take_place-place h n e y p d = rw (p, ==-self n, ==-ne e y d) refl

place-Ring :
    {h : Heap} (n e y : Ptr) (ys : List Ptr)
    → Ring h e (y ∷ ys)
    → has n (e ∷ y ∷ ys) ≡ false
    → Ring (place n y (last_of y ys) h) n (y ∷ ys)
unfolding place
place-Ring {h} n e y ys r out = record {
  chain = (
    ground (arith, z_in),
    ground arith,
    Chain-close h (place n y (last_of y ys) h) y e n ys r.chain.2 r.distinct.1
        (λ q i m. ground arith) (λ q i. ground (arith, r.distinct.1.0)) (ground arith)
        (ground (arith, r.distinct.1.0)),
  );
  distinct = (ground arith, r.distinct.1);
}
  where
    z_in : has (last_of y ys) (y ∷ ys) ≡ true
    z_in = has-last_of y ys

-- `n` takes the place of `e`: the ring read from `n` is that read before from `e`.
pub take_place-Ring :
    {h : Heap} (n e : Ptr) (zs : List Ptr)
    → Ring h e zs
    → has n (e ∷ zs) ≡ false
    → Ring (take_place n e h) n zs
unfolding take_place
take_place-Ring n e [] r out = record { chain = ground arith; distinct = (refl, tt) }
take_place-Ring {h} n e (y ∷ ys) r out =
    let back : h.prev e ≡ last_of y ys = Chain-prev h y e ys r.chain.2 in
    subst (λ g. Ring g n (y ∷ ys))
      (sym (
        take_place-place h n e y r.chain.0 (ground (arith, r.distinct.0))
        ∙ ap (λ z. place n y z h) back))
      (place-Ring n e y ys r out)

-- the writes of __concat, between `u` and `v`, for a list from `y` to `z`
splice : (u y z v : Ptr) → Heap → Heap
splice u y z v h = set_prev v z (set_next z v (set_next u y (set_prev y u h)))

concat-splice :
    (h : Heap) (u l v y : Ptr) (ys : List Ptr)
    → Chain h l (y ∷ ys) l
    → concat l u v h ≡ splice u y (last_of y ys) v h
unfolding concat splice
concat-splice h u l v y ys c = rw (c.0, Chain-prev h l l (y ∷ ys) c) refl

-- the spliced list runs from `u` to `v`
splice-Chain :
    {h : Heap} (u l v y : Ptr) (ys : List Ptr)
    → Ring h l (y ∷ ys)
    → has u (l ∷ y ∷ ys) ≡ false
    → has v (l ∷ y ∷ ys) ≡ false
    → Chain (splice u y (last_of y ys) v h) u (y ∷ ys) v
unfolding splice
splice-Chain {h} u l v y ys s p q = (
  ground (arith, has-last_of y ys),
  ground arith,
  Chain-close h (splice u y (last_of y ys) v h) y l v ys s.chain.2 s.distinct.1
      (λ a i m. ground arith) (λ a i. ground (arith, s.distinct.1.0)) (ground arith) (ground arith),
)

splice_frame :
    {h : Heap} (u l y x : Ptr) (xs ys : List Ptr)
    → Ring h u (x ∷ xs)
    → Disjoint (u ∷ x ∷ xs) (l ∷ y ∷ ys)
    → Chain (splice u y (last_of y ys) x h) x xs u
unfolding splice
splice_frame {h} u l y x xs ys r d =
    Chain-frame h (splice u y (last_of y ys) x h) x u xs
      (λ q i. ground (arith, r.distinct.0, has-last_of y ys, d q))
      (λ q i. ground (arith, r.distinct.0, r.distinct.1.0, d q)) r.chain.2

tail_out : (a l : Ptr) (ys : List Ptr) → has a (l ∷ ys) ≡ false → has a ys ≡ false
tail_out a l ys p = ground arith

Distinct-middle :
    (u : Ptr) (ys xs : List Ptr)
    → Distinct (u ∷ xs)
    → Distinct ys
    → Disjoint (u ∷ xs) ys
    → Distinct (u ∷ ys ++ xs)
Distinct-middle u ys xs p q d = (
  ground (arith, has-append u ys xs, d u),
  Distinct-append ys xs q p.1 (Disjoint-comm xs ys (λ a i. d a (ground arith))),
)

-- The ring of `l` but `l` itself is put behind `u`.
pub concat-Ring :
    {h : Heap} (u l y : Ptr) (xs ys : List Ptr)
    → Ring h u xs
    → Ring h l (y ∷ ys)
    → Disjoint (u ∷ xs) (l ∷ y ∷ ys)
    → Ring (concat l u (h.next u) h) u (y ∷ ys ++ xs)
concat-Ring {h} u l y [] ys r s d =
    subst (λ g. Ring g u (y ∷ ys ++ []))
      (sym (ap (λ v. concat l u v h) r.chain.0 ∙ concat-splice h u l u y ys s.chain))
      (rw append-nil (record {
        chain = splice-Chain u l u y ys s (d u (ground arith)) (d u (ground arith));
        distinct = (ground (arith, d u), s.distinct.1);
      }))
concat-Ring {h} u l y (x ∷ xs) ys r s d =
    subst (λ g. Ring g u (y ∷ ys ++ x ∷ xs))
      (sym (ap (λ v. concat l u v h) r.chain.0 ∙ concat-splice h u l x y ys s.chain))
      (record {
        chain =
            Chain-append (splice u y (last_of y ys) x h) u x u (y ∷ ys) xs
              (splice-Chain u l x y ys s (d u (ground arith)) (d x (ground arith)))
              (splice_frame u l y x xs ys r d);
        distinct =
            Distinct-middle u (y ∷ ys) (x ∷ xs) r.distinct s.distinct.1
              (λ a i. tail_out a l (y ∷ ys) (d a i));
      })
