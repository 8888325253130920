-- ===== src/CircList/Cut.antt =====
-- The writes of truncate: one ring is cut into two.
use mathlib.Core.Path.{subst}
use mathlib.Core.List.{append-nil}
use hex.Base.{◌≡◌, ◌≢◌, refl, sym, false, List, [], ◌∷◌, ◌++◌, arith, ==-self}
use hex.CircList.{Ptr, Heap, set_next, set_prev, cut}
use hex.CircList.Ring.{
  has, has-append, Distinct, Disjoint, append-Distinct, Disjoint-comm, Chain, Ring, Chain-frame,
  Chain-split, last_of, Chain-next, Chain-close, has-last_of,
}

-- the writes of the last branch of truncate, for a list from `f` to `entry` and the next element `v`
sever : (p f entry v l : Ptr) → Heap → Heap
sever p f entry v l h =
    set_prev v p
      (set_next p v (set_next entry l (set_prev l entry (set_prev f l (set_next l f h)))))

cut-sever :
    (h : Heap) (p f entry v l : Ptr)
    → h.next p ≡ f
    → h.next entry ≡ v
    → cut p entry l h ≡ sever p f entry v l h
unfolding cut sever
cut-sever h p f entry v l e k = rw (e, k, ==-self l) refl

sever-front :
    (h : Heap) (p l f v : Ptr) (fs : List Ptr)
    → Chain h f fs v
    → Distinct (f ∷ fs)
    → has p (f ∷ fs) ≡ false
    → has l (p ∷ f ∷ fs) ≡ false
    → has v (f ∷ fs) ≡ false
    → v ≢ l
    → Ring (sever p f (last_of f fs) v l h) l (f ∷ fs)
unfolding sever
sever-front h p l f v fs c d p_out l_out v_out ne = record {
  chain = (
    ground (arith, has-last_of f fs),
    ground arith,
    Chain-close h (sever p f (last_of f fs) v l h) f v l fs c d (λ q i m. ground arith)
        (λ q i. ground (arith, d.0)) (ground (arith, has-last_of f fs)) (ground arith),
  );
  distinct = (ground arith, d);
}

sever-empty : (h : Heap) (p f entry l : Ptr) → Ring (sever p f entry p l h) p []
unfolding sever
sever-empty h p f entry l = record { chain = ground arith; distinct = (refl, tt) }

sever-back :
    (h : Heap) (p l f y : Ptr) (fs ys : List Ptr)
    → Chain h y ys p
    → Distinct (y ∷ ys)
    → has p (f ∷ fs) ≡ false
    → has p (y ∷ ys) ≡ false
    → has l (p ∷ f ∷ fs) ≡ false
    → has l (y ∷ ys) ≡ false
    → Disjoint (y ∷ ys) (f ∷ fs)
    → Ring (sever p f (last_of f fs) y l h) p (y ∷ ys)
unfolding sever
sever-back h p l f y fs ys c d p_fs p_ys l_out l_ys apart = record {
  chain = (
    ground arith,
    ground arith,
    Chain-frame h (sever p f (last_of f fs) y l h) y p ys
        (λ q i. ground (arith, has-last_of f fs, apart q)) (λ q i. ground (arith, d.0, apart q)) c,
  );
  distinct = (p_ys, d);
}

-- The ring of `p` is cut behind `entry`: the front becomes that of `l`.
pub cut-Ring :
    {h : Heap} (p l f : Ptr) (fs ys : List Ptr)
    → Ring h p (f ∷ fs ++ ys)
    → has l (p ∷ f ∷ fs ++ ys) ≡ false
    → let g = cut p (last_of f fs) l h in Ring g l (f ∷ fs) × Ring g p ys
cut-Ring {h} p l f fs [] r out =
    let c : Chain h f fs p = subst (λ zs. Chain h f zs p) (append-nil fs) r.chain.2 in
    let d : Distinct (p ∷ f ∷ fs) =
      subst (λ zs. Distinct (p ∷ f ∷ zs)) (append-nil fs) r.distinct in
    let o : has l (p ∷ f ∷ fs) ≡ false =
      subst (λ zs. has l (p ∷ f ∷ zs) ≡ false) (append-nil fs) out in
    let e = sym (cut-sever h p f (last_of f fs) p l r.chain.0 (Chain-next h f p fs c)) in
    (
      subst (λ g. Ring g l (f ∷ fs)) e (sever-front h p l f p fs c d.1 d.0 o d.0 (ground arith)),
      subst (λ g. Ring g p []) e (sever-empty h p f (last_of f fs) l),
    )
cut-Ring {h} p l f fs (y ∷ ys) r out =
    let (c, k) = Chain-split h f y p fs ys r.chain.2 in
    let (d, d', apart) = append-Distinct (f ∷ fs) (y ∷ ys) r.distinct.1 in
    let p_out : has p (f ∷ fs) ≡ false = ground (arith, r.distinct.0, has-append p fs (y ∷ ys)) in
    let l_out : has l (p ∷ f ∷ fs) ≡ false = ground (arith, out, has-append l fs (y ∷ ys)) in
    let l_ys : has l (y ∷ ys) ≡ false = ground (arith, out, has-append l fs (y ∷ ys)) in
    let p_ys : has p (y ∷ ys) ≡ false = ground (arith, r.distinct.0, has-append p fs (y ∷ ys)) in
    let back = Disjoint-comm (f ∷ fs) (y ∷ ys) apart in
    let e = sym (cut-sever h p f (last_of f fs) y l r.chain.0 (Chain-next h f y fs c)) in
    (
      subst (λ g. Ring g l (f ∷ fs)) e
          (sever-front h p l f y fs c d p_out l_out (back y (ground arith)) (ground arith)),
      subst (λ g. Ring g p (y ∷ ys)) e (sever-back h p l f y fs ys k d' p_out p_ys l_out l_ys back),
    )
