-- ===== src/CircList/Iterators.antt =====
-- util/circList.h: the iterators of the list (CircListIterator) with their loops, and swap.
use hex.Base.{ℕ, zero, suc, Option, none, some, List, [], ◌∷◌, ◌==◌, if◌then◌else◌}
use hex.CircList.{Ptr, Heap, is_head, extract, insert_after, insert_before}

-- CircListIterator: the current element and the neighbours saved beside it
pub record Iterator : Type 0 where
  pub p_elt : Ptr
  pub p_prev : Ptr
  pub p_next : Ptr

-- the constructor
unfoldable pub iterator : Heap → Ptr → Iterator
iterator h x = record {
  p_elt = x;
  p_prev = if x == 0 then x else h.prev x;
  p_next = if x == 0 then x else h.next x;
}

unfoldable pub relink : Heap → Ptr → Iterator
relink h x = record { p_elt = x; p_prev = h.prev x; p_next = h.next x }

unfoldable pub safe : Heap → Iterator → Iterator
safe h it = record it { p_prev = h.prev it.p_elt; p_next = h.next it.p_elt }

unfoldable pub begin : Heap → Ptr → Option Iterator
unfolding is_head iterator
begin h this = if is_head h this then some (iterator h (h.next this)) else none

unfoldable pub rbegin : Heap → Ptr → Option Iterator
unfolding is_head iterator
rbegin h this = if is_head h this then some (iterator h (h.prev this)) else none

-- end(), and rend() which calls it
unfoldable pub end : Heap → Ptr → Option Iterator
unfolding is_head iterator
end h this = if is_head h this then some (iterator h this) else none

unfoldable pub increment : Heap → Iterator → Iterator
increment h it = record { p_elt = it.p_next; p_prev = it.p_elt; p_next = h.next it.p_next }

unfoldable pub decrement : Heap → Iterator → Iterator
decrement h it = record { p_elt = it.p_prev; p_prev = h.prev it.p_prev; p_next = it.p_elt }

-- the payload that `*it` refers to; `none` is the failed assertion
unfoldable pub deref : Heap → Iterator → Option Ptr
deref h it = if h.payload it.p_elt == 0 then none else some (h.payload it.p_elt)

-- `for (it = first; it != last; ++it)`, the elements met in order, on fuel
unfoldable pub traverse : Heap → ℕ → (it last : Iterator) → Option (List Ptr)
unfolding increment
traverse h zero it last = none
traverse h (suc fuel) it last =
    let rest = traverse h fuel (increment h it) last in
    if it.p_elt == last.p_elt
    then some []
    else (elim rest [ none ↦ none | some ps ↦ some (it.p_elt ∷ ps) ])

-- the same loop with `--it`
unfoldable pub traverse_back : Heap → ℕ → (it last : Iterator) → Option (List Ptr)
unfolding decrement
traverse_back h zero it last = none
traverse_back h (suc fuel) it last =
    let rest = traverse_back h fuel (decrement h it) last in
    if it.p_elt == last.p_elt
    then some []
    else (elim rest [ none ↦ none | some ps ↦ some (it.p_elt ∷ ps) ])

-- swap: the heap and the two iterators after it; `none` is a failed assertion
abbrev and_then : Option Heap → (Heap → Option Heap) → Option Heap
and_then none f = none
and_then (some h) f = f h

abbrev first_of_pair : Option (Heap × Ptr) → Option Heap
first_of_pair none = none
first_of_pair (some (h, p)) = some h

unfoldable pub swap_links : (a b : Iterator) → Heap → Option Heap
swap_links a b h = and_then (first_of_pair (extract a.p_elt h)) λ g.
    if a.p_next == b.p_elt
    then (if b.p_prev == a.p_elt then insert_after a.p_elt b.p_elt g else none)
    else (if a.p_prev == b.p_elt
        then (if b.p_next == a.p_elt then insert_before a.p_elt b.p_elt g else none)
        else (and_then (first_of_pair (extract b.p_elt g))
            λ k. and_then (insert_after a.p_elt b.p_prev k) λ k'. insert_after b.p_elt a.p_prev k'))

unfoldable pub swap : (a b : Iterator) → Heap → Option (Heap × Iterator × Iterator)
unfolding safe relink
swap a b h = elim (swap_links (safe h a) (safe h b) h) [
  | none ↦ none
  | some g ↦ some (g, relink g b.p_elt, relink g a.p_elt)
]
