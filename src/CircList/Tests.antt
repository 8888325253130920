-- ===== src/CircList/Tests.antt =====
-- The theorems on two lists, one of three elements and one of two.
use mathlib.Core.List.{reverse}
use hex.Base.{◌≡◌, ◌≢◌, refl, some, List, [], ◌∷◌, ◌++◌, arith, ◌==◌, if◌then◌else◌}
use hex.CircList.{Ptr, Heap, extract, append, truncate}
use hex.CircList.Iterators.{Iterator, relink, swap, begin, rbegin, end, traverse, traverse_back}
use hex.CircList.Ring.{Ring, Disjoint}
use hex.CircList.Lists.{IsList, extract-IsList}
use hex.CircList.Transfers.{append-IsList}
use hex.CircList.Halves.{truncate-IsList}
use hex.CircList.Iterate.{traverse-IsList}
use hex.CircList.ForEach.{list_for_each_safe, destroy_head}
use hex.CircList.ForEach.Emptying.{take_out, list_for_each_safe-extract}
use hex.CircList.Swaps.{on, swap_neighbours-IsList, swap_self}

abbrev after_of : List (Ptr × Ptr) → Ptr → Ptr
after_of [] q = q
after_of ((a, b) ∷ r) q = if q == a then b else after_of r q

-- head 1 with elements 2, 3, 4; head 10 with elements 11, 12; element 20 and head 30 unlinked
abbrev two_lists : Heap
two_lists = record {
  next = after_of ((1, 2) ∷ (2, 3) ∷ (3, 4) ∷ (4, 1) ∷ (10, 11) ∷ (11, 12) ∷ (12, 10) ∷ []);
  prev = after_of ((2, 1) ∷ (3, 2) ∷ (4, 3) ∷ (1, 4) ∷ (11, 10) ∷ (12, 11) ∷ (10, 12) ∷ []);
  payload = after_of ((1, 0) ∷ (10, 0) ∷ (30, 0) ∷ []);
}

abbrev three : List Ptr
three = 2 ∷ 3 ∷ 4 ∷ []

abbrev two : List Ptr
two = 11 ∷ 12 ∷ []

three-IsList : IsList two_lists 1 three
three-IsList = record {
  ring = record {
    chain = (refl, refl, (refl, refl, (refl, refl, (refl, refl))));
    distinct = (refl, (refl, (refl, (refl, tt))));
  };
  head = refl;
  elts = λ q i. ground arith;
}

two-IsList : IsList two_lists 10 two
two-IsList = record {
  ring = record {
    chain = (refl, refl, (refl, refl, (refl, refl)));
    distinct = (refl, (refl, (refl, tt)));
  };
  head = refl;
  elts = λ q i. ground arith;
}

new_live : two_lists.payload 20 ≢ 0
new_live = omega arith

apart : Disjoint (1 ∷ three) (10 ∷ two)
apart a i = ground arith

extract-IsList_example :
    (g : Heap) × (extract 3 two_lists ≡ some (g, two_lists.payload 3))
    × IsList g 1 (2 ∷ 4 ∷ [])
    × Ring g 3 []
extract-IsList_example = extract-IsList 3 (2 ∷ []) (4 ∷ []) three-IsList

append-IsList_example : (g : Heap) × (append 1 10 two_lists ≡ some g) × IsList g 1 (two ++ three)
append-IsList_example = append-IsList 10 three three-IsList two two-IsList apart

truncate-IsList_example :
    (g : Heap) × (truncate 1 3 30 two_lists ≡ some g)
    × IsList g 30 (2 ∷ 3 ∷ [])
    × IsList g 1 (4 ∷ [])
truncate-IsList_example = truncate-IsList 3 30 (2 ∷ []) (4 ∷ []) three-IsList refl (omega arith)

traverse-IsList_example :
    (first : Iterator) × (final : Iterator) × (past : Iterator) × (begin two_lists 1 ≡ some first)
    × (rbegin two_lists 1 ≡ some final)
    × (end two_lists 1 ≡ some past)
    × (traverse two_lists 4 first past ≡ some three)
    × (traverse_back two_lists 4 final past ≡ some (reverse three))
traverse-IsList_example = traverse-IsList three 4 three-IsList refl (omega arith)

swap_neighbours-IsList_example :
    ((g : Heap) × (swap (on 2 1 3) (on 3 0 0) two_lists ≡ some (g, relink g 3, relink g 2))
      × IsList g 1 (3 ∷ 2 ∷ 4 ∷ []))
    × ((g : Heap) × (swap (on 3 0 0) (on 2 1 3) two_lists ≡ some (g, relink g 2, relink g 3))
        × IsList g 1 (3 ∷ 2 ∷ 4 ∷ []))
swap_neighbours-IsList_example = swap_neighbours-IsList 2 3 1 3 0 0 [] (4 ∷ []) three-IsList

swap_self_example :
    (two_lists.next 3 ≢ 3)
    × ((g : Heap) × (swap (on 3 2 4) (on 3 2 4) two_lists ≡ some (g, relink g 3, relink g 3))
        × (g.next 3 ≡ 3))
swap_self_example = swap_self 3 2 4 2 4 (2 ∷ []) (4 ∷ []) three-IsList

list_for_each_safe-extract_example :
    (g : Heap) × (list_for_each_safe take_out 1 4 two_lists ≡ some (three, g))
    × IsList g 1 []
    × (destroy_head 1 g ≡ some g)
list_for_each_safe-extract_example = list_for_each_safe-extract three 4 three-IsList (omega arith)
