-- ===== src/CircList/ForEach.antt =====
-- util/circList.h: the loops list_for_each, list_for_each_prev and their safe forms, with a body
-- that may change the links. The addresses met are collected. A loop is `none` where an assertion
-- of its body fails, and where the fuel runs out.
pub mod Emptying
use hex.Base.{ℕ, zero, suc, Option, none, some, List, [], ◌∷◌, ◌==◌, if◌then◌else◌}
use hex.CircList.{Ptr, Heap, empty}

-- what a loop has met, and the heap it leaves
abbrev pub Loop : Type 0
Loop = Option (List Ptr × Heap)

abbrev pub met : Ptr → Loop → Loop
met pos none = none
met pos (some (ps, h)) = some (pos ∷ ps, h)

abbrev pub after_body : (Heap → Loop) → Option Heap → Loop
after_body rest none = none
after_body rest (some h) = rest h

module _ (body : Ptr → Heap → Option Heap) (head : Ptr) where
  -- `for (; pos != head; pos = pos->next)`
  unfoldable pub for_each_from : (fuel : ℕ) → (pos : Ptr) → Heap → Loop
  for_each_from zero pos h = none
  for_each_from (suc fuel) pos h =
      let rest = met pos (after_body (λ g. for_each_from fuel (g.next pos) g) (body pos h)) in
      if pos == head then some ([], h) else rest

  unfoldable pub list_for_each : (fuel : ℕ) → Heap → Loop
  unfolding for_each_from
  list_for_each fuel h = for_each_from fuel (h.next head) h

  unfoldable pub for_each_prev_from : (fuel : ℕ) → (pos : Ptr) → Heap → Loop
  for_each_prev_from zero pos h = none
  for_each_prev_from (suc fuel) pos h =
      let rest = met pos (after_body (λ g. for_each_prev_from fuel (g.prev pos) g) (body pos h)) in
      if pos == head then some ([], h) else rest

  unfoldable pub list_for_each_prev : (fuel : ℕ) → Heap → Loop
  unfolding for_each_prev_from
  list_for_each_prev fuel h = for_each_prev_from fuel (h.prev head) h

  -- `for (; pos != head; pos = n, n = pos->next)`
  unfoldable pub for_each_safe_from : (fuel : ℕ) → (pos n : Ptr) → Heap → Loop
  for_each_safe_from zero pos n h = none
  for_each_safe_from (suc fuel) pos n h =
      let rest = met pos (after_body (λ g. for_each_safe_from fuel n (g.next n) g) (body pos h)) in
      if pos == head then some ([], h) else rest

  unfoldable pub list_for_each_safe : (fuel : ℕ) → Heap → Loop
  unfolding for_each_safe_from
  list_for_each_safe fuel h = for_each_safe_from fuel (h.next head) (h.next (h.next head)) h

  unfoldable pub for_each_prev_safe_from : (fuel : ℕ) → (pos n : Ptr) → Heap → Loop
  for_each_prev_safe_from zero pos n h = none
  for_each_prev_safe_from (suc fuel) pos n h =
      let rest =
        met pos (after_body (λ g. for_each_prev_safe_from fuel n (g.prev n) g) (body pos h)) in
      if pos == head then some ([], h) else rest

  unfoldable pub list_for_each_prev_safe : (fuel : ℕ) → Heap → Loop
  unfolding for_each_prev_safe_from
  list_for_each_prev_safe fuel h =
      for_each_prev_safe_from fuel (h.prev head) (h.prev (h.prev head)) h

-- the destructor of a head; `none` is its failed assertion
unfoldable pub destroy_head : Ptr → Heap → Option Heap
unfolding empty
destroy_head this h = if empty h this then some h else none
