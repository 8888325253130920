-- ===== src/CircList.antt =====
-- util/circList.h: the intrusive circular doubly linked list. Each element is an address with the
-- fields `next`, `prev` and `payload`; a pointer is a number, and NULL is 0. An operation that
-- asserts returns `none` where an assertion fails.
pub mod Ring
pub mod Basic
pub mod Cut
pub mod Places
pub mod Lists
pub mod Queues
pub mod Transfers
pub mod Halves
pub mod Iterators
pub mod Iterate
pub mod Swaps
pub mod ForEach
mod Tests
use hex.Base.{
  ℕ, zero, suc, Bool, true, false, not, ◌&&◌, ◌||◌, Option, none, some, List, [], ◌∷◌, ◌==◌,
  if◌then◌else◌,
}

abbrev pub Ptr : Type 0
Ptr = ℕ

-- the fields of all elements; `payload` is never written
pub record Heap : Type 0 where
  pub next : Ptr → Ptr
  pub prev : Ptr → Ptr
  pub payload : Ptr → Ptr

abbrev pub update : (Ptr → Ptr) → Ptr → Ptr → Ptr → Ptr
update f p v q = if q == p then v else f q

abbrev pub set_next : Ptr → Ptr → Heap → Heap
set_next p q h = record h { next = update h.next p q }

abbrev pub set_prev : Ptr → Ptr → Heap → Heap
set_prev p q h = record h { prev = update h.prev p q }

abbrev pub guard : Bool → Heap → Option Heap
guard true h = some h
guard false h = none

-- the constructor circular_list_elt, on an address that holds no element yet
unfoldable pub construct : (this list_elt_of : Ptr) → Heap → Heap
construct this list_elt_of h = record {
  next = update h.next this this;
  prev = update h.prev this this;
  payload = update h.payload this list_elt_of;
}

unfoldable pub init : Ptr → Heap → Heap
init this h = set_prev this this (set_next this this h)

unfoldable pub insert : (this prev next : Ptr) → Heap → Heap
insert this prev next h =
    set_next prev this (set_prev this prev (set_next this next (set_prev next this h)))

unfoldable pub link : (prev next : Ptr) → Heap → Heap
link prev next h = set_next prev next (set_prev next prev h)

unfoldable pub concat : (list prev next : Ptr) → Heap → Heap
concat list prev next h =
    let first = h.next list in
    let last = h.prev list in
    set_prev next last (set_next last next (set_next prev first (set_prev first prev h)))

unfoldable pub is_head : Heap → Ptr → Bool
is_head h this = h.payload this == 0

unfoldable pub empty : Heap → Ptr → Bool
empty h this = h.next this == this

-- first() and front(): the payload of the first element, or NULL; `none` is a failed assertion
unfoldable pub front : Heap → Ptr → Option Ptr
unfolding is_head empty
front h this =
    if is_head h this
    then some (if not (empty h this) then h.payload (h.next this) else 0)
    else none

-- last() and back()
unfoldable pub back : Heap → Ptr → Option Ptr
unfolding is_head empty
back h this =
    if is_head h this
    then some (if not (empty h this) then h.payload (h.prev this) else 0)
    else none

unfoldable pub insert_after : (this elt : Ptr) → Heap → Option Heap
unfolding is_head insert
insert_after this elt h = guard (not (is_head h this)) (insert this elt (h.next elt) h)

unfoldable pub insert_before : (this elt : Ptr) → Heap → Option Heap
unfolding is_head insert
insert_before this elt h = guard (not (is_head h this)) (insert this (h.prev elt) elt h)

-- the body of extract below its assertion, the payload returned being that of `this`
unfoldable pub unlink : Ptr → Heap → Heap
unfolding empty link init
unlink this h = if not (empty h this) then init this (link (h.prev this) (h.next this) h) else h

unfoldable pub extract : Ptr → Heap → Option (Heap × Ptr)
unfolding is_head unlink
extract this h = if not (is_head h this) then some (unlink this h, h.payload this) else none

-- the four writes that put `this` where `elt` stands: `this->next = elt->next; ...`
unfoldable pub take_place : (this elt : Ptr) → Heap → Heap
take_place this elt h =
    let h1 = set_next this (h.next elt) h in
    let h2 = set_prev (h1.next this) this h1 in
    let h3 = set_prev this (h2.prev elt) h2 in set_next (h3.prev this) this h3

unfoldable pub replace : (this elt : Ptr) → Heap → Option Heap
unfolding is_head take_place init
replace this elt h =
    guard (not (is_head h this) && not (is_head h elt)) (init elt (take_place this elt h))

unfoldable pub replace_by : (this new_elt : Ptr) → Heap → Option Heap
unfolding empty take_place init
replace_by this new_elt h =
    guard (h.payload this == h.payload new_elt)
      (if empty h this then h else init this (take_place new_elt this h))

-- the first half of move_elt and move_elt_tail
unfoldable pub leave : Ptr → Heap → Heap
unfolding empty link
leave this h = if not (empty h this) then link (h.prev this) (h.next this) h else h

unfoldable pub move_elt : (this target : Ptr) → Heap → Option Heap
unfolding is_head leave insert
move_elt this target h =
    let g = leave this h in guard (not (is_head h this)) (insert this target (g.next target) g)

unfoldable pub move_elt_tail : (this target : Ptr) → Heap → Option Heap
unfolding is_head leave insert
move_elt_tail this target h =
    let g = leave this h in guard (not (is_head h this)) (insert this (g.prev target) target g)

unfoldable pub is_last : Heap → (this head : Ptr) → Option Bool
unfolding is_head
is_last h this head =
    if is_head h head && not (is_head h this) then some (h.next this == head) else none

unfoldable pub rotate_left : Ptr → Heap → Option Heap
unfolding is_head empty move_elt_tail
rotate_left this h =
    if is_head h this
    then (if not (empty h this) then move_elt_tail (h.next this) this h else some h)
    else none

unfoldable pub is_singular : Heap → Ptr → Option Bool
unfolding is_head empty
is_singular h this =
    if is_head h this then some (not (empty h this) && (h.next this == h.prev this)) else none

unfoldable pub push : (this new_elt : Ptr) → Heap → Option Heap
unfolding is_head insert
push this new_elt h =
    guard (is_head h this && not (is_head h new_elt)) (insert new_elt this (h.next this) h)

unfoldable pub push_back : (this new_elt : Ptr) → Heap → Option Heap
unfolding is_head insert
push_back this new_elt h =
    guard (is_head h this && not (is_head h new_elt)) (insert new_elt (h.prev this) this h)

-- the element extracted, or NULL
unfoldable pub pop : Ptr → Heap → Option (Heap × Ptr)
unfolding is_head empty link init
pop this h =
    let first = h.next this in
    if is_head h this
    then (if not (empty h this)
        then some (init first (link this (h.next first) h), first)
        else some (h, 0))
    else none

unfoldable pub pop_back : Ptr → Heap → Option (Heap × Ptr)
unfolding is_head empty link init
pop_back this h =
    let last = h.prev this in
    if is_head h this
    then (if not (empty h this)
        then some (init last (link (h.prev last) this h), last)
        else some (h, 0))
    else none

-- the last branch of truncate
unfoldable pub cut : (this entry list : Ptr) → Heap → Heap
cut this entry list h =
    let new_first = h.next entry in
    let h1 = set_next list (h.next this) h in
    let h2 = set_prev (h1.next list) list h1 in
    let h3 = set_prev list entry h2 in
    let h4 = set_next entry list h3 in set_prev new_first this (set_next this new_first h4)

unfoldable pub truncate : (this entry list : Ptr) → Heap → Option Heap
unfolding is_head empty cut init
truncate this entry list h =
    let single = not (empty h this) && (h.next this == h.prev this) in
    guard (is_head h this && is_head h list && not (is_head h entry)) (
      if empty h this
      then h
      else (if single && not (h.next this == entry) && not (this == entry)
          then h
          else (if entry == this then init list h else cut this entry list h)))

unfoldable pub append : (this list : Ptr) → Heap → Option Heap
unfolding is_head empty concat
append this list h =
    guard (is_head h list && is_head h this)
      (if not (empty h list) then concat list this (h.next this) h else h)

unfoldable pub append_back : (this list : Ptr) → Heap → Option Heap
unfolding is_head empty concat
append_back this list h =
    guard (is_head h list && is_head h this)
      (if not (empty h list) then concat list (h.prev this) this h else h)
