-- ===== src/IntrusiveList.antt =====
-- The circular, doubly linked list of libhydrosphere/include/hs/util/util_intrusive_list.hpp.
-- An element is its address; the store gives the `prev` and `next` of every constructed element.
-- The link is the first subobject of its container, so an element and its link share an address.
pub mod Chain
pub mod Exchange
pub mod Middle
pub mod Laws
pub mod Traversal
pub mod Iterators
pub mod Iteration
use hydrosphere.Common.{ℕ, zero, suc, ◌+◌, Bool, not, Option, none, some, ◌==◌, if◌then◌else◌, u32}

abbrev pub Ptr : Type 0
Ptr = ℕ

pub record Store : Type 0 where
  pub prev : Ptr → Ptr
  pub next : Ptr → Ptr

abbrev pub update : (Ptr → Ptr) → Ptr → Ptr → Ptr → Ptr
update f p q a = if a == p then q else f a

abbrev pub set_prev : Ptr → Ptr → Store → Store
set_prev p q h = record h { prev = update h.prev p q }

abbrev pub set_next : Ptr → Ptr → Store → Store
set_next p q h = record h { next = update h.next p q }

-- `IntrusiveListElement()`
unfoldable pub construct : Ptr → Store → Store
construct this h = set_next this this (set_prev this this h)

unfoldable pub has_next : Store → Ptr → Bool
has_next h this = not (h.next this == this)

-- The two-argument `LinkPrev`, `LinkNext` and the one-argument `Unlink`, write by write.
unfoldable pub link_prev_range : (this first_link last_link : Ptr) → Store → Store
link_prev_range this first_link last_link h =
    let link = h.prev last_link in
    let h1 = set_prev first_link (h.prev this) h in
    let h2 = set_next link this h1 in
    let h3 = set_next (h2.prev this) first_link h2 in set_prev this link h3

unfoldable pub link_next_range : (this first_link last_link : Ptr) → Store → Store
link_next_range this first_link last_link h =
    let link = h.prev last_link in
    let h1 = set_prev first_link this h in
    let h2 = set_next link (h1.next this) h1 in
    let h3 = set_prev (h2.next this) link h2 in set_next this first_link h3

unfoldable pub unlink_range : (this last_link : Ptr) → Store → Store
unlink_range this last_link h =
    let link = h.prev last_link in
    let h1 = set_next (h.prev this) last_link h in
    let h2 = set_prev last_link (h1.prev this) h1 in
    let h3 = set_next link this h2 in set_prev this link h3

abbrev pub link_prev : (this link : Ptr) → Store → Store
link_prev this link h = link_prev_range this link link h

abbrev pub link_next : (this link : Ptr) → Store → Store
link_next this link h = link_next_range this link link h

abbrev pub unlink : Ptr → Store → Store
unlink this h = unlink_range this (h.next this) h

-- An iterator is the address that it holds; `end()` is the root.
abbrev pub begin_it : Store → (root : Ptr) → Ptr
begin_it h root = h.next root

abbrev pub end_it : (root : Ptr) → Ptr
end_it root = root

abbrev pub increment : Store → Ptr → Ptr
increment h it = h.next it

abbrev pub decrement : Store → Ptr → Ptr
decrement h it = h.prev it

unfoldable pub empty : Store → (root : Ptr) → Bool
unfolding has_next
empty h root = not (has_next h root)

-- `size` walks from `begin()` to `end()`; `none` when the fuel is spent before the walk ends. The result
-- is an `int`, given by its 32 bits.
unfoldable pub size_from : ℕ → Store → (root it : Ptr) → (result : ℕ) → Option ℕ
size_from zero h root it result = none
size_from (suc fuel) h root it result =
    let rest = size_from fuel h root (increment h it) (u32 (result + 1)) in
    if it == end_it root then some result else rest

unfoldable pub size : ℕ → Store → (root : Ptr) → Option ℕ
unfolding size_from
size fuel h root = size_from fuel h root (begin_it h root) 0

unfoldable pub front : Store → (root : Ptr) → Ptr
front h root = h.next root

unfoldable pub back : Store → (root : Ptr) → Ptr
back h root = h.prev root

unfoldable pub push_front : (root x : Ptr) → Store → Store
push_front root x h = link_next root x h

unfoldable pub push_back : (root x : Ptr) → Store → Store
push_back root x h = link_prev root x h

unfoldable pub pop_back : (root : Ptr) → Store → Store
pop_back root h = unlink (h.prev root) h

unfoldable pub pop_front : (root : Ptr) → Store → Store
pop_front root h = unlink (h.next root) h

-- The new store, and the iterator that is returned.
unfoldable pub insert : (position x : Ptr) → Store → Store × Ptr
insert position x h = (link_prev position x h, x)

unfoldable pub erase_range : (position last : Ptr) → Store → Store × Ptr
erase_range position last h =
    if position == last
    then (h, last)
    else (let h' = unlink position h in (h', increment h' position))

unfoldable pub erase : (root position : Ptr) → Store → Store × Ptr
unfolding erase_range
erase root position h = erase_range position (end_it root) h

-- `none` when the fuel is spent before the list is empty.
unfoldable pub clear : ℕ → (root : Ptr) → Store → Option Store
unfolding empty pop_front
clear zero root h = none
clear (suc fuel) root h =
    let rest = clear fuel root (pop_front root h) in if empty h root then some h else rest
