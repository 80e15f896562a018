-- ===== src/IntrusiveList/Iterators.antt =====
-- The iterators of libhydrosphere/include/hs/util/util_intrusive_list.hpp over elements of any layout.
-- An iterator has the address of an element; the element's link is `link_offset` bytes behind it, and
-- addresses wrap at 64 bits. The other files take the offset as 0, which it is where the link is the
-- first subobject.
use hydrosphere.Common.{
  ℕ, zero, suc, ◌+◌, ◌-◌, ◌%◌, ◌^◌, Bool, not, Option, none, some, ◌==◌, if◌then◌else◌, u32,
}
use hydrosphere.IntrusiveList.{Ptr, Store}

-- class iterator
pub record Iterator : Type 0 where
  pub value : Ptr

-- class const_iterator
pub record ConstIterator : Type 0 where
  pub value : Ptr

-- The constructors that take an iterator of the other class.
unfoldable pub to_const : Iterator → ConstIterator
to_const it = record { value = it.value }

unfoldable pub from_const : ConstIterator → Iterator
from_const it = record { value = it.value }

unfoldable pub iterator_eq : Iterator → Iterator → Bool
iterator_eq a b = a.value == b.value

unfoldable pub iterator_ne : Iterator → Iterator → Bool
iterator_ne a b = not (a.value == b.value)

unfoldable pub const_iterator_eq : ConstIterator → ConstIterator → Bool
const_iterator_eq a b = a.value == b.value

unfoldable pub const_iterator_ne : ConstIterator → ConstIterator → Bool
const_iterator_ne a b = not (a.value == b.value)

-- `GetLinkOffset<T>()` is the layout of the element.
module _ (link_offset : ℕ) where
  unfoldable pub get_element_pointer : (other : Ptr) → Ptr
  get_element_pointer other = (other + (2 ^ 64 - link_offset)) % 2 ^ 64

  -- The conversion of an element's address to that of its link, its base class.
  unfoldable pub link_of : Ptr → Ptr
  link_of value = (value + link_offset) % 2 ^ 64

  unfoldable pub begin : Store → (root : Ptr) → Iterator
  unfolding get_element_pointer
  begin h root = record { value = get_element_pointer (h.next root) }

  unfoldable pub end : (root : Ptr) → Iterator
  unfolding get_element_pointer
  end root = record { value = get_element_pointer root }

  unfoldable pub cbegin : Store → (root : Ptr) → ConstIterator
  unfolding get_element_pointer
  cbegin h root = record { value = get_element_pointer (h.next root) }

  unfoldable pub cend : (root : Ptr) → ConstIterator
  unfolding get_element_pointer
  cend root = record { value = get_element_pointer root }

  -- operator++()
  unfoldable pub pre_increment : Store → Iterator → Iterator
  unfolding get_element_pointer link_of
  pre_increment h it = record it { value = get_element_pointer (h.next (link_of it.value)) }

  -- operator--()
  unfoldable pub pre_decrement : Store → Iterator → Iterator
  unfolding get_element_pointer link_of
  pre_decrement h it = record it { value = get_element_pointer (h.prev (link_of it.value)) }

  -- operator++(int) and operator--(int): what is returned, and the iterator afterwards.
  unfoldable pub post_increment : Store → Iterator → Iterator × Iterator
  unfolding pre_increment
  post_increment h it = let temp = it in (temp, pre_increment h it)

  unfoldable pub post_decrement : Store → Iterator → Iterator × Iterator
  unfolding pre_decrement
  post_decrement h it = let temp = it in (temp, pre_decrement h it)

  unfoldable pub const_pre_increment : Store → ConstIterator → ConstIterator
  unfolding get_element_pointer link_of
  const_pre_increment h it = record it { value = get_element_pointer (h.next (link_of it.value)) }

  unfoldable pub const_pre_decrement : Store → ConstIterator → ConstIterator
  unfolding get_element_pointer link_of
  const_pre_decrement h it = record it { value = get_element_pointer (h.prev (link_of it.value)) }

  unfoldable pub const_post_increment : Store → ConstIterator → ConstIterator × ConstIterator
  unfolding const_pre_increment
  const_post_increment h it = let temp = it in (temp, const_pre_increment h it)

  unfoldable pub const_post_decrement : Store → ConstIterator → ConstIterator × ConstIterator
  unfolding const_pre_decrement
  const_post_decrement h it = let temp = it in (temp, const_pre_decrement h it)

  -- `size`, with the iterators it is written with. The result is an `int`, given by its 32 bits.
  unfoldable pub count_from :
      (fuel : ℕ) → Store → (root : Ptr) → (temp : ConstIterator) → (result : ℕ) → Option ℕ
  unfolding const_iterator_ne cend const_pre_increment get_element_pointer link_of
  count_from zero h root temp result = none
  count_from (suc fuel) h root temp result =
      let rest = count_from fuel h root (const_pre_increment h temp) (u32 (result + 1)) in
      if const_iterator_ne temp (cend root) then rest else some result

  unfoldable pub count : (fuel : ℕ) → Store → (root : Ptr) → Option ℕ
  unfolding count_from cbegin
  count fuel h root = count_from fuel h root (cbegin h root) 0
