-- ===== src/IntrusiveList/Iteration.antt =====
-- What the iterators visit, whatever the layout of the elements.
use hydrosphere.Common.{
  ℕ, zero, suc, ◌+◌, ◌^◌, ◌<◌, ◌≡◌, ◌∙◌, refl, sym, ap, true, false, List, [], ◌∷◌, arith, ◌==◌,
  length, has, some, u32,
}
use hydrosphere.IntrusiveList.{Ptr, Store, size_from, size}
use hydrosphere.IntrusiveList.Chain.{Chain, direct, through, Ring}
use hydrosphere.IntrusiveList.Traversal.{size-length}
use hydrosphere.IntrusiveList.Iterators.{
  Iterator, get_element_pointer, link_of, begin, end, cbegin, cend, iterator_eq, const_iterator_ne,
  pre_increment, pre_decrement, const_pre_increment, count_from, count,
}

-- Every link's address is one of 64 bits.
pub record IsFitting (h : Store) (root : Ptr) : Type 0 where
  pub root_fits : root < 2 ^ 64
  pub next_fits : (a : Ptr) → h.next a < 2 ^ 64
  pub prev_fits : (a : Ptr) → h.prev a < 2 ^ 64

-- The k-th element, and the root behind the last.
abbrev pub position : List Ptr → (root : Ptr) → ℕ → Ptr
position [] root k = root
position (x ∷ xs) root zero = x
position (x ∷ xs) root (suc k) = position xs root k

first-position :
    {h : Store} {a b : Ptr} {xs : List Ptr} → Chain h a xs b → h.next a ≡ position xs b 0
first-position (direct n p) = n
first-position (through n p c) = n

linked-position :
    {h : Store} {a b : Ptr} {xs : List Ptr} (k : ℕ)
    → Chain h a xs b
    → k < length xs
    → (h.next (position xs b k) ≡ position xs b (suc k))
      × (h.prev (position xs b (suc k)) ≡ position xs b k)
linked-position k (direct n p) inside = absurd (omega arith)
linked-position zero (through n p (direct m q)) inside = (m, q)
linked-position zero (through n p (through m q c)) inside = (m, q)
linked-position (suc k) (through n p c) inside = linked-position k c (omega arith)

position-has : (xs : List Ptr) (k : ℕ) (r : Ptr) → k < length xs → has (position xs r k) xs ≡ true
position-has [] k r inside = absurd (omega arith)
position-has (x ∷ xs) zero r inside = ground arith
position-has (x ∷ xs) (suc k) r inside = ground (arith, position-has xs k r (omega arith))

position-end : (xs : List Ptr) (r : Ptr) → position xs r (length xs) ≡ r
position-end [] r = refl
position-end (x ∷ xs) r = position-end xs r

-- `begin()` with `++` k times.
abbrev pub begin_then : (link_offset k : ℕ) → Store → (root : Ptr) → Iterator
begin_then link_offset zero h root = begin link_offset h root
begin_then link_offset (suc k) h root =
    pre_increment link_offset h (begin_then link_offset k h root)

at_iterator : {a b : Iterator} → a.value ≡ b.value → a ≡ b
at_iterator e = ap (λ v. record { value = v }) e

module _ (link_offset : ℕ) (small : link_offset < 2 ^ 64) where
  link_of-get_element_pointer :
      (p : Ptr) → p < 2 ^ 64 → link_of link_offset (get_element_pointer link_offset p) ≡ p
  unfolding link_of get_element_pointer
  link_of-get_element_pointer p fits = omega arith

  get_element_pointer_injective :
      (p q : Ptr)
      → p < 2 ^ 64
      → q < 2 ^ 64
      → get_element_pointer link_offset p ≡ get_element_pointer link_offset q
      → p ≡ q
  unfolding get_element_pointer
  get_element_pointer_injective p q fp fq e = omega arith

  same_test :
      (p q : Ptr)
      → p < 2 ^ 64
      → q < 2 ^ 64
      → (get_element_pointer link_offset p == get_element_pointer link_offset q) ≡ (p == q)
  same_test p q fp fq = ground (arith, get_element_pointer_injective p q fp fq)

  count_from-size_from :
      (fuel : ℕ) {h : Store} {root : Ptr} (p k : ℕ)
      → IsFitting h root
      → p < 2 ^ 64
      → count_from link_offset fuel h root (record { value = get_element_pointer link_offset p }) k
        ≡ size_from fuel h root p k
  unfolding count_from size_from const_iterator_ne cend const_pre_increment
  count_from-size_from zero p k fit pf = refl
  count_from-size_from (suc fuel) {h} {root} p k fit pf =
      let rest = count_from-size_from fuel (h.next p) (u32 (k + 1)) fit (fit.next_fits p) in
      ground (arith, rest, same_test p root pf fit.root_fits, link_of-get_element_pointer p pf)

  -- `size` with its iterators is the walk over the links, in every store whose addresses fit.
  count-size :
      (fuel : ℕ) {h : Store} {root : Ptr}
      → IsFitting h root
      → count link_offset fuel h root ≡ size fuel h root
  unfolding count size cbegin
  count-size fuel {h} {root} fit =
      count_from-size_from fuel (h.next root) 0 fit (fit.next_fits root)

  -- `size` of a list, written with the iterators, ends within one round more than the list has elements
  -- and returns their number. The link may be anywhere in the elements; addresses fit in 64 bits, and
  -- the number in an `int`.
  pub count-length :
      (fuel : ℕ) {h : Store} {root : Ptr} (xs : List Ptr)
      → IsFitting h root
      → Ring h root xs
      → length xs < fuel
      → length xs < 2 ^ 31
      → count link_offset fuel h root ≡ some (length xs)
  count-length fuel xs fit ring enough fits =
      count-size fuel fit ∙ size-length fuel xs ring enough fits

  begin_then-position :
      (k : ℕ) {h : Store} {r : Ptr} {xs : List Ptr}
      → IsFitting h r
      → Chain h r xs r
      → k < suc (length xs)
      → (position xs r k < 2 ^ 64)
        × ((begin_then link_offset k h r).value ≡ get_element_pointer link_offset (position xs r k))
  unfolding begin pre_increment
  begin_then-position zero {h} {r} fit c inside = (
    rw (sym (first-position c)) (fit.next_fits r),
    ap (get_element_pointer link_offset) (first-position c),
  )
  begin_then-position (suc k) {h} {r} {xs} fit c inside =
      let (fits, e) = begin_then-position k fit c (omega arith) in
      let (step, _) = linked-position k c (omega arith) in
      (
        rw (sym step) (fit.next_fits (position xs r k)),
        rw (e, link_of-get_element_pointer (position xs r k) fits, step) refl,
      )

  -- With k below the number of elements of a list, k times `++` after `begin()` gives the k-th element,
  -- not `end()`, and `--` after one more `++` gives it back; after as many `++` as there are elements
  -- the iterator is `end()`. The link may be anywhere in the elements; addresses fit in 64 bits.
  pub iteration-Ring :
      (k : ℕ) {h : Store} {r : Ptr} (xs : List Ptr)
      → IsFitting h r
      → Ring h r xs
      → k < length xs
      → (begin_then link_offset k h r
          ≡ record { value = get_element_pointer link_offset (position xs r k) })
        × (iterator_eq (begin_then link_offset k h r) (end link_offset r) ≡ false)
        × (pre_decrement link_offset h (begin_then link_offset (suc k) h r)
            ≡ begin_then link_offset k h r)
        × (begin_then link_offset (length xs) h r ≡ end link_offset r)
  unfolding end iterator_eq pre_decrement
  iteration-Ring k {h} {r} xs fit ring inside =
      let (fits, e) = begin_then-position k fit ring.chain (omega arith) in
      let (fits1, e1) = begin_then-position (suc k) fit ring.chain (omega arith) in
      let (_, e2) = begin_then-position (length xs) fit ring.chain (omega arith) in
      let (_, back) = linked-position k ring.chain inside in
      (
        at_iterator e,
        rw (e, same_test (position xs r k) r fits fit.root_fits)
            (ground (arith, position-has xs k r inside, ring.distinct.0)),
        at_iterator
            (rw (e1, link_of-get_element_pointer (position xs r (suc k)) fits1, back) (sym e)),
        at_iterator (e2 ∙ ap (get_element_pointer link_offset) (position-end xs r)),
      )
