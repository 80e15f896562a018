-- ===== src/IntrusiveList/Laws.antt =====
-- What the operations of `IntrusiveList` do to the list of elements that a ring stands for.
use mathlib.Core.List.{append-nil}
use hydrosphere.Common.{
  membership, ◌≡◌, refl, ◌≢◌, ◌↔◌, true, false, List, [], ◌∷◌, ◌++◌, arith, ◌==◌, has, has-append,
  Disjoint, Distinct-append_right, Disjoint-of_append,
}
use hydrosphere.IntrusiveList.{
  Ptr, Store, construct, unlink_range, unlink, push_front, push_back, pop_front, pop_back, insert,
  erase, empty, front, back,
}
use hydrosphere.IntrusiveList.Chain.{Chain, direct, through, Ring, Chain-split, prev-mem, frame}
use hydrosphere.IntrusiveList.Exchange.{
  Exchange, link_prev_range-Exchange, link_next_range-Exchange, unlink_range-Exchange, merge,
  split_end,
}
use hydrosphere.IntrusiveList.Middle.{merge_before, split_middle}

-- A constructed element is a ring of its own.
pub construct-Ring : (r : Ptr) (h : Store) → Ring (construct r h) r []
unfolding construct
construct-Ring r h = record { chain = direct (ground arith) (ground arith); distinct = (refl, tt) }

-- Constructing an element changes no ring that it is not in.
pub construct-frame :
    {h : Store} {r : Ptr} {xs : List Ptr} (x : Ptr)
    → Ring h r xs
    → has x (r ∷ xs) ≡ false
    → Ring (construct x h) r xs
unfolding construct
construct-frame x rr out = record {
  chain = frame rr.chain (λ y i. ground arith) (λ y i. ground arith);
  distinct = rr.distinct;
}

module _ {h : Store} {r x : Ptr} (xs ys : List Ptr) (rr : Ring h r xs) (rx : Ring h x ys) where
  -- If the rings of `r` and `x` share no element, `push_back` of `x` on the list of `r` puts `x` and
  -- the elements that are linked to `x` behind the elements of the list, in their order.
  pub push_back-Ring : Disjoint (r ∷ xs) (x ∷ ys) → Ring (push_back r x h) r (xs ++ x ∷ ys)
  unfolding push_back
  push_back-Ring apart = merge xs ys rr rx apart (
      link_prev_range-Exchange h r x (ground (arith, apart r))
        (ground (arith, apart (h.prev r), prev-mem rr.chain, prev-mem rx.chain)))

-- The successor of an element that is followed by `e`.
pub next-mid :
    {h : Store} {a b e : Ptr} {zs : List Ptr}
    → Chain h a (e ∷ zs) b
    → (h.next a ≡ e) × (h.prev e ≡ a)
next-mid (through n p c) = (n, p)

pub next-last : {h : Store} {a b : Ptr} → Chain h a [] b → (h.next a ≡ b) × (h.prev b ≡ a)
next-last (direct n p) = (n, p)

-- If the rings of `r` and `x` share no element, `push_front` of `x` on the list of `r` puts `x` and
-- the elements that are linked to `x` before the elements of the list, in their order.
pub push_front-Ring :
    {h : Store} {r x : Ptr} (xs ys : List Ptr)
    → Ring h r xs
    → Ring h x ys
    → Disjoint (r ∷ xs) (x ∷ ys)
    → Ring (push_front r x h) r (x ∷ ys ++ xs)
unfolding push_front
push_front-Ring {h} {r} {x} [] ys rr rx apart =
    let (n, p) = next-last rr.chain in
    rw append-nil (
      merge [] ys rr rx apart (
        link_next_range-Exchange h r r x n p (ground (arith, apart r))
          (ground (arith, apart r, prev-mem rx.chain))))
push_front-Ring {h} {r} {x} (e ∷ zs) ys rr rx apart =
    let (n, p) = next-mid rr.chain in
    merge_before [] ys zs rr rx apart (
      link_next_range-Exchange h r e x n p (ground (arith, apart e))
        (ground (arith, apart r, prev-mem rx.chain)))

-- `insert` of `x` at the position `p` puts `x` and the elements that are linked to `x` right before
-- `p`, if the rings share no element, and returns the position of `x`.
pub insert-Ring :
    {h : Store} {r x : Ptr} (p : Ptr) (xs ys zs : List Ptr)
    → Ring h r (xs ++ p ∷ zs)
    → Ring h x ys
    → Disjoint (r ∷ xs ++ p ∷ zs) (x ∷ ys)
    → Ring (insert p x h).0 r (xs ++ (x ∷ ys ++ p ∷ zs)) × ((insert p x h).1 ≡ x)
unfolding insert
insert-Ring {h} {r} {x} p xs ys zs rr rx apart =
    let (c1, c2) = Chain-split xs rr.chain in
    (
      merge_before xs ys zs rr rx apart (
          link_prev_range-Exchange h p x (grind (membership, apart p)) (
            ground (
              arith,
              apart (h.prev p),
              has-append (h.prev p) (r ∷ xs) (p ∷ zs),
              prev-mem c1,
              prev-mem rx.chain,
            ))),
      refl,
    )

-- Unlinking an element of a ring is a trade between it and its successor.
pub unlink-Exchange :
    {h : Store} {r x : Ptr} (e : Ptr) (xs ys : List Ptr)
    → Ring h r (xs ++ x ∷ ys)
    → h.next x ≡ e
    → h.prev e ≡ x
    → x ≢ e
    → Exchange h (unlink x h) x e
unlink-Exchange {h} {r} {x} e xs ys rr n p ne =
    let (c1, c2) = Chain-split xs rr.chain in
    let out = Disjoint-of_append (r ∷ xs) (x ∷ ys) rr.distinct (h.prev x) (prev-mem c1) in
    rw n (unlink_range-Exchange h x e ne (ground arith))

-- Unlinking an element of a list takes it out, keeps the order of the others, and leaves the
-- element as a ring of its own.
pub unlink-Ring :
    {h : Store} {r x : Ptr} (xs ys : List Ptr)
    → Ring h r (xs ++ x ∷ ys)
    → Ring (unlink x h) r (xs ++ ys) × Ring (unlink x h) x []
unlink-Ring {h} {r} {x} xs [] rr =
    let (c1, c2) = Chain-split xs rr.chain in
    let (n, p) = next-last c2 in
    rw append-nil
      (split_end xs [] rr (unlink-Exchange r xs [] rr n p (grind (membership, rr.distinct))))
unlink-Ring {h} {r} {x} xs (e ∷ zs) rr =
    let (c1, c2) = Chain-split xs rr.chain in
    let (n, p) = next-mid c2 in
    let d = Distinct-append_right (r ∷ xs) (x ∷ e ∷ zs) rr.distinct in
    split_middle xs [] zs rr (unlink-Exchange e xs (e ∷ zs) rr n p (ground arith))

module _ {h : Store} {r : Ptr} where
  -- `front` and `pop_front` on a list that starts with `x`: the first is `x`, and the second takes
  -- `x` out and leaves it as a ring of its own.
  pub pop_front-Ring :
      {x : Ptr} (xs : List Ptr)
      → Ring h r (x ∷ xs)
      → (front h r ≡ x) × Ring (pop_front r h) r xs × Ring (pop_front r h) x []
  unfolding front pop_front
  pop_front-Ring xs rr =
      let (n, p) = next-mid rr.chain in let (r1, r2) = unlink-Ring [] xs rr in (n, rw n r1, rw n r2)

  -- `back` and `pop_back` on a list that ends with `x`: the first is `x`, and the second takes `x`
  -- out and leaves it as a ring of its own.
  pub pop_back-Ring :
      {x : Ptr} (xs : List Ptr)
      → Ring h r (xs ++ x ∷ [])
      → (back h r ≡ x) × Ring (pop_back r h) r xs × Ring (pop_back r h) x []
  unfolding back pop_back
  pop_back-Ring {x} xs rr =
      let (c1, c2) = Chain-split xs rr.chain in
      let (n, p) = next-last c2 in
      let (r1, r2) = unlink-Ring xs [] rr in (p, rw p (rw append-nil at r1), rw p r2)

  -- On an empty list `pop_front` and `pop_back` change no link.
  pub pop-nil :
      Ring h r []
      → (y : Ptr)
      → ((pop_front r h).next y ≡ h.next y)
        × ((pop_front r h).prev y ≡ h.prev y)
        × ((pop_back r h).next y ≡ h.next y)
        × ((pop_back r h).prev y ≡ h.prev y)
  unfolding pop_front pop_back unlink_range
  pop-nil rr y = let (n, p) = next-last rr.chain in ground arith

  -- `empty` holds of a list exactly if it has no element.
  pub empty_iff : (xs : List Ptr) → Ring h r xs → (empty h r ≡ true) ↔ (xs ≡ [])
  unfolding empty
  empty_iff [] rr = let (n, p) = next-last rr.chain in (λ _. refl, λ _. ground arith)
  empty_iff (x ∷ xs) rr =
      let (n, p) = next-mid rr.chain in (λ e. ground (arith, rr.distinct), λ e. cc)

  -- `erase` of the element `x` takes `x` alone out of the list, and the iterator that it returns is
  -- the position of `x` itself, whose element is not in the list any more.
  pub erase-Ring :
      (x : Ptr) (xs ys : List Ptr)
      → Ring h r (xs ++ x ∷ ys)
      → Ring (erase r x h).0 r (xs ++ ys) × ((erase r x h).1 ≡ x)
  unfolding erase
  erase-Ring x xs ys rr =
      let ne : (x == r) ≡ false = grind (membership, rr.distinct) in
      let (r1, r2) = unlink-Ring xs ys rr in let (n, p) = next-last r2.chain in rw ne (r1, n)
