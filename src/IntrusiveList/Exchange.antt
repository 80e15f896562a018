-- ===== src/IntrusiveList/Exchange.antt =====
-- Linking and unlinking are one operation on rings: the predecessors of two elements trade their
-- successors. On one ring this cuts out a part; on two rings it joins them.
use hydrosphere.Common.{
  ◌≡◌, ◌≢◌, false, List, ◌∷◌, ◌++◌, arith, has, Disjoint, Distinct-append, Distinct-append_left,
  Distinct-append_right, Disjoint-of_append,
}
use hydrosphere.IntrusiveList.{Ptr, Store, link_prev_range, link_next_range, unlink_range}
use hydrosphere.IntrusiveList.Chain.{Ring, Chain-split, Chain-join, prev-mem, frame, redirect}

-- `g` is `h` after the predecessors of `s` and `e` have traded their successors.
pub record Exchange (h g : Store) (s e : Ptr) : Type 0 where
  pub next_s : g.next (h.prev s) ≡ e
  pub next_e : g.next (h.prev e) ≡ s
  pub prev_s : g.prev s ≡ h.prev e
  pub prev_e : g.prev e ≡ h.prev s
  pub next_same : (y : Ptr) → y ≢ h.prev s → y ≢ h.prev e → g.next y ≡ h.next y
  pub prev_same : (y : Ptr) → y ≢ s → y ≢ e → g.prev y ≡ h.prev y

pub Exchange-symm : {h g : Store} {s e : Ptr} → Exchange h g s e → Exchange h g e s
Exchange-symm x = record {
  next_s = x.next_e;
  next_e = x.next_s;
  prev_s = x.prev_e;
  prev_e = x.prev_s;
  next_same = λ y n m. x.next_same y m n;
  prev_same = λ y n m. x.prev_same y m n;
}

module _ (h : Store) (s e : Ptr) (ne : s ≢ e) (ne_prev : h.prev s ≢ h.prev e) where
  pub link_prev_range-Exchange : Exchange h (link_prev_range s e e h) s e
  unfolding link_prev_range
  link_prev_range-Exchange = record {
    next_s = ground arith;
    next_e = ground arith;
    prev_s = ground arith;
    prev_e = ground arith;
    next_same = λ y n m. ground arith;
    prev_same = λ y n m. ground arith;
  }

  pub unlink_range-Exchange : Exchange h (unlink_range s e h) s e
  unfolding unlink_range
  unlink_range-Exchange = record {
    next_s = ground arith;
    next_e = ground arith;
    prev_s = ground arith;
    prev_e = ground arith;
    next_same = λ y n m. ground arith;
    prev_same = λ y n m. ground arith;
  }

-- `LinkNext` of `this` is a trade at the successor of `this`.
pub link_next_range-Exchange :
    (h : Store) (this s e : Ptr)
    → h.next this ≡ s
    → h.prev s ≡ this
    → s ≢ e
    → this ≢ h.prev e
    → Exchange h (link_next_range this e e h) s e
unfolding link_next_range
link_next_range-Exchange h this s e hn hp ne np = record {
  next_s = ground arith;
  next_e = ground arith;
  prev_s = ground arith;
  prev_e = ground arith;
  next_same = λ y n m. ground arith;
  prev_same = λ y n m. ground arith;
}

module _ {h g : Store} {r t : Ptr} where
  -- Two disjoint rings become one: `t` and its elements come last in the ring of `r`.
  pub merge :
      (xs ys : List Ptr)
      → Ring h r xs
      → Ring h t ys
      → Disjoint (r ∷ xs) (t ∷ ys)
      → Exchange h g r t
      → Ring g r (xs ++ t ∷ ys)
  merge xs ys rr rt apart x = record {
    chain =
        Chain-join
          (redirect t rr.chain rr.distinct x.next_s x.prev_e
            (λ y i n. x.next_same y n (ground (arith, apart y, prev-mem rt.chain)))
            (λ y i. x.prev_same y (ground arith) (ground (arith, apart y))))
          (redirect r rt.chain rt.distinct x.next_e x.prev_s
            (λ y i n. x.next_same y (ground (arith, apart y, prev-mem rr.chain)) n)
            (λ y i. x.prev_same y (ground (arith, apart y)) (ground arith)));
    distinct = Distinct-append (r ∷ xs) (t ∷ ys) rr.distinct rt.distinct apart;
  }

  -- The part of a ring from `t` to the end becomes a ring of its own.
  pub split_end :
      (xs ys : List Ptr) → Ring h r (xs ++ t ∷ ys) → Exchange h g t r → Ring g r xs × Ring g t ys
  split_end xs ys rr x =
      let (c1, c2) = Chain-split xs rr.chain in
      let d1 = Distinct-append_left (r ∷ xs) (t ∷ ys) rr.distinct in
      let d2 = Distinct-append_right (r ∷ xs) (t ∷ ys) rr.distinct in
      let apart = Disjoint-of_append (r ∷ xs) (t ∷ ys) rr.distinct in
      (
        record {
          chain =
              redirect r c1 d1 x.next_s x.prev_e
                (λ y i n. x.next_same y n (ground (arith, apart y, prev-mem c2)))
                (λ y i. x.prev_same y (ground (arith, apart y)) (ground arith));
          distinct = d1;
        },
        record {
          chain =
              redirect t c2 d2 x.next_e x.prev_s
                (λ y i n. x.next_same y (ground (arith, apart (h.prev t), prev-mem c1)) n)
                (λ y i. x.prev_same y (ground arith) (ground (arith, apart y)));
          distinct = d2;
        },
      )

-- A ring that holds neither the two elements nor their predecessors stays as it is.
pub Exchange-frame :
    {h g : Store} {s e z : Ptr} {ws : List Ptr}
    → Exchange h g s e
    → Ring h z ws
    → (has s (z ∷ ws) ≡ false) × (has (h.prev s) (z ∷ ws) ≡ false)
    → (has e (z ∷ ws) ≡ false) × (has (h.prev e) (z ∷ ws) ≡ false)
    → Ring g z ws
Exchange-frame x rz os oe = record {
  chain =
      frame rz.chain (λ y i. x.next_same y (ground arith) (ground arith))
        (λ y i. x.prev_same y (ground arith) (ground arith));
  distinct = rz.distinct;
}
