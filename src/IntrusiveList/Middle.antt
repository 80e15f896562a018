-- ===== src/IntrusiveList/Middle.antt =====
-- The trade of successors in the middle of a ring.
use hydrosphere.Common.{
  membership, List, ◌∷◌, ◌++◌, arith, Disjoint, Distinct-append, Distinct-append_left,
  Distinct-append_right, Disjoint-of_append,
}
use hydrosphere.IntrusiveList.{Ptr, Store}
use hydrosphere.IntrusiveList.Chain.{Ring, Chain-split, Chain-join, prev-mem, frame, redirect}
use hydrosphere.IntrusiveList.Exchange.{Exchange}

Disjoint-append_right :
    (xs ys zs : List Ptr) → Disjoint xs ys → Disjoint xs zs → Disjoint xs (ys ++ zs)
Disjoint-append_right xs ys zs p q a i = grind (membership, p a, q a)

Disjoint-symm : (xs ys : List Ptr) → Disjoint xs ys → Disjoint ys xs
Disjoint-symm xs ys p a i = ground (arith, p a)

module _ {h g : Store} {r : Ptr} where
  -- The ring of `t` goes in before the element `p` of the ring of `r`.
  pub merge_before :
      {t p : Ptr} (xs ys zs : List Ptr)
      → Ring h r (xs ++ p ∷ zs)
      → Ring h t ys
      → Disjoint (r ∷ xs ++ p ∷ zs) (t ∷ ys)
      → Exchange h g p t
      → Ring g r (xs ++ (t ∷ ys ++ p ∷ zs))
  merge_before {t} {p} xs ys zs rr rt apart x =
      let (c1, c2) = Chain-split xs rr.chain in
      let d1 = Distinct-append_left (r ∷ xs) (p ∷ zs) rr.distinct in
      let d2 = Distinct-append_right (r ∷ xs) (p ∷ zs) rr.distinct in
      let front_back = Disjoint-of_append (r ∷ xs) (p ∷ zs) rr.distinct in
      let front_new : Disjoint (r ∷ xs) (t ∷ ys) = λ a i. apart a (grind membership) in
      let new_back : Disjoint (t ∷ ys) (p ∷ zs) = λ a i. grind (membership, apart a) in
      record {
        chain =
            Chain-join
              (redirect t c1 d1 x.next_s x.prev_e
                (λ y i n. x.next_same y n (ground (arith, front_new y, prev-mem rt.chain)))
                (λ y i. x.prev_same y (ground (arith, front_back y)) (ground (arith, front_new y))))
              (Chain-join
                (redirect p rt.chain rt.distinct x.next_e x.prev_s
                  (λ y i n. x.next_same y (ground (arith, front_new (h.prev p), prev-mem c1)) n)
                  (λ y i. x.prev_same y (ground (arith, new_back y)) (ground arith)))
                (frame c2
                  (λ y i.
                    x.next_same y (ground (arith, front_back (h.prev p), prev-mem c1))
                      (ground (arith, new_back (h.prev t), prev-mem rt.chain)))
                  (λ y i.
                    x.prev_same y (ground (arith, front_back r))
                      (ground (arith, new_back t, front_new r)))));
        distinct =
            Distinct-append (r ∷ xs) (t ∷ ys ++ p ∷ zs) d1
              (Distinct-append (t ∷ ys) (p ∷ zs) rt.distinct d2 new_back)
              (Disjoint-append_right (r ∷ xs) (t ∷ ys) (p ∷ zs) front_new front_back);
      }

  -- The part of a ring from `t` up to, and without, `e` becomes a ring of its own.
  pub split_middle :
      {t e : Ptr} (xs ys zs : List Ptr)
      → Ring h r (xs ++ (t ∷ ys ++ e ∷ zs))
      → Exchange h g t e
      → Ring g r (xs ++ e ∷ zs) × Ring g t ys
  split_middle {t} {e} xs ys zs rr x =
      let (c1, c23) = Chain-split xs rr.chain in
      let (c2, c3) = Chain-split ys c23 in
      let d1 = Distinct-append_left (r ∷ xs) (t ∷ ys ++ e ∷ zs) rr.distinct in
      let d23 = Distinct-append_right (r ∷ xs) (t ∷ ys ++ e ∷ zs) rr.distinct in
      let d2 = Distinct-append_left (t ∷ ys) (e ∷ zs) d23 in
      let d3 = Distinct-append_right (t ∷ ys) (e ∷ zs) d23 in
      let a1 = Disjoint-of_append (r ∷ xs) (t ∷ ys ++ e ∷ zs) rr.distinct in
      let a23 = Disjoint-of_append (t ∷ ys) (e ∷ zs) d23 in
      let a12 : Disjoint (r ∷ xs) (t ∷ ys) = λ a i. grind (membership, a1 a) in
      let a13 : Disjoint (r ∷ xs) (e ∷ zs) = λ a i. grind (membership, a1 a) in
      (
        record {
          chain =
              Chain-join
                (redirect e c1 d1 x.next_s x.prev_e
                  (λ y i n. x.next_same y n (ground (arith, a12 y, prev-mem c2)))
                  (λ y i. x.prev_same y (ground (arith, a12 y)) (ground (arith, a13 y))))
                (frame c3
                  (λ y i.
                    x.next_same y (ground (arith, a13 (h.prev t), prev-mem c1))
                      (ground (arith, a23 (h.prev e), prev-mem c2)))
                  (λ y i. x.prev_same y (ground (arith, a23 t, a12 r)) (ground (arith, a13 r))));
          distinct = Distinct-append (r ∷ xs) (e ∷ zs) d1 d3 a13;
        },
        record {
          chain =
              redirect t c2 d2 x.next_e x.prev_s
                (λ y i n. x.next_same y (ground (arith, a12 (h.prev t), prev-mem c1)) n)
                (λ y i. x.prev_same y (ground arith) (ground (arith, a23 y)));
          distinct = d2;
        },
      )
