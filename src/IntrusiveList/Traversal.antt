-- ===== src/IntrusiveList/Traversal.antt =====
-- The loops of `IntrusiveList`: `size` and `clear` end, and what they return.
use hydrosphere.Common.{
  ℕ, zero, suc, ◌+◌, ◌<◌, ◌≡◌, ◌∙◌, refl, true, false, some, List, [], ◌∷◌, ◌++◌, arith, ap, ◌≢◌,
  ◌==◌, eq_of_==, Bool-cases, inl, inr, length, has, has-append, Disjoint, Distinct-append_right,
  u32, ◌^◌,
}
use hydrosphere.IntrusiveList.{Ptr, Store, unlink, pop_front, size_from, size, empty, clear}
use hydrosphere.IntrusiveList.Chain.{Chain, direct, through, Ring, Chain-split, prev-mem}
use hydrosphere.IntrusiveList.Exchange.{Exchange-frame}
use hydrosphere.IntrusiveList.Laws.{next-mid, next-last, unlink-Exchange, pop_front-Ring, empty_iff}

size_from-length :
    {h : Store} {a r : Ptr} {xs : List Ptr} (fuel k : ℕ)
    → Chain h a xs r
    → has r xs ≡ false
    → length xs < fuel
    → k + length xs < 2 ^ 31
    → size_from fuel h r (h.next a) k ≡ some (k + length xs)
unfolding size_from
size_from-length zero k c out enough fits = absurd (omega arith)
size_from-length (suc fuel) k (direct n p) out enough fits = ground arith
size_from-length (suc fuel) k (through n p c) out enough fits =
    let small : u32 (k + 1) ≡ k + 1 = omega arith in
    ground (arith, size_from-length fuel (k + 1) c (ground arith) (omega arith) (omega arith))

-- With fuel above the number of elements, `size` ends and returns the number of elements, which must
-- fit in an `int`.
pub size-length :
    {h : Store} {r : Ptr} (fuel : ℕ) (xs : List Ptr)
    → Ring h r xs
    → length xs < fuel
    → length xs < 2 ^ 31
    → size fuel h r ≡ some (length xs)
unfolding size
size-length fuel xs rr enough fits =
    size_from-length fuel 0 rr.chain rr.distinct.0 enough (omega arith) ∙ ap some (omega arith)

cons-ne-nil : {x : Ptr} {xs : List Ptr} → x ∷ xs ≢ []
cons-ne-nil e = cc

-- Unlinking an element of one list changes no list that shares no element with it.
pub unlink-frame :
    {h : Store} {r z : Ptr} (x : Ptr) (xs ys ws : List Ptr)
    → Ring h r (xs ++ x ∷ ys)
    → Ring h z ws
    → Disjoint (r ∷ xs ++ x ∷ ys) (z ∷ ws)
    → Ring (unlink x h) z ws
unlink-frame {h} {r} x xs [] ws rr rz apart =
    let (c1, c2) = Chain-split xs rr.chain in
    let (n, p) = next-last c2 in
    let back = has-append (h.prev x) (r ∷ xs) (x ∷ []) in
    let mid = has-append x (r ∷ xs) (x ∷ []) in
    Exchange-frame
      (unlink-Exchange r xs [] rr n p (ground (arith, rr.distinct, has-append r xs (x ∷ [])))) rz
      (ground (arith, apart x, mid), ground (arith, apart (h.prev x), back, prev-mem c1))
      (ground (arith, apart r), ground (arith, apart x, mid))
unlink-frame {h} {r} x xs (e ∷ zs) ws rr rz apart =
    let (c1, c2) = Chain-split xs rr.chain in
    let (n, p) = next-mid c2 in
    let d = Distinct-append_right (r ∷ xs) (x ∷ e ∷ zs) rr.distinct in
    let back = has-append (h.prev x) (r ∷ xs) (x ∷ e ∷ zs) in
    let mid = has-append x (r ∷ xs) (x ∷ e ∷ zs) in
    Exchange-frame (unlink-Exchange e xs (e ∷ zs) rr n p (ground arith)) rz
      (ground (arith, apart x, mid), ground (arith, apart (h.prev x), back, prev-mem c1))
      (ground (arith, apart e, has-append e (r ∷ xs) (x ∷ e ∷ zs)), ground (arith, apart x, mid))

empty-false : {h : Store} {r x : Ptr} {xs : List Ptr} → Ring h r (x ∷ xs) → empty h r ≡ false
empty-false {h} {r} {x} {xs} rr = elim (Bool-cases (empty h r)) [
  | inl e ↦ absurd (cons-ne-nil ((empty_iff (x ∷ xs) rr).0 e))
  | inr e ↦ e
]

-- What `clear` leaves in the store `g`: an empty list, each of its former elements as a ring of its
-- own, and every ring that shares no element with the list as it was in `h`.
pub record Cleared (h g : Store) (r : Ptr) (xs : List Ptr) : Type 0 where
  pub emptied : Ring g r []
  pub single : (y : Ptr) → has y xs ≡ true → Ring g y []
  pub same : (z : Ptr) (ws : List Ptr) → Ring h z ws → Disjoint (r ∷ xs) (z ∷ ws) → Ring g z ws

Cleared-pop_front :
    {h g : Store} {r x : Ptr} {xs : List Ptr}
    → Ring h r (x ∷ xs)
    → Cleared (pop_front r h) g r xs
    → Cleared h g r (x ∷ xs)
unfolding pop_front
Cleared-pop_front {h} {g} {r} {x} {xs} rr done =
    let (n, p) = next-mid rr.chain in
    let (f, r1, r2) = pop_front-Ring xs rr in
    let alone : Disjoint (r ∷ xs) (x ∷ []) = λ a i. ground (arith, rr.distinct) in
    record {
      emptied = done.emptied;
      single = λ y i. elim (Bool-cases (y == x)) [
        | inl e ↦ rw (eq_of_== y x e) (done.same x [] r2 alone)
        | inr ne ↦ done.single y (ground arith)
      ];
      same = λ z ws rz apart.
          done.same z ws (rw n (unlink-frame x [] xs ws rr rz apart))
            (λ a i. ground (arith, apart a));
    }

-- With fuel above the number of elements, `clear` ends, for a list with no elements too. It leaves the
-- list empty, each former element as a ring of its own, and every ring that shares no element with the
-- list as it was.
pub clear-Ring :
    (fuel : ℕ) {h : Store} {r : Ptr} (xs : List Ptr)
    → Ring h r xs
    → length xs < fuel
    → (g : Store) × (clear fuel r h ≡ some g) × Cleared h g r xs
unfolding clear
clear-Ring zero xs rr enough = absurd (omega arith)
clear-Ring (suc fuel) {h} [] rr enough = (
  h,
  rw ((empty_iff [] rr).1 refl) refl,
  record { emptied = rr; single = λ y i. cc; same = λ z ws rz apart. rz },
)
clear-Ring (suc fuel) {h} {r} (x ∷ xs) rr enough =
    let (f, r1, r2) = pop_front-Ring xs rr in
    let (g, e, done) = clear-Ring fuel {h = pop_front r h} {r = r} xs r1 (omega arith) in
    (g, rw (empty-false rr) e, Cleared-pop_front rr done)
