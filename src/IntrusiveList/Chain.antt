-- ===== src/IntrusiveList/Chain.antt =====
-- Doubly linked paths and rings, and how a change of two links redirects a path.
use hydrosphere.Common.{◌≡◌, ◌∙◌, ◌≢◌, true, List, [], ◌∷◌, ◌++◌, arith, ==_refl, has, Distinct}
use hydrosphere.IntrusiveList.{Ptr, Store}

-- From `a` the `next` links lead through `xs` to `b`, and the `prev` links lead back.
pub data Chain (h : Store) : Ptr → List Ptr → Ptr → Type 0 where
  direct : {a b : Ptr} → h.next a ≡ b → h.prev b ≡ a → Chain h a [] b
  through :
      {a x b : Ptr} {xs : List Ptr}
      → h.next a ≡ x
      → h.prev x ≡ a
      → Chain h x xs b
      → Chain h a (x ∷ xs) b

-- The ring with root `r` holds the elements `xs` in this order.
pub record Ring (h : Store) (r : Ptr) (xs : List Ptr) : Type 0 where
  pub chain : Chain h r xs r
  pub distinct : Distinct (r ∷ xs)

pub Chain-split :
    {h : Store} {a b : Ptr} (xs : List Ptr) {x : Ptr} {ys : List Ptr}
    → Chain h a (xs ++ x ∷ ys) b
    → Chain h a xs x × Chain h x ys b
Chain-split [] (through n p c) = (direct n p, c)
Chain-split (y ∷ xs) (through n p c) = let (c1, c2) = Chain-split xs c in (through n p c1, c2)

pub Chain-join :
    {h : Store} {a b x : Ptr} {xs ys : List Ptr}
    → Chain h a xs x
    → Chain h x ys b
    → Chain h a (xs ++ x ∷ ys) b
Chain-join (direct n p) c = through n p c
Chain-join (through n p c1) c = through n p (Chain-join c1 c)

-- The predecessor of the end is the start or an element.
pub prev-mem :
    {h : Store} {a b : Ptr} {xs : List Ptr} → Chain h a xs b → has (h.prev b) (a ∷ xs) ≡ true
prev-mem (direct n p) = rw (p, ==_refl)
prev-mem (through n p c) = ground (arith, prev-mem c)

pub frame :
    {h g : Store} {a b : Ptr} {xs : List Ptr}
    → Chain h a xs b
    → ((y : Ptr) → has y (a ∷ xs) ≡ true → g.next y ≡ h.next y)
    → ((y : Ptr) → has y (b ∷ xs) ≡ true → g.prev y ≡ h.prev y)
    → Chain g a xs b
frame {a = a} {b = b} (direct n p) sn sp =
    direct (sn a (ground arith) ∙ n) (sp b (ground arith) ∙ p)
frame {a = a} (through {x = x} n p c) sn sp =
    through (sn a (ground arith) ∙ n) (sp x (ground arith) ∙ p)
      (frame c (λ y i. sn y (ground arith)) (λ y i. sp y (ground arith)))

-- If only the last `next` link changes, to `c`, and `c` points back, the path ends in `c`.
pub redirect :
    {h g : Store} {a b : Ptr} {xs : List Ptr} (c : Ptr)
    → Chain h a xs b
    → Distinct (a ∷ xs)
    → g.next (h.prev b) ≡ c
    → g.prev c ≡ h.prev b
    → ((y : Ptr) → has y (a ∷ xs) ≡ true → y ≢ h.prev b → g.next y ≡ h.next y)
    → ((y : Ptr) → has y xs ≡ true → g.prev y ≡ h.prev y)
    → Chain g a xs c
redirect c (direct n p) d gn gp sn sp = direct (rw p at gn) (gp ∙ p)
redirect {a = a} c (through {x = x} n p ch) (out, d) gn gp sn sp =
    through (sn a (ground arith) (ground (arith, prev-mem ch)) ∙ n) (sp x (ground arith) ∙ p)
      (redirect c ch d gn gp (λ y i ne. sn y (ground arith) ne) (λ y i. sp y (ground arith)))
