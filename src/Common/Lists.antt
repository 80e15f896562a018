-- ===== src/Common/Lists.antt =====
-- Lists of addresses: membership as a test, distinctness, disjointness; lengths.
use Prim.Native.Nat.{ℕ, suc}
use mathlib.Core.Path.{◌≡◌, refl}
use mathlib.Core.Bool.{Bool, true, false, ◌||◌}
use mathlib.Core.List.{List, [], ◌∷◌, ◌++◌}
use native.Mathlib.Omega.{arith}
use hydrosphere.Common.Tests.{◌==◌}

module _ {ℓ} {A : Type ℓ} where
  abbrev pub length : List A → ℕ
  length [] = 0
  length (x ∷ xs) = suc (length xs)

abbrev pub has : ℕ → List ℕ → Bool
has a [] = false
has a (x ∷ xs) = (a == x) || has a xs

abbrev pub Distinct : List ℕ → Type 0
Distinct [] = Unit {0}
Distinct (x ∷ xs) = (has x xs ≡ false) × Distinct xs

abbrev pub Disjoint : List ℕ → List ℕ → Type 0
Disjoint xs ys = (a : ℕ) → has a xs ≡ true → has a ys ≡ false

pub has-append : (a : ℕ) (xs ys : List ℕ) → has a (xs ++ ys) ≡ (has a xs || has a ys)
has-append a [] ys = refl
has-append a (x ∷ xs) ys = ground (arith, has-append a xs ys)

-- Membership in lists that are joined, for `grind`.
pub ruleset membership = (arith, has-append)

pub Distinct-append :
    (xs ys : List ℕ) → Distinct xs → Distinct ys → Disjoint xs ys → Distinct (xs ++ ys)
Distinct-append [] ys dx dy apart = dy
Distinct-append (x ∷ xs) ys (out, dx) dy apart =
    (grind (membership, apart x), Distinct-append xs ys dx dy (λ a i. ground (arith, apart a)))

pub Distinct-append_left : (xs ys : List ℕ) → Distinct (xs ++ ys) → Distinct xs
Distinct-append_left [] ys d = tt
Distinct-append_left (x ∷ xs) ys (out, d) = (grind membership, Distinct-append_left xs ys d)

pub Distinct-append_right : (xs ys : List ℕ) → Distinct (xs ++ ys) → Distinct ys
Distinct-append_right [] ys d = d
Distinct-append_right (x ∷ xs) ys (out, d) = Distinct-append_right xs ys d

pub Disjoint-of_append : (xs ys : List ℕ) → Distinct (xs ++ ys) → Disjoint xs ys
Disjoint-of_append [] ys d a i = ground arith
Disjoint-of_append (x ∷ xs) ys (out, d) a i =
    ground (arith, has-append x xs ys, Disjoint-of_append xs ys d a)
