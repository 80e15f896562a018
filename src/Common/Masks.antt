-- ===== src/Common/Masks.antt =====
-- Clearing the low bits of a word: `x & ~(2 ^ k - 1)` by the native `bit_and`.
use Prim.Native.Nat.{
  ℕ, zero, suc, ◌+◌, ◌-◌, ◌*◌, ◌/◌, ◌^◌, ◌≤◌, ◌<◌, min, bit_and, digits, bit_and-bitwise,
}
use mathlib.Core.Path.{◌≡◌, refl, ◌∙◌, ap}
use native.Mathlib.Nat.{pow-succ', div-div-eq-div-mul, zero-div}
use native.Mathlib.Omega.{arith}

-- `m` ones, and `m` ones followed by `k` zeros, in binary.
ones : ℕ → ℕ
ones zero = 0
ones (suc m) = ones m * 2 + 1

mask : ℕ → ℕ → ℕ
mask m zero = ones m
mask m (suc k) = mask m k * 2

ones_lem : (m : ℕ) → ones m + 1 ≡ 2 ^ m
unfolding ones
ones_lem zero = refl
ones_lem (suc m) = omega (arith, ones_lem m, pow-succ' 2 m)

mask_lem : (m k : ℕ) → mask m k + 2 ^ k ≡ 2 ^ m * 2 ^ k
unfolding mask
mask_lem m zero = omega (arith, ones_lem m)
mask_lem m (suc k) =
    omega (arith, mask_lem m k, pow-succ' 2 k, ap (λ (t : ℕ). 2 ^ m * t) (pow-succ' 2 k))

abbrev and_digits : ℕ → ℕ → ℕ → ℕ
and_digits = digits (λ b. zero) min

and-ones : (n a m : ℕ) → a ≤ n → a < 2 ^ m → and_digits n a (ones m) ≡ a
unfolding ones
and-ones zero a m le lt = omega arith
and-ones (suc n) zero m le lt = refl
and-ones (suc n) (suc a) zero le lt = absurd (omega arith)
and-ones (suc n) (suc a) (suc m) le lt =
    let half : (ones m * 2 + 1) / 2 ≡ ones m = omega arith in
    rw half (omega (arith, and-ones n (suc a / 2) m (omega arith) (omega (arith, pow-succ' 2 m))))

-- a / 2 ^ k * 2 ^ k, a digit at a time.
clear_step : (a k : ℕ) → (a / 2) / 2 ^ k * 2 ^ k * 2 ≡ a / 2 ^ suc k * 2 ^ suc k
clear_step a k = rw (div-div-eq-div-mul a 2 (2 ^ k), pow-succ' 2 k) (omega arith)

and-mask : (n a m k : ℕ) → a ≤ n → a < 2 ^ m * 2 ^ k → and_digits n a (mask m k) ≡ a / 2 ^ k * 2 ^ k
unfolding mask
and-mask n a m zero le lt = and-ones n a m le (omega arith) ∙ omega arith
and-mask zero zero m (suc k) le lt = rw zero-div (omega arith)
and-mask zero (suc a) m (suc k) le lt = absurd (omega arith)
and-mask (suc n) zero m (suc k) le lt = rw zero-div (omega arith)
and-mask (suc n) (suc a) m (suc k) le lt =
    let half : mask m k * 2 / 2 ≡ mask m k = omega arith in
    let wide : 2 ^ m * 2 ^ suc k ≡ 2 ^ m * 2 ^ k * 2 =
      omega (arith, ap (λ (t : ℕ). 2 ^ m * t) (pow-succ' 2 k)) in
    rw half
      (omega (arith, and-mask n (suc a / 2) m k (omega arith) (omega arith), clear_step (suc a) k))

-- A word masked by the complement of `2 ^ k - 1` is rounded down to a multiple of `2 ^ k`.
pub bit_and-complement :
    (a m k : ℕ)
    → a < 2 ^ m * 2 ^ k
    → bit_and a (2 ^ m * 2 ^ k - 1 - (2 ^ k - 1)) ≡ a / 2 ^ k * 2 ^ k
bit_and-complement a m k lt =
    let pos : 0 < 2 ^ k = omega (arith, ones_lem k) in
    let same : 2 ^ m * 2 ^ k - 1 - (2 ^ k - 1) ≡ mask m k = omega (arith, mask_lem m k) in
    rw same (bit_and-bitwise a (mask m k) ∙ and-mask a a m k (omega arith) lt)

-- The same with the power and the modulus named.
pub bit_and_clear :
    (a modulus al m k : ℕ)
    → al ≡ 2 ^ k
    → 2 ^ m * 2 ^ k ≡ modulus
    → a < modulus
    → bit_and a (modulus - 1 - (al - 1)) ≡ a / al * al
bit_and_clear a modulus al m k p w lt = rw (p, ← w) (bit_and-complement a m k (omega arith))
