-- ===== src/Common/Words.antt =====
-- Machine words: the moduli, and the masks that the sources test, in a form read by `omega`.
use Prim.Native.Nat.{ℕ, ◌/◌, ◌%◌, ◌^◌}

abbrev pub u32 : ℕ → ℕ
u32 n = n % 2 ^ 32

-- `size_t` and `uintptr_t` of the AArch64 target.
abbrev pub u64 : ℕ → ℕ
u64 n = n % 2 ^ 64

-- Bit k of x.
abbrev pub bit_at : ℕ → ℕ → ℕ
bit_at x k = x / 2 ^ k % 2
