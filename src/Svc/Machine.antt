-- ===== src/Svc/Machine.antt =====
-- What the stubs of libhydrosphere/source/aarch64/svc.s and source/aarch32/svc.s run on: registers, a
-- stack pointer, memory, and the kernel behind the instruction `svc`. The memory has the 32-bit word at
-- each address; every access of the stubs is to whole words, one or two.
use hydrosphere.Common.{ℕ, ◌+◌, ◌*◌, ◌/◌, ◌%◌, ◌^◌, Option, ◌==◌, if◌then◌else◌}

pub record Cpu : Type 0 where
  pub x : ℕ → ℕ  -- the general registers
  pub sp : ℕ
  pub memory : ℕ → ℕ

-- The kernel, entered with the number of a call: it may come back, with other registers and memory.
pub record Kernel : Type 1 where
  pub State : Type 0
  pub svc : State → (id : ℕ) → Cpu → Option (State × Cpu)

abbrev pub update : (ℕ → ℕ) → ℕ → ℕ → ℕ → ℕ
update f a v b = if b == a then v else f b

-- A register `w1` is the low half of `x1`.
abbrev pub store_word : (ℕ → ℕ) → ℕ → ℕ → ℕ → ℕ
store_word m a v = update m a (v % 2 ^ 32)

abbrev pub store_double : (ℕ → ℕ) → ℕ → ℕ → ℕ → ℕ
store_double m a v = update (update m a (v % 2 ^ 32)) (a + 4) (v / 2 ^ 32)

abbrev pub load_double : (ℕ → ℕ) → ℕ → ℕ
load_double m a = m a + 2 ^ 32 * m (a + 4)

abbrev pub set_x : ℕ → ℕ → Cpu → Cpu
set_x r v c = record c { x = update c.x r v }
