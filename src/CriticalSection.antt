-- ===== src/CriticalSection.antt =====
-- The lock of libhydrosphere/source/common/os/os_critical_section.cpp: one 32-bit word that holds
-- the handle of the owner, and in bit 30 whether a thread waits for it in the kernel.
-- A thread runs one atomic access or one system call at a time; `Pc` says where it stands.
pub mod System
pub mod Invariant
pub mod Exclusion
pub mod Lock
pub mod Sequential
pub mod Guarded
use hydrosphere.Common.{
  ℕ, zero, suc, ◌+◌, ◌-◌, ◌*◌, ◌/◌, ◌%◌, ◌^◌, Bool, true, false, Option, none, some, ◌==◌,
  if◌then◌else◌, bit_at,
}

-- HAS_LISTENERS, 0x40000000
abbrev pub listeners_bit : ℕ
listeners_bit = 2 ^ 30

-- expected_value & HAS_LISTENERS, as a condition
abbrev pub has_listeners : ℕ → Bool
has_listeners v = bit_at v 30 == 1

-- expected_value & ~HAS_LISTENERS
abbrev pub without_listeners : ℕ → ℕ
without_listeners v = v - bit_at v 30 * 2 ^ 30

-- expected_value | HAS_LISTENERS
abbrev pub with_listeners : ℕ → ℕ
with_listeners v = v + (1 - bit_at v 30) * 2 ^ 30

-- What `atomic_compare_exchange_strong` leaves: its result, `expected_value`, and the word.
pub record Exchanged : Type 0 where
  pub swapped : Bool
  pub expected : ℕ
  pub image : ℕ

abbrev pub compare_exchange : (image expected desired : ℕ) → Exchanged
compare_exchange v expected desired =
    if v == expected
    then record { swapped = true; expected = expected; image = desired }
    else record { swapped = false; expected = v; image = v }

pub data Pc : Type 0 where
  outside : Pc  -- in no call, and not the owner
  entering : Pc  -- at the first exchange of the loop in `Enter`
  marking : (expected : ℕ) → Pc  -- at the second one, which sets the bit
  arbitrating : (owner : ℕ) → Pc  -- at a call of `ArbitrateLock`
  blocked : Pc  -- in the kernel, in that call
  trying : Pc  -- at the exchange of `TryEnter`
  inside : Pc  -- after `Enter`, or `TryEnter` with true
  leaving : Pc  -- at the exchange of `Leave`
  unlocking : Pc  -- at the call of `ArbitrateUnlock`

-- The atomic access at which the thread stands, and the branch that follows it.
unfoldable pub run : (self : ℕ) → Pc → ℕ → Pc × ℕ
run self entering v =
    let c = compare_exchange v 0 self in
    if c.swapped
    then (inside, c.image)
    else (if without_listeners c.expected == self
        then (inside, c.image)
        else (if has_listeners c.expected
            then (arbitrating (without_listeners c.expected), c.image)
            else (marking c.expected, c.image)))
run self (marking e) v =
    let c = compare_exchange v e (with_listeners e) in
    if c.swapped then (arbitrating c.expected, c.image) else (entering, c.image)
run self trying v =
    let c = compare_exchange v 0 self in
    if c.swapped
    then (inside, c.image)
    else (if without_listeners c.expected == self then (inside, c.image) else (outside, c.image))
run self leaving v =
    let c = compare_exchange v self 0 in
    if c.swapped
    then (outside, c.image)
    else (if has_listeners c.expected then (unlocking, c.image) else (outside, c.image))
run self p v = (p, v)

-- `IsLockedByCurrentThread`
unfoldable pub is_locked_by_current_thread : (self image : ℕ) → Bool
is_locked_by_current_thread self v = without_listeners v == self
