-- ===== src/Barrier/Calls.antt =====
-- `AwaitBarrier` with its lock, as one thread sees it.
use hydrosphere.Common.{
  ℕ, ◌+◌, ◌==◌, ◌≡◌, inl, inr, refl, true, false, u32, Bool-cases, if◌then◌else◌,
}
use hydrosphere.Svc.{is_ok, returns}
use hydrosphere.Svc
use hydrosphere.CriticalSection.System.{IsHandle}
use hydrosphere.CriticalSection.Guarded.{lone_caller, guarded_alone}
use hydrosphere.Barrier.{Barrier, barrier_lock, await_barrier}

-- The barrier that a thread `self` leaves when it goes to sleep.
abbrev pub slept_on : (self : ℕ) → Barrier → Barrier
slept_on self b = record b { arrive_count = u32 (b.arrive_count + 1); critical_section = self }

-- A thread that finds the lock free, and whose sleep ends well with the lock handed back, returns
-- from `AwaitBarrier` with the lock free. It has called `Broadcast` exactly if its arrival makes the
-- count, on 32 bits, the number to wait for; then it leaves the rest of the barrier as it was, and
-- else as it finds it after the sleep.
pub await_barrier-returns :
    (self fuel : ℕ) (unlocked : ℕ → ℕ) (sleep : Barrier → Svc.Result × Barrier) (b : Barrier)
    → IsHandle self
    → b.critical_section ≡ 0
    → is_ok (sleep (slept_on self b)).0 ≡ true
    → (sleep (slept_on self b)).1.critical_section ≡ self
    → let met = u32 (b.arrive_count + 1) == b.number_to_wait in
      await_barrier (lone_caller self fuel unlocked) sleep b
      ≡ returns met (record (if met then slept_on self b else (sleep (slept_on self b)).1) {
        critical_section = 0;
      })
unfolding await_barrier
await_barrier-returns self fuel unlocked sleep b owner idle ok back =
    elim (Bool-cases (u32 (b.arrive_count + 1) == b.number_to_wait)) [
      | inl met ↦ rw met (
          guarded_alone barrier_lock self fuel unlocked _ b (slept_on self b) true owner idle
            (rw met refl) refl)
      | inr alone ↦ rw alone (
          guarded_alone barrier_lock self fuel unlocked _ b (sleep (slept_on self b)).1 false owner
            idle (rw (alone, ok) refl) back)
    ]
