-- ===== src/Barrier.antt =====
-- The barrier of libhydrosphere/source/common/os/os_barrier_api.cpp. `arrive` is what a call of
-- `AwaitBarrier` does from `Enter` until it wakes the others or goes to sleep, in one hold of the
-- lock; Arrivals takes it as one step among those of other threads.
pub mod Calls
pub mod Arrivals
pub mod Threads
pub mod Safety
use hydrosphere.Common.{ℕ, ◌+◌, Bool, true, false, ◌==◌, ◌≡◌, refl, if◌then◌else◌, u32}
use hydrosphere.Svc.{Result, Ending, returns, aborts, unfinished}
use hydrosphere.CriticalSection.Guarded.{Caller, Lockable, guarded}
use hydrosphere.ConditionVariable.{returned, aborted, waiting, wait}

-- enum BarrierState
abbrev pub uninitialized : ℕ
uninitialized = 0

abbrev pub initialized : ℕ
initialized = 1

pub record Barrier : Type 0 where
  pub state : ℕ
  pub arrive_count : ℕ  -- uint32_t
  pub number_to_wait : ℕ  -- uint32_t
  pub critical_section : ℕ
  pub condition_variable : ℕ

abbrev pub barrier_lock : Lockable Barrier
barrier_lock = record {
  word = λ b. b.critical_section;
  with_word = λ v b. record b { critical_section = v };
  word-with_word = λ v b. refl;
}

-- Every field is set.
unfoldable pub initialize_barrier : (number_to_wait : ℕ) → Barrier
initialize_barrier n = record {
  arrive_count = 0;
  number_to_wait = n;
  critical_section = 0;
  condition_variable = 0;
  state = initialized;
}

-- The arrival is counted. The result says whether the number is met, so that the caller wakes all
-- that sleep; else it goes to sleep.
unfoldable pub arrive : Barrier → Bool × Barrier
arrive b =
    let b' = record b { arrive_count = u32 (b.arrive_count + 1) } in
    (b'.arrive_count == b'.number_to_wait, b')

-- `sleep b` is what `WaitProcessWideKeyAtomic` returns, and the barrier as the other threads have
-- left it by then, with the word of the lock that the kernel leaves. The result says whether the
-- caller called `Broadcast`.
unfoldable pub await_barrier :
    Caller → (sleep : Barrier → Result × Barrier) → Barrier → Ending Barrier Bool
unfolding arrive wait
await_barrier c sleep b =
    guarded barrier_lock c
      (λ b1.
        let (met, b2) = arrive b1 in
        let (result, b3) = sleep b2 in
        if met then returns true b2 else elim (wait result b3.critical_section) [
          | returned signaled v ↦ returns false b3
          | aborted ↦ aborts
          | waiting ↦ unfinished
        ])
      b

unfoldable pub finalize_barrier : Barrier → Barrier
finalize_barrier b = record b { state = uninitialized }
