-- ===== src/Barrier/Threads.antt =====
-- Threads in `AwaitBarrier` of os_barrier_api.cpp, one access at a time: each load and each store of
-- `arrive_count`, the `if`, each system call on the condition variable, and each acquisition or release
-- of the lock is a step. The lock is taken as the one that the critical section is shown to implement.
-- A wait that is woken returns from the kernel with the lock, and returns for no other reason.
use hydrosphere.Common.{ℕ, ◌+◌, Option, none, some, ◌≡◌, ◌==◌, if◌then◌else◌, u32}
use hydrosphere.Barrier.{Barrier, initialize_barrier}

-- Where a thread stands.
pub data Place : Type 0 where
  away : Place  -- in no call, and in none before
  entering : Place  -- at `Enter`
  reading : Place  -- at the load of `arrive_count++`
  storing : (count : ℕ) → Place  -- at its store, with the number that was loaded
  testing : Place  -- at the `if`
  broadcasting : Place  -- at `Broadcast`
  calling : Place  -- at the call of `Wait`
  sleeping : Place  -- in the kernel, with the lock released
  returning : Place  -- woken there, and waiting for the lock
  leaving : Place  -- at `Leave`
  through : Place  -- returned from `AwaitBarrier`

-- `arrivals` counts the stores so far, without a bound; it is no part of the program.
pub record Threads : Type 0 where
  pub barrier : Barrier
  pub lock : Option ℕ
  pub place : ℕ → Place
  pub arrivals : ℕ

abbrev pub update_place : (ℕ → Place) → ℕ → Place → ℕ → Place
update_place f i p j = if j == i then p else f j

abbrev pub move : ℕ → Place → Threads → Threads
move i p s = record s { place = update_place s.place i p }

-- Every thread that sleeps is woken.
abbrev pub woken : Place → Place
woken sleeping = returning
woken p = p

unfoldable pub tested : Barrier → Place
tested b = if b.arrive_count == b.number_to_wait then broadcasting else calling

pub data Step (s : Threads) : Threads → Type 0 where
  begin : (i : ℕ) → s.place i ≡ away → Step s (move i entering s)
  enter :
      (i : ℕ)
      → s.lock ≡ none
      → s.place i ≡ entering
      → Step s (record (move i reading s) { lock = some i })
  load : (i : ℕ) → s.place i ≡ reading → Step s (move i (storing s.barrier.arrive_count) s)
  store :
      (i k : ℕ)
      → s.place i ≡ storing k
      → Step s (record (move i testing s) {
        barrier = record (s.barrier) { arrive_count = u32 (k + 1) };
        arrivals = s.arrivals + 1;
      })
  test : (i : ℕ) → s.place i ≡ testing → Step s (move i (tested s.barrier) s)
  -- `SignalProcessWideKey` with -1.
  broadcast :
      (i : ℕ)
      → s.place i ≡ broadcasting
      → Step s (move i leaving (record s { place = λ j. woken (s.place j) }))
  -- `WaitProcessWideKeyAtomic` lets the lock go.
  sleep : (i : ℕ) → s.place i ≡ calling → Step s (record (move i sleeping s) { lock = none })
  return :
      (i : ℕ)
      → s.lock ≡ none
      → s.place i ≡ returning
      → Step s (record (move i leaving s) { lock = some i })
  leave : (i : ℕ) → s.place i ≡ leaving → Step s (record (move i through s) { lock = none })

-- All threads are away at first, and the lock is free.
abbrev pub start : ℕ → Threads
start n = record { barrier = initialize_barrier n; lock = none; place = λ i. away; arrivals = 0 }

pub data Reach (n : ℕ) : Threads → Type 0 where
  here : Reach n (start n)
  next : {s t : Threads} → Reach n s → Step s t → Reach n t
