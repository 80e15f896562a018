-- ===== src/Tests/Sync.antt =====
-- Mutexes and condition variables, and the arrivals at a barrier.
use hydrosphere.Common.{
  ℕ, ◌^◌, ◌<◌, ◌≡◌, false, inl, inr, refl, arith, true, false, List, [], ◌∷◌, some,
}
use hydrosphere.Svc.{Handle, result, no_handle, is_ok, returns, aborts}
use hydrosphere.CriticalSection.{without_listeners}
use hydrosphere.Mutex.{Mutex, initialize_mutex, lock_mutex}
use hydrosphere.Mutex.Laws.{lock_mutex-excludes-nobody}
use hydrosphere.Mutex.Recursion.{Held, lock_times, unlock_times, lock-unlock-Held}
use hydrosphere.Barrier.Arrivals.{fresh, await_all, await_all-after}
use hydrosphere.ConditionVariable.Calls.{
  time_out, wait_timeout_condition_variable, wait_condition_variable,
  wait_timeout_condition_variable-owner,
}

abbrev one : Handle
one = record { value = 1 }

abbrev two : Handle
two = record { value = 2 }

IsHandle_one : (0 < 1) × (1 < 2 ^ 30)
IsHandle_one = (omega arith, omega arith)

-- Owned by thread 1, in the lock too.
abbrev held_by_one : Mutex
held_by_one = record {
  state = 1;
  is_recursive = false;
  owner = one;
  counter = 0;
  critical_section = 1;
}

lock_mutex-excludes-nobody_example :
    (m : Mutex) × (n : Mutex) × (lock_mutex 0 (λ t v. 7) one (initialize_mutex true) ≡ some m)
    × (lock_mutex 0 (λ t v. 7) two m ≡ some n)
    × (n.owner ≡ no_handle)
    × (n.critical_section ≡ 0)
lock_mutex-excludes-nobody_example =
    lock_mutex-excludes-nobody (λ t v. 7) true one two (λ e. absurd (omega arith))
      (λ e. absurd (omega arith))

IsHandle_two : (0 < 2) × (2 < 2 ^ 30)
IsHandle_two = (omega arith, omega arith)

lock-unlock-Held_example :
    ((lock_times 3 one (initialize_mutex true)).1 ≡ true)
    × Held one 3 1 (unlock_times 2 (λ v. v) one (lock_times 3 one (initialize_mutex true)).0)
lock-unlock-Held_example = lock-unlock-Held 2 1 one (λ v. v) IsHandle_one (omega arith)

abbrev arrived : List ℕ
arrived = 5 ∷ 6 ∷ []

await_all-after_example :
    ((await_all (5 ∷ 6 ∷ 7 ∷ 8 ∷ []) (fresh 3)).passed ≡ 5 ∷ 6 ∷ 7 ∷ [])
    × ((await_all (5 ∷ 6 ∷ 7 ∷ 8 ∷ []) (fresh 3)).asleep ≡ 8 ∷ [])
await_all-after_example = await_all-after 3 7 arrived (8 ∷ []) refl (omega arith)

wait_timeout_condition_variable-owner_example :
    (v : ℕ) × (wait_timeout_condition_variable 2 (λ t v. 0) one (result 0xEA01) held_by_one
      ≡ returns time_out (record held_by_one { critical_section = v }))
    × (without_listeners v ≡ 1)
    × (wait_condition_variable (result 0xEA01) held_by_one ≡ aborts)
unfolding is_ok
wait_timeout_condition_variable-owner_example =
    wait_timeout_condition_variable-owner 2 (λ t v. 0) one (result 0xEA01) held_by_one IsHandle_one
      (omega arith) (λ t u lt. inl refl) (inr refl)
