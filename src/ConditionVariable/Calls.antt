-- ===== src/ConditionVariable/Calls.antt =====
-- `WaitConditionVariable` and `WaitTimeoutConditionVariable` of os_condition_variable_api.cpp.
use hydrosphere.Common.{ℕ, ◌≡◌, ◌⊎◌, ◌≤◌, ◌<◌, true, not, if◌then◌else◌, arith}
use hydrosphere.Svc.{Handle, Result, is_ok, Ending, returns, aborts, unfinished}
use hydrosphere.CriticalSection.{without_listeners}
use hydrosphere.CriticalSection.System.{IsHandle}
use hydrosphere.CriticalSection.Sequential.{IsReady}
use hydrosphere.Mutex.{Mutex}
use hydrosphere.ConditionVariable.{
  returned, aborted, waiting, is_timeout, wait, wait_timeout, wait_timeout-owner,
}

-- enum class ConditionVariableStatus
pub data ConditionVariableStatus : Type 0 where
  no_time_out time_out : ConditionVariableStatus

-- The mutex is given as the kernel leaves it when `WaitProcessWideKeyAtomic` has returned `result`.
unfoldable pub wait_timeout_condition_variable :
    ℕ
    → (others : ℕ → ℕ → ℕ) → (self : Handle) → (result : Result) → Mutex
    → Ending Mutex ConditionVariableStatus
unfolding wait_timeout
wait_timeout_condition_variable fuel others self result m =
    elim (wait_timeout fuel others self.value result m.critical_section) [
      | returned signaled v ↦
          returns (if not signaled then time_out else no_time_out)
            (record m { critical_section = v })
      | aborted ↦ aborts
      | waiting ↦ unfinished
    ]

unfoldable pub wait_condition_variable : (result : Result) → Mutex → Ending Mutex (Unit {0})
unfolding wait
wait_condition_variable result m = elim (wait result m.critical_section) [
  | returned signaled v ↦ returns tt (record m { critical_section = v })
  | aborted ↦ aborts
  | waiting ↦ unfinished
]

-- If the kernel hands the lock of the mutex to the thread whenever its wait succeeds, and after a
-- timeout the lock becomes ready for the thread in the last two of at least two rounds,
-- `WaitTimeoutConditionVariable` returns with the lock owned by the thread, and says whether it was
-- signaled or timed out. The mutex's record of its owner and its counter are as the other threads
-- left them. `WaitConditionVariable` returns with the lock in the first case, and aborts in the other.
pub wait_timeout_condition_variable-owner :
    (fuel : ℕ) (others : ℕ → ℕ → ℕ) (self : Handle) (result : Result) (m : Mutex)
    → IsHandle self.value
    → 2 ≤ fuel
    → ((t u : ℕ) → t < 2 → IsReady self.value (others t u))
    → (is_ok result ≡ true) × (without_listeners m.critical_section ≡ self.value)
      ⊎ (is_timeout result ≡ true)
    → (v : ℕ) × (wait_timeout_condition_variable fuel others self result m
        ≡ returns
            (if is_ok result then no_time_out else time_out)
            (record m { critical_section = v }))
      × (without_listeners v ≡ self.value)
      × (wait_condition_variable result m ≡ (if is_ok result then returns tt m else aborts))
unfolding wait_timeout_condition_variable wait_condition_variable
wait_timeout_condition_variable-owner fuel others self result m h rounds ready how =
    let (signaled, v, e, own, said) =
      wait_timeout-owner fuel others self.value result m.critical_section h rounds ready how in
    (v, rw (e, wait_timeout_condition_variable) (ground (arith, said)), own, ground arith)
