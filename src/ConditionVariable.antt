-- ===== src/ConditionVariable.antt =====
-- The condition variable of libhydrosphere/source/common/os/os_condition_variable_impl.cpp and
-- os_condition_variable_api.cpp, as the waiting thread sees it. Calls has the waits of the latter, on a
-- mutex.
pub mod Calls
use hydrosphere.Common.{
  ℕ, ◌≡◌, ◌⊎◌, ◌≤◌, ◌<◌, Bool, true, false, not, none, some, ◌==◌, if◌then◌else◌, arith, inl, inr,
}
use hydrosphere.Svc.{Result, is_ok, is_err, code_of}
use hydrosphere.CriticalSection.{without_listeners}
use hydrosphere.CriticalSection.System.{IsHandle}
use hydrosphere.CriticalSection.Sequential.{enter, IsReady, enter-returns}

-- enum ConditionVariableState
abbrev pub uninitialized : ℕ
uninitialized = 0

abbrev pub initialized : ℕ
initialized = 1

-- `image` is the kernel's word of the condition variable.
pub record ConditionVariable : Type 0 where
  pub state : ℕ
  pub image : ℕ

unfoldable pub initialize_condition_variable : ConditionVariable → ConditionVariable
initialize_condition_variable c = record { state = initialized; image = 0 }

unfoldable pub finalize_condition_variable : ConditionVariable → ConditionVariable
finalize_condition_variable c = record c { state = uninitialized }

-- How many waiters `Signal` and `Broadcast` ask `SignalProcessWideKey` to wake: one, or all of them,
-- which the source writes as -1.
pub data WakeCount : Type 0 where
  wake_one wake_all : WakeCount

abbrev pub signal_count : WakeCount
signal_count = wake_one

abbrev pub broadcast_count : WakeCount
broadcast_count = wake_all

-- `SignalConditionVariable` and `BroadcastConditionVariable`, with `Signal` and `Broadcast`, on the
-- condition variable whose word is at `key`, in a kernel that does `signal_process_wide_key`.
module _ {S : Type 0} (signal_process_wide_key : S → (key : ℕ) → WakeCount → S) where
  unfoldable pub signal_condition_variable : (key : ℕ) → S → S
  signal_condition_variable key s = signal_process_wide_key s key signal_count

  unfoldable pub broadcast_condition_variable : (key : ℕ) → S → S
  broadcast_condition_variable key s = signal_process_wide_key s key broadcast_count

-- How a wait ends: it returns with the word of the lock, aborts the process, or still waits for the
-- lock when the rounds are spent.
pub data Waited : Type 0 where
  returned : (signaled : Bool) → (lock : ℕ) → Waited
  aborted : Waited
  waiting : Waited

abbrev pub is_timeout : Result → Bool
is_timeout r = code_of r == 0xEA01

-- `Wait`. The call `WaitProcessWideKeyAtomic` has given `result` and left the word `lock`.
unfoldable pub wait : (result : Result) (lock : ℕ) → Waited
wait result lock = if is_ok result then returned true lock else aborted

-- `WaitTimeout`: after a timeout it enters the lock again.
unfoldable pub wait_timeout :
    ℕ → (others : ℕ → ℕ → ℕ) → (self : ℕ) → (result : Result) (lock : ℕ) → Waited
wait_timeout fuel others self result lock =
    if is_err result
    then (if is_timeout result
        then elim (enter fuel others self lock) [ none ↦ waiting | some v ↦ returned false v ]
        else (if is_ok result then returned true lock else aborted))
    else returned true lock

-- If the kernel hands the lock to the thread whenever its wait succeeds, and after a timeout the lock
-- becomes ready for the thread in the last two of at least two rounds, `WaitTimeout` returns with the
-- lock owned by the thread, both signaled and timed out. It says which of the two it was.
pub wait_timeout-owner :
    (fuel : ℕ) (others : ℕ → ℕ → ℕ) (self : ℕ) (result : Result) (lock : ℕ)
    → IsHandle self
    → 2 ≤ fuel
    → ((t u : ℕ) → t < 2 → IsReady self (others t u))
    → (is_ok result ≡ true) × (without_listeners lock ≡ self) ⊎ (is_timeout result ≡ true)
    → (signaled : Bool) × (v : ℕ) × (wait_timeout fuel others self result lock
        ≡ returned signaled v)
      × (without_listeners v ≡ self)
      × (signaled ≡ is_ok result)
unfolding wait_timeout is_err is_ok
wait_timeout-owner fuel others self result lock h rounds ready (inl (ok, own)) =
    (true, lock, ground arith, own, ground arith)
wait_timeout-owner fuel others self result lock h rounds ready (inr late) =
    let (v, e, own) = enter-returns fuel others self lock h rounds ready in
    (false, v, ground arith, own, ground arith)
