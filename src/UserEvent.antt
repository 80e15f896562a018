-- ===== src/UserEvent.antt =====
-- The user event of libhydrosphere/source/common/os/os_userevent_api.cpp.
-- Each call holds the event's lock from `Enter` to `Leave`, but while it waits on the condition
-- variable. What a call does while it holds the lock is a function of its own (`poll_locked`,
-- `signal_locked`, `clear_locked`, `wait_attempt`): the calls here put `Enter` and `Leave` around it,
-- and System takes it as one step among those of other threads.
pub mod Calls
pub mod System
pub mod Auto
pub mod Manual
pub mod Threads
pub mod Refinement
use hydrosphere.Common.{ℕ, zero, suc, Bool, true, false, not, ◌&&◌, ◌≡◌, refl, if◌then◌else◌}
use hydrosphere.Svc.{Result, Ending, returns, aborts, unfinished}
use hydrosphere.CriticalSection.Guarded.{Caller, Lockable, guarded}
use hydrosphere.ConditionVariable.{returned, aborted, waiting, wait}

-- enum UserEventState
abbrev pub uninitialized : ℕ
uninitialized = 0

abbrev pub initialized : ℕ
initialized = 1

pub record UserEvent : Type 0 where
  pub state : ℕ
  pub is_signaled_at_init : Bool
  pub is_signaled : Bool
  pub is_auto_clear : Bool
  pub critical_section : ℕ
  pub condition_variable : ℕ

abbrev pub event_lock : Lockable UserEvent
event_lock = record {
  word = λ e. e.critical_section;
  with_word = λ v e. record e { critical_section = v };
  word-with_word = λ v e. refl;
}

-- `is_signaled` is not written.
unfoldable pub initialize_user_event :
    (is_signaled_at_init is_auto_clear : Bool) → UserEvent → UserEvent
initialize_user_event at_init auto e = record e {
  critical_section = 0;
  condition_variable = 0;
  is_signaled_at_init = at_init;
  is_auto_clear = auto;
  state = initialized;
}

unfoldable pub finalize_user_event : UserEvent → UserEvent
finalize_user_event e = record e { state = uninitialized }

-- The test of the loop of `WaitUserEvent`, and what follows the loop: whether the call returns.
unfoldable pub wait_attempt : UserEvent → Bool × UserEvent
wait_attempt e =
    if not e.is_signaled
    then (false, e)
    else (true, if e.is_signaled && e.is_auto_clear then record e { is_signaled = false } else e)

unfoldable pub poll_locked : UserEvent → Bool × UserEvent
poll_locked e =
    let is_signaled = e.is_signaled in
    (is_signaled, if e.is_auto_clear then record e { is_signaled = false } else e)

-- Whether the condition variable is signaled, which wakes one of its waiters, and the event.
unfoldable pub signal_locked : UserEvent → Bool × UserEvent
signal_locked e = if not e.is_signaled then (true, record e { is_signaled = true }) else (false, e)

unfoldable pub clear_locked : UserEvent → UserEvent
clear_locked e = record e { is_signaled = false }

-- The `while` of `WaitUserEvent` and the rest up to `Leave`. `sleep n e` is what
-- `WaitProcessWideKeyAtomic` returns in the round with `n` rounds left, and the event as the other
-- threads have left it by then, with the word of the lock that the kernel leaves.
unfoldable pub wait_loop :
    ℕ → (sleep : ℕ → UserEvent → Result × UserEvent) → UserEvent → Ending UserEvent (Unit {0})
unfolding wait_attempt wait
wait_loop zero sleep e = unfinished
wait_loop (suc n) sleep e =
    let (done, e') = wait_attempt e in
    let (result, e1) = sleep n e' in
    let rest = wait_loop n sleep e1 in
    if done then returns tt e' else elim (wait result e1.critical_section) [
      | returned signaled v ↦ rest
      | aborted ↦ aborts
      | waiting ↦ unfinished
    ]

unfoldable pub wait_user_event :
    Caller
    → ℕ
    → (sleep : ℕ → UserEvent → Result × UserEvent) → UserEvent
    → Ending UserEvent (Unit {0})
unfolding wait_loop
wait_user_event c rounds sleep e = guarded event_lock c (wait_loop rounds sleep) e

unfoldable pub is_user_event_signaled : Caller → UserEvent → Ending UserEvent Bool
unfolding poll_locked
is_user_event_signaled c e =
    guarded event_lock c (λ e1. let (answer, e2) = poll_locked e1 in returns answer e2) e

-- The result says whether the condition variable was signaled.
unfoldable pub signal_user_event : Caller → UserEvent → Ending UserEvent Bool
unfolding signal_locked
signal_user_event c e =
    guarded event_lock c (λ e1. let (signals, e2) = signal_locked e1 in returns signals e2) e

unfoldable pub clear_user_event : Caller → UserEvent → Ending UserEvent (Unit {0})
unfolding clear_locked
clear_user_event c e = guarded event_lock c (λ e1. returns tt (clear_locked e1)) e
