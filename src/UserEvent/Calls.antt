-- ===== src/UserEvent/Calls.antt =====
-- The calls on a user event, with their lock.
use hydrosphere.Common.{ℕ, suc, ◌≡◌, refl, Bool, true, false, not, arith, ◌&&◌}
use hydrosphere.Svc.{Result, is_ok, returns}
use hydrosphere.CriticalSection.System.{IsHandle}
use hydrosphere.CriticalSection.Guarded.{Caller, lone_caller, guarded_alone}
use hydrosphere.UserEvent.{
  UserEvent, event_lock, initialize_user_event, wait_loop, wait_user_event, is_user_event_signaled,
  signal_user_event, clear_user_event,
}

-- `t` is what a wait finds that sleeps from `e` on, in at most `n` rounds: each sleep ends well, with
-- the event signaled or, spuriously, not.
pub data Wakes (sleep : ℕ → UserEvent → Result × UserEvent)
    : ℕ → UserEvent → UserEvent → Type 0 where
  awake : {n : ℕ} {e : UserEvent} → e.is_signaled ≡ true → Wakes sleep (suc n) e e
  slept :
      {n : ℕ} {e t : UserEvent}
      → e.is_signaled ≡ false
      → is_ok (sleep n e).0 ≡ true
      → Wakes sleep n (sleep n e).1 t
      → Wakes sleep (suc n) e t

-- The signal is taken from an event that is cleared automatically.
abbrev pub taken : UserEvent → UserEvent
taken e = record e { is_signaled = not e.is_auto_clear }

wait_loop-Wakes :
    {sleep : ℕ → UserEvent → Result × UserEvent} {n : ℕ} {e t : UserEvent}
    → Wakes sleep n e t
    → wait_loop n sleep e ≡ returns tt (taken t)
unfolding wait_loop
wait_loop-Wakes (awake set) = ground arith
wait_loop-Wakes (slept unset ok w) = ground (arith, wait_loop-Wakes w)

module _ (self fuel : ℕ) (unlocked : ℕ → ℕ) (owner : IsHandle self) where
  -- If the sleeps of `WaitUserEvent` end well, with the lock handed back, until the event is found
  -- signaled, within the rounds given, and no other thread is at the free lock at first, the call
  -- returns with the lock free; the event is then signaled exactly if it is not cleared
  -- automatically.
  pub wait_user_event-returns :
      (rounds : ℕ) (sleep : ℕ → UserEvent → Result × UserEvent) (e t : UserEvent)
      → e.critical_section ≡ 0
      → Wakes sleep rounds (record e { critical_section = self }) t
      → t.critical_section ≡ self
      → wait_user_event (lone_caller self fuel unlocked) rounds sleep e
        ≡ returns tt (record t { is_signaled = not t.is_auto_clear; critical_section = 0 })
  unfolding wait_user_event
  wait_user_event-returns rounds sleep e t idle w kept =
      guarded_alone event_lock self fuel unlocked (wait_loop rounds sleep) e (taken t) tt owner idle
        (wait_loop-Wakes w) kept

  -- What the three short calls do with no other thread at the free lock.
  poll_alone :
      (e : UserEvent)
      → e.critical_section ≡ 0
      → is_user_event_signaled (lone_caller self fuel unlocked) e
        ≡ returns e.is_signaled
            (record e { is_signaled = not e.is_auto_clear && e.is_signaled; critical_section = 0 })
  unfolding is_user_event_signaled
  poll_alone e idle =
      guarded_alone event_lock self fuel unlocked _ e
        (record e { is_signaled = not e.is_auto_clear && e.is_signaled; critical_section = self })
        e.is_signaled owner idle (ground arith) refl

  signal_alone :
      (e : UserEvent)
      → e.critical_section ≡ 0
      → signal_user_event (lone_caller self fuel unlocked) e
        ≡ returns (not e.is_signaled) (record e { is_signaled = true; critical_section = 0 })
  unfolding signal_user_event
  signal_alone e idle =
      guarded_alone event_lock self fuel unlocked _ e
        (record e { is_signaled = true; critical_section = self }) (not e.is_signaled) owner idle
        (ground arith) refl

  clear_alone :
      (e : UserEvent)
      → e.critical_section ≡ 0
      → clear_user_event (lone_caller self fuel unlocked) e
        ≡ returns tt (record e { is_signaled = false; critical_section = 0 })
  unfolding clear_user_event
  clear_alone e idle =
      guarded_alone event_lock self fuel unlocked _ e
        (record e { is_signaled = false; critical_section = self }) tt owner idle (ground arith)
        refl

  -- `SignalUserEvent` on an event with a free lock returns, and signals the condition variable
  -- exactly if the event was not signaled; `IsUserEventSignaled` then says true, and a second one
  -- says true exactly if the event is not cleared automatically. After `ClearUserEvent` instead it
  -- says false. No other thread takes part.
  pub signal-poll :
      (e : UserEvent)
      → e.critical_section ≡ 0
      → let c : Caller = lone_caller self fuel unlocked in
        (e1 : UserEvent) × (e2 : UserEvent) × (e3 : UserEvent) × (e4 : UserEvent)
        × (signal_user_event c e ≡ returns (not e.is_signaled) e1)
        × (is_user_event_signaled c e1 ≡ returns true e2)
        × (is_user_event_signaled c e2 ≡ returns (not e.is_auto_clear) e2)
        × (clear_user_event c e1 ≡ returns tt e3)
        × (is_user_event_signaled c e3 ≡ returns false e4)
  signal-poll e idle =
      let e1 : UserEvent = record e { is_signaled = true; critical_section = 0 } in
      let e2 : UserEvent = record e1 { is_signaled = not e.is_auto_clear } in
      let e3 : UserEvent = record e1 { is_signaled = false } in
      (
        e1,
        e2,
        e3,
        e3,
        signal_alone e idle,
        ground (arith, poll_alone e1 refl),
        ground (arith, poll_alone e2 refl),
        clear_alone e1 refl,
        ground (arith, poll_alone e3 refl),
      )

  -- After `InitializeUserEvent`, whatever it is asked for, `IsUserEventSignaled` says that the event
  -- is signaled exactly if the memory that it was made in said so before. No other thread takes part.
  pub initialize-poll :
      (at_init auto : Bool) (e : UserEvent)
      → (t : UserEvent) × (is_user_event_signaled
            (lone_caller self fuel unlocked)
            (initialize_user_event at_init auto e)
          ≡ returns e.is_signaled t)
        × (t.is_signaled_at_init ≡ at_init)
        × (t.is_auto_clear ≡ auto)
  unfolding initialize_user_event
  initialize-poll at_init auto e =
      let made = initialize_user_event at_init auto e in
      (
        record made { is_signaled = not auto && e.is_signaled; critical_section = 0 },
        poll_alone made refl,
        refl,
        refl,
      )
