-- ===== src/UserEvent/Threads.antt =====
-- Threads in the calls of os_userevent_api.cpp, one access at a time: each access to `is_signaled`, each
-- system call on the condition variable, and each acquisition or release of the event's lock is a
-- step; the `if` behind the loop of `WaitUserEvent` is one with its write. The lock is taken as the one that the critical section is shown to implement. A wait that is
-- woken returns from the kernel with the lock.
use hydrosphere.Common.{
  ℕ, Bool, true, false, not, ◌&&◌, Option, none, some, ◌≡◌, ◌≢◌, ◌==◌, if◌then◌else◌,
}
use hydrosphere.UserEvent.{UserEvent}

-- Where a thread stands.
pub data Place : Type 0 where
  away : Place  -- in no call
  wait_entering : Place  -- `WaitUserEvent`: at `Enter`
  wait_testing : Place  -- at the first test of the loop
  wait_calling : Place  -- at the call of `Wait`
  sleeping : Place  -- in the kernel, with the lock released
  returning : Place  -- woken there, and waiting for the lock
  wait_retesting : Place  -- at the test of the loop after a `Wait`
  wait_taking : Place  -- at the `if` behind the loop
  poll_entering poll_reading poll_writing : Place  -- `IsUserEventSignaled`
  signal_entering signal_testing : Place  -- `SignalUserEvent`
  signal_setting : Place  -- at the write of `is_signaled`
  signal_waking : Place  -- at `Signal`
  clear_entering clear_writing : Place  -- `ClearUserEvent`
  leaving : Place  -- at `Leave`, in any of the calls

pub record Threads : Type 0 where
  pub event : UserEvent
  pub lock : Option ℕ
  pub place : ℕ → Place

abbrev pub update_place : (ℕ → Place) → ℕ → Place → ℕ → Place
update_place f i p j = if j == i then p else f j

abbrev pub move : ℕ → Place → Threads → Threads
move i p s = record s { place = update_place s.place i p }

-- The first steps of the calls.
abbrev pub is_beginning : Place → Bool
is_beginning wait_entering = true
is_beginning poll_entering = true
is_beginning signal_entering = true
is_beginning clear_entering = true
is_beginning _ = false

-- Whether a thread waits for the lock, and where it stands when it has it.
abbrev pub is_entering : Place → Bool
is_entering wait_entering = true
is_entering returning = true
is_entering poll_entering = true
is_entering signal_entering = true
is_entering clear_entering = true
is_entering _ = false

abbrev pub entered : Place → Place
entered wait_entering = wait_testing
entered returning = wait_retesting
entered poll_entering = poll_reading
entered signal_entering = signal_testing
entered clear_entering = clear_writing
entered p = p

-- Whether a thread stands at an access to the event, and that access with what follows it.
abbrev pub is_access : Place → Bool
is_access wait_testing = true
is_access wait_retesting = true
is_access wait_taking = true
is_access poll_reading = true
is_access poll_writing = true
is_access signal_testing = true
is_access signal_setting = true
is_access clear_writing = true
is_access _ = false

abbrev test : UserEvent → Place × UserEvent
test e = if not e.is_signaled then (wait_calling, e) else (wait_taking, e)

unfoldable pub access : Place → UserEvent → Place × UserEvent
access wait_testing e = test e
access wait_retesting e = test e
access wait_taking e =
    (leaving, if e.is_signaled && e.is_auto_clear then record e { is_signaled = false } else e)
access poll_reading e = (poll_writing, e)
access poll_writing e = (leaving, if e.is_auto_clear then record e { is_signaled = false } else e)
access signal_testing e = if not e.is_signaled then (signal_setting, e) else (leaving, e)
access signal_setting e = (signal_waking, record e { is_signaled = true })
access clear_writing e = (leaving, record e { is_signaled = false })
access p e = (p, e)

-- Thread `i`, which stands at the place given, makes its access.
abbrev pub acted : (i : ℕ) → Place → Threads → Threads
acted i p s = record s {
  event = (access p s.event).1;
  place = update_place s.place i (access p s.event).0;
}

pub data Step (s : Threads) : Threads → Type 0 where
  begin : (i : ℕ) (p : Place) → s.place i ≡ away → is_beginning p ≡ true → Step s (move i p s)
  enter :
      (i : ℕ)
      → s.lock ≡ none
      → is_entering (s.place i) ≡ true
      → Step s (record s { lock = some i; place = update_place s.place i (entered (s.place i)) })
  act : (i : ℕ) → is_access (s.place i) ≡ true → Step s (acted i (s.place i) s)
  -- `WaitProcessWideKeyAtomic` lets the lock go.
  sleep :
      (i : ℕ)
      → s.place i ≡ wait_calling
      → Step s (record s { lock = none; place = update_place s.place i sleeping })
  -- `SignalProcessWideKey` wakes one thread that sleeps, if there is one.
  wake :
      (i j : ℕ)
      → s.place i ≡ signal_waking
      → s.place j ≡ sleeping
      → Step s (move j returning (move i leaving s))
  wake_nobody :
      (i : ℕ)
      → s.place i ≡ signal_waking
      → ((j : ℕ) → s.place j ≢ sleeping)
      → Step s (move i leaving s)
  leave :
      (i : ℕ)
      → s.place i ≡ leaving
      → Step s (record s { lock = none; place = update_place s.place i away })

-- All threads are away at first, and the lock is free.
abbrev pub start : UserEvent → Threads
start e = record { event = e; lock = none; place = λ i. away }

pub data Reach (e : UserEvent) : Threads → Type 0 where
  here : Reach e (start e)
  next : {s t : Threads} → Reach e s → Step s t → Reach e t
