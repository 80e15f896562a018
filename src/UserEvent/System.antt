-- ===== src/UserEvent/System.antt =====
-- Threads over one user event, in any order.
use hydrosphere.Common.{ℕ, ◌≡◌, ◌≢◌, true, false, ◌==◌, if◌then◌else◌}
use hydrosphere.UserEvent.{UserEvent, wait_attempt, poll_locked, signal_locked, clear_locked}

pub data Pc : Type 0 where
  away : Pc  -- in no wait
  asleep : Pc  -- on the condition variable
  woken : Pc  -- signaled, and on the way back to the test of the loop

pub record System : Type 0 where
  pub event : UserEvent
  pub pc : ℕ → Pc

abbrev pub update_pc : (ℕ → Pc) → ℕ → Pc → ℕ → Pc
update_pc f i p j = if j == i then p else f j

-- Thread `i` tests the event, and returns or goes to sleep.
abbrev pub attempt : ℕ → System → System
attempt i s = record {
  event = (wait_attempt s.event).1;
  pc = update_pc s.pc i (if (wait_attempt s.event).0 then away else asleep);
}

-- Every step but `ClearUserEvent`. Which sleeper a signal wakes is left open.
pub data Quiet (s : System) : System → Type 0 where
  wait : (i : ℕ) → s.pc i ≡ away → Quiet s (attempt i s)
  resume : (i : ℕ) → s.pc i ≡ woken → Quiet s (attempt i s)
  poll : Quiet s (record s { event = (poll_locked s.event).1 })
  signal_again :
      (signal_locked s.event).0 ≡ false → Quiet s (record s { event = (signal_locked s.event).1 })
  signal_nobody :
      (signal_locked s.event).0 ≡ true
      → ((i : ℕ) → s.pc i ≢ asleep)
      → Quiet s (record s { event = (signal_locked s.event).1 })
  signal_one :
      (i : ℕ)
      → (signal_locked s.event).0 ≡ true
      → s.pc i ≡ asleep
      → Quiet s (record { event = (signal_locked s.event).1; pc = update_pc s.pc i woken })

pub data Step (s : System) : System → Type 0 where
  quiet : {t : System} → Quiet s t → Step s t
  clear : Step s (record s { event = clear_locked s.event })

pub data Run (s : System) : System → Type 0 where
  here : Run s s
  next : {t u : System} → Run s t → Step t u → Run s u

pub data QuietRun (s : System) : System → Type 0 where
  still : QuietRun s s
  then_quiet : {t u : System} → QuietRun s t → Quiet t u → QuietRun s u

-- No thread waits.
abbrev pub IsFresh : System → Type 0
IsFresh s = (i : ℕ) → s.pc i ≡ away
