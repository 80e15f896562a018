-- ===== src/UserEvent/Manual.antt =====
-- An event that is not cleared automatically wakes one sleeper, and strands the others.
use hydrosphere.Common.{ℕ, ◌≡◌, ◌≢◌, true, false, arith}
use hydrosphere.UserEvent.{wait_attempt, poll_locked, signal_locked}
use hydrosphere.UserEvent.System.{
  away, asleep, woken, System, update_pc, attempt, Quiet, wait, resume, poll, signal_again,
  signal_nobody, signal_one, QuietRun, still, then_quiet,
}

-- The event is signaled, and the thread `i` sleeps.
pub record IsStranded (i : ℕ) (s : System) : Type 0 where
  pub manual : s.event.is_auto_clear ≡ false
  pub signaled : s.event.is_signaled ≡ true
  pub sleeps : s.pc i ≡ asleep

Quiet-IsStranded : {s t : System} (i : ℕ) → Quiet s t → IsStranded i s → IsStranded i t
unfolding wait_attempt poll_locked signal_locked
Quiet-IsStranded i (wait j e) n = record {
  manual = ground (arith, n.manual);
  signaled = ground (arith, n.manual);
  sleeps = ground arith;
}
Quiet-IsStranded i (resume j e) n = record {
  manual = ground (arith, n.manual);
  signaled = ground (arith, n.manual);
  sleeps = ground arith;
}
Quiet-IsStranded i poll n = ground arith
Quiet-IsStranded i (signal_again e) n = ground arith
Quiet-IsStranded i (signal_nobody e f) n = ground arith
Quiet-IsStranded i (signal_one j e a) n = ground arith

-- A thread that sleeps on a signaled event which is not cleared automatically sleeps on, whatever
-- the threads do, further signals included, as long as nobody clears the event.
QuietRun-IsStranded : {s t : System} (i : ℕ) → IsStranded i s → QuietRun s t → IsStranded i t
QuietRun-IsStranded i n still = n
QuietRun-IsStranded i n (then_quiet r q) = Quiet-IsStranded i q (QuietRun-IsStranded i n r)

-- `SignalUserEvent` wakes `j`, which then runs.
abbrev pub after_signal : (j : ℕ) → System → System
after_signal j s =
    attempt j (record { event = (signal_locked s.event).1; pc = update_pc s.pc j woken })

-- If two threads sleep on an event that is not cleared automatically, a call of `SignalUserEvent` may
-- wake one of them, which then returns from its wait. From there on the other one sleeps for ever, on
-- an event that stays signaled, whatever the threads do, further signals included, as long as nobody
-- clears the event.
pub signal_strands :
    {s u : System} (i j : ℕ)
    → i ≢ j
    → s.event.is_auto_clear ≡ false
    → s.event.is_signaled ≡ false
    → s.pc i ≡ asleep
    → s.pc j ≡ asleep
    → QuietRun (after_signal j s) u
    → QuietRun s (after_signal j s) × ((after_signal j s).pc j ≡ away) × IsStranded i u
unfolding wait_attempt signal_locked
signal_strands {s} i j ne manual unset si sj later = (
  then_quiet (then_quiet still (signal_one j (ground arith) sj)) (resume j (ground arith)),
  ground arith,
  QuietRun-IsStranded i
      (record { manual = ground arith; signaled = ground arith; sleeps = ground arith }) later,
)
