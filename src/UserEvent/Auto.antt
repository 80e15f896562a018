-- ===== src/UserEvent/Auto.antt =====
-- An event that is cleared automatically loses no wake-up.
use hydrosphere.Common.{ℕ, ◌≡◌, true, false, arith}
use hydrosphere.UserEvent.{wait_attempt, poll_locked, signal_locked, clear_locked}
use hydrosphere.UserEvent.System.{
  away, asleep, woken, System, attempt, Quiet, wait, resume, poll, signal_again, signal_nobody,
  signal_one, Step, quiet, clear, Run, here, next, IsFresh,
}

-- If the event is signaled while a thread sleeps, another is awake and will test it.
pub record Inv (s : System) : Type 0 where
  pub auto : s.event.is_auto_clear ≡ true
  pub awake : (i : ℕ) → s.pc i ≡ asleep → s.event.is_signaled ≡ true → (j : ℕ) × (s.pc j ≡ woken)

attempt-Inv : {s : System} (i : ℕ) → Inv s → Inv (attempt i s)
unfolding wait_attempt
attempt-Inv {s} i inv = record {
  auto = ground (arith, inv.auto);
  awake = λ k a e. absurd (ground (arith, inv.auto));
}

Quiet-Inv : {s t : System} → Quiet s t → Inv s → Inv t
unfolding poll_locked signal_locked
Quiet-Inv (wait i e) inv = attempt-Inv i inv
Quiet-Inv (resume i e) inv = attempt-Inv i inv
Quiet-Inv poll inv = record {
  auto = ground (arith, inv.auto);
  awake = λ k a e. absurd (ground (arith, inv.auto));
}
Quiet-Inv (signal_again e) inv = record {
  auto = ground (arith, inv.auto);
  awake = λ k a f. inv.awake k a (ground arith);
}
Quiet-Inv (signal_nobody e none_asleep) inv = record {
  auto = ground (arith, inv.auto);
  awake = λ k a e. absurd (none_asleep k a);
}
Quiet-Inv (signal_one i e a) inv = record {
  auto = ground (arith, inv.auto);
  awake = λ k b f. (i, ground arith);
}

Step-Inv : {s t : System} → Step s t → Inv s → Inv t
unfolding clear_locked
Step-Inv (quiet q) inv = Quiet-Inv q inv
Step-Inv clear inv = record { auto = inv.auto; awake = λ k a e. cc }

Run-Inv : {s t : System} → Run s t → Inv s → Inv t
Run-Inv here inv = inv
Run-Inv (next r st) inv = Step-Inv st (Run-Inv r inv)

-- An event that is cleared automatically, with no thread in a wait at first: however the threads
-- wait, signal, poll and clear, if at some time the event is signaled while a thread sleeps, another
-- thread is awake in its wait, and if it runs next it takes the signal and returns.
pub auto_no_lost_wakeup :
    {s t : System} (i : ℕ)
    → s.event.is_auto_clear ≡ true
    → IsFresh s
    → Run s t
    → t.pc i ≡ asleep
    → t.event.is_signaled ≡ true
    → (j : ℕ) × (t.pc j ≡ woken)
      × ((attempt j t).pc j ≡ away)
      × ((attempt j t).event.is_signaled ≡ false)
unfolding wait_attempt
auto_no_lost_wakeup i auto fresh r a e =
    let inv =
      Run-Inv r (record { auto = auto; awake = λ k b f. absurd (ground (arith, fresh k)) }) in
    let (j, w) = inv.awake i a e in (j, w, ground (arith, inv.auto), ground (arith, inv.auto))
