-- ===== src/Tests/Accesses.antt =====
-- Threads over one user event, access by access.
use hydrosphere.Common.{ℕ, ◌≡◌, refl, true, false, none, some}
use hydrosphere.UserEvent.{UserEvent}
use hydrosphere.UserEvent.Threads.{
  Threads, Reach, here, next, begin, enter, act, sleep, wake, leave, start, access, acted, move,
  wait_entering, signal_entering, sleeping, leaving, away, returning, entered, wait_taking,
  update_place,
}
use hydrosphere.UserEvent.System.{Run}
use hydrosphere.UserEvent.Refinement.{view, Reach-Run, auto_wakes}

abbrev quiet_event : UserEvent
quiet_event = record {
  state = 1;
  is_signaled_at_init = false;
  is_signaled = false;
  is_auto_clear = true;
  critical_section = 0;
  condition_variable = 0;
}

abbrev locked : ℕ → Threads → Threads
locked i s = record s { lock = some i; place = update_place s.place i (entered (s.place i)) }

abbrev does : ℕ → Threads → Threads
does i s = acted i (s.place i) s

-- Thread `i` is in `Wait`, before the kernel; then it sleeps.
abbrev waits : ℕ → Threads → Threads
waits i s =
    let t = does i (locked i (move i wait_entering s)) in
    record t { lock = none; place = update_place t.place i sleeping }

-- Thread `i` signals the event, wakes thread `j` and leaves.
abbrev signals : (i j : ℕ) → Threads → Threads
signals i j s =
    let t = does i (does i (locked i (move i signal_entering s))) in
    let u = move j returning (move i leaving t) in
    record u { lock = none; place = update_place u.place i away }

-- Threads 1 and 2 sleep; thread 3 signals and wakes thread 1.
abbrev one_of_two : Threads
one_of_two = signals 3 1 (waits 2 (waits 1 (start quiet_event)))

one_of_two-Reach : Reach quiet_event one_of_two
unfolding access
one_of_two-Reach =
    let r0 =
      next
        (next (next (next here (begin 1 wait_entering refl refl)) (enter 1 refl refl)) (act 1 refl))
        (sleep 1 refl) in
    let r1 =
      next
        (next (next (next r0 (begin 2 wait_entering refl refl)) (enter 2 refl refl)) (act 2 refl))
        (sleep 2 refl) in
    let r2 =
      next
        (next (next (next r1 (begin 3 signal_entering refl refl)) (enter 3 refl refl)) (act 3 refl))
        (act 3 refl) in
    next (next r2 (wake 3 1 refl refl)) (leave 3 refl)

Reach-Run_example : Run (view (start quiet_event)) (view one_of_two)
Reach-Run_example = Reach-Run one_of_two-Reach

auto_wakes_example :
    (j : ℕ) × (one_of_two.place j ≡ returning)
    × ((access (entered (one_of_two.place j)) one_of_two.event).0 ≡ wait_taking)
unfolding access
auto_wakes_example = auto_wakes 2 refl one_of_two-Reach refl refl refl
