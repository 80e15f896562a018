-- ===== src/Tests/Lives.antt =====
-- The life of a thread that thread 1 starts and thread 2 waits for.
use hydrosphere.Common.{ℕ, ◌≡◌, ◌≢◌, ◌⊎◌, refl, true}
use hydrosphere.IntrusiveList.{Ptr}
use hydrosphere.Thread.Entry.{
  destroy_entering, destroy_waiting, controller, entry_ready, ControlPc, sleeping, calling, gone,
  start_entering, wait_waiting, Life, created, entry_step, control_step, update_control, entry,
  begin, control, Reach, here, next,
}
use hydrosphere.Thread.Entry.Progress.{CanGoOn, destroy_progress}
use hydrosphere.Thread.Entry.Safety.{entry_point_once}

abbrev begun : (i : ℕ) → ControlPc → Life → Life
begun i p s = record s { control = update_control s.control i p }

abbrev by_itself : Life → Life
by_itself s = entry_step s.entry s

abbrev by : ℕ → Life → Life
by i s = control_step i (s.control i) s

abbrev one : Ptr
one = 1

abbrev two : Ptr
two = 2

-- Thread 2 waits, and thread 1 is in `StartThread`, at its call of the kernel.
abbrev asking : Life
asking = by 1 (begun 1 start_entering (begun 2 wait_waiting created))

asking-Reach : Reach asking
asking-Reach =
    next (next (next here (begin 2 wait_waiting refl refl)) (begin 1 start_entering refl refl))
      (control 1 refl)

-- Thread 1 has left `StartThread`.
abbrev started_thread : Life
started_thread = by 1 (by 1 (by 1 (by 1 asking)))

started_thread-Reach : Reach started_thread
unfolding control_step
started_thread-Reach =
    next (next (next (next asking-Reach (control 1 refl)) (control 1 refl)) (control 1 refl))
      (control 1 refl)

-- The thread has run to its end.
abbrev inside_entry_point : Life
inside_entry_point = by_itself (by_itself (by_itself started_thread))

abbrev at_end : Life
at_end = by_itself (by_itself (by_itself (by_itself (by_itself (by_itself inside_entry_point)))))

inside_entry_point-Reach : Reach inside_entry_point
unfolding control_step entry_step
inside_entry_point-Reach =
    next (next (next started_thread-Reach (entry refl)) (entry refl)) (entry refl)

at_end-Reach : Reach at_end
unfolding control_step entry_step
at_end-Reach =
    next
      (next
        (next (next (next (next inside_entry_point-Reach (entry refl)) (entry refl)) (entry refl))
          (entry refl))
        (entry refl))
      (entry refl)

entry_point_once_example :
    (at_end.calls ≡ 0 ⊎ (at_end.calls ≡ 1) × (at_end.starts ≡ true))
    × (at_end.entry ≡ calling → (at_end.calls ≡ 0) × (at_end.starts ≡ true))
    × (at_end.entry ≡ gone → at_end.calls ≡ 1)
    × (at_end.entry ≢ sleeping)
unfolding control_step entry_step
entry_point_once_example = entry_point_once at_end-Reach

-- Thread 3 destroys a thread that was never started, and waits for its end.
abbrev destroyed_early : Life
destroyed_early = by 3 (by 3 (by 3 (by 3 (by 3 (by 3 (begun 3 destroy_entering created))))))

destroyed_early-Reach : Reach destroyed_early
unfolding control_step
destroyed_early-Reach =
    next
      (next
        (next
          (next
            (next (next (next here (begin 3 destroy_entering refl refl)) (control 3 refl))
              (control 3 refl))
            (control 3 refl))
          (control 3 refl))
        (control 3 refl))
      (control 3 refl)

destroyed_early_waits : destroyed_early.control 3 ≡ destroy_waiting
unfolding control_step
destroyed_early_waits = refl

destroy_progress_example :
    (destroyed_early.entry ≡ gone)
    ⊎ (entry_ready destroyed_early.entry destroyed_early.lock ≡ true)
    ⊎ ((j : ℕ) × (destroyed_early.lock ≡ controller j) × CanGoOn destroyed_early j)
destroy_progress_example = destroy_progress destroyed_early-Reach 3 destroyed_early_waits
