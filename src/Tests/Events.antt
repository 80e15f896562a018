-- ===== src/Tests/Events.antt =====
-- User events with sleepers, and kernel events over a kernel where others take the signal.
use hydrosphere.Common.{
  ℕ, ◌-◌, ◌^◌, ◌<◌, ◌≡◌, ◌≢◌, refl, arith, true, false, Bool, if◌then◌else◌, ◌==◌, zero, suc, leb,
  inr,
}
use hydrosphere.Svc.{result, is_ok, returns}
use hydrosphere.UserEvent.{
  UserEvent, initialize_user_event, wait_attempt, signal_locked, is_user_event_signaled,
}
use hydrosphere.UserEvent.Calls.{initialize-poll}
use hydrosphere.CriticalSection.Guarded.{lone_caller}
use hydrosphere.UserEvent.System.{
  QuietRun, still, then_quiet, signal_again, away, asleep, System, QuietRun,
}
use hydrosphere.UserEvent.Manual.{IsStranded, after_signal, signal_strands}
use hydrosphere.Svc.Stubs.{Stubs}
use hydrosphere.KernelEvent.Life.{event_calls, Polls, StubLaws, create-signal-clear}
use hydrosphere.KernelEvent.{
  EventCalls, KernelEvent, create_kernel_event, signal_kernel_event, clear_kernel_event,
  wait_kernel_event,
}
use hydrosphere.KernelEvent.Loops.{Fails, Lacks, wait_kernel_event_lem}

abbrev nobody_waits : Bool → System
nobody_waits auto = record {
  event = record {
    state = 1;
    is_signaled_at_init = false;
    is_signaled = false;
    is_auto_clear = auto;
    critical_section = 0;
    condition_variable = 0;
  };
  pc = λ i. away;
}

-- Threads 1 and 2 sleep on an event that is not cleared automatically.
abbrev sleepers : System
sleepers = record {
  event = (nobody_waits false).event;
  pc = λ i. if i == 1 then asleep else (if i == 2 then asleep else away);
}

abbrev one : ℕ
one = 1

one_not_two : one ≢ 2
one_not_two e = absurd (ground arith)

-- Thread 2 was woken and has returned; then the event is signaled once more.
abbrev signaled_again : System
signaled_again = record (after_signal 2 sleepers) {
  event = (signal_locked (after_signal 2 sleepers).event).1;
}

signaled_again-QuietRun : QuietRun (after_signal 2 sleepers) signaled_again
unfolding wait_attempt signal_locked
signaled_again-QuietRun = then_quiet still (signal_again refl)

signal_strands_example :
    QuietRun sleepers (after_signal 2 sleepers)
    × ((after_signal 2 sleepers).pc 2 ≡ away)
    × IsStranded 1 signaled_again
signal_strands_example = signal_strands 1 2 one_not_two refl refl refl refl signaled_again-QuietRun

-- A wait is interrupted above 2, and counts down. Others take the signal of the event: `ResetSignal`
-- finds it signaled at 0, and counts down above.
abbrev contended : EventCalls
contended = record {
  State = ℕ;
  create_event = λ s. (result 0x1203, record { value = 3 }, record { value = 4 }, s);
  wait_synchronization = λ s h forever. if leb s 2 then (result 0, s) else (result 0xEC01, s - 1);
  reset_signal = λ s h. if s == 0 then (result 0, 9) else (result 0xFA01, s - 1);
  signal_event = λ s h. (result 0, 0);
  clear_event = λ s h. (result 0, 9);
  close_handle = λ s h. (result 0, s);
}

abbrev loaded : Bool → KernelEvent
loaded auto = record {
  state = 1;
  is_auto_clear = auto;
  readable_handle = record { has_value = true; value = record { value = 4 } };
  writable_handle = record { has_value = true; value = record { value = 3 } };
}

interrupted : Fails contended 2 (record { value = 4 }) 4
unfolding is_ok
interrupted zero lt = refl
interrupted (suc zero) lt = refl
interrupted (suc (suc i)) lt = absurd (omega arith)

taken : Lacks contended 2 (record { value = 4 }) 2
taken zero lt = refl
taken (suc zero) lt = refl
taken (suc (suc i)) lt = absurd (omega arith)

wait_kernel_event_lem_example : wait_kernel_event contended 3 (loaded true) 4 ≡ returns tt 9
unfolding is_ok
wait_kernel_event_lem_example =
    wait_kernel_event_lem contended 2 2 3 (loaded true) 4 interrupted (inr refl) taken (inr refl)

-- A kernel with one event, of the handles 3 and 4: whether it is signaled.
abbrev pub one_event : Stubs
one_event = record {
  State = Bool;
  arbitrate_lock = λ s o a r. (result 0, s);
  arbitrate_unlock = λ s a. (result 0, s);
  output_debug_string = λ s str n. (result 0, s);
  signal_process_wide_key = λ s a n. (result 0, s);
  wait_process_wide_key_atomic = λ s m c h t. (result 0, s);
  sleep_thread = λ s n. s;
  close_handle = λ s h. (result 0, s);
  start_thread = λ s h. (result 0, s);
  wait_synchronization = λ s hs n t. (if s then result 0 else result 0xEA01, 0, s);
  create_thread = λ s e a t p c. (result 0, record { value = 5 }, s);
  exit_thread = λ s. s;
  exit_process = λ s. s;
  get_thread_priority = λ s h. (result 0, 44);
  set_thread_priority = λ s h p. (result 0, s);
  query_memory = λ s a. (
    result 0,
    record {
      address = 0;
      size = 0;
      kind = 0;
      attribute = 0;
      permission = 0;
      device_ref_count = 0;
      ipc_ref_count = 0;
    },
    0,
  );
  get_info = λ s t h n. (result 0, 0);
  map_memory = λ s d a n. (result 0, s);
  unmap_memory = λ s d a n. (result 0, s);
  break_process = λ s a b c. (result 0, s);
  get_system_tick = λ s. (0, s);
  create_event = λ s. (result 0, record { value = 3 }, record { value = 4 }, false);
  signal_event = λ s h. (result 0, true);
  clear_event = λ s h. (result 0, false);
  reset_signal = λ s h. (if s then result 0 else result 0xFA01, false);
}

one_event-StubLaws : StubLaws one_event
unfolding is_ok
one_event-StubLaws = record {
  signaled = λ s h. s;
  paired = λ s w r. Unit {0};
  wait_ok = λ s h t e. ground arith;
  wait_late = λ s h t e. ground arith;
  poll = λ s w r p. (ground arith, refl);
  reset_signaled = λ s h e. (ground arith, refl);
  reset_unsignaled = λ s h e. (ground arith, ground arith);
  reset_keeps = λ s w r p. tt;
  create = λ s e. (tt, refl);
  signal = λ s w r p. (refl, tt, refl);
  clear = λ s w r p. (refl, tt, refl);
}

create-signal-clear_example :
    let E : EventCalls = event_calls one_event in
    let made : KernelEvent = (create_kernel_event E true (loaded false) true).1 in
    (s1 : Bool) × (s2 : Bool) × (s3 : Bool) × (s4 : Bool) × Polls E made
      (create_kernel_event E true (loaded false) true).2
      false
      s1
    × (is_ok (signal_kernel_event E made s1).0 ≡ true)
    × Polls E made (signal_kernel_event E made s1).1 true s2
    × Polls E made s2 false s3
    × (is_ok (clear_kernel_event E made s3).0 ≡ true)
    × Polls E made (clear_kernel_event E made s3).1 false s4
unfolding is_ok
create-signal-clear_example =
    create-signal-clear one_event one_event-StubLaws (loaded false) true true refl

-- An event that is cleared automatically.
abbrev calm : UserEvent
calm = record (nobody_waits true).event { critical_section = 0 }

IsHandle_one : (0 < 1) × (1 < 2 ^ 30)
IsHandle_one = (omega arith, omega arith)

initialize-poll_example :
    (t : UserEvent) × (is_user_event_signaled
        (lone_caller 1 3 (λ v. v))
        (initialize_user_event true false calm)
      ≡ returns false t)
    × (t.is_signaled_at_init ≡ true)
    × (t.is_auto_clear ≡ false)
initialize-poll_example = initialize-poll 1 3 (λ v. v) IsHandle_one true false calm
