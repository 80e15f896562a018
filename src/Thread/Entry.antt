-- ===== src/Thread/Entry.antt =====
-- The life of one thread, in steps: `_thread_entry_wrapper` of os_thread_api.cpp, which the thread
-- itself runs, among any number of threads that call `StartThread`, `DestroyThread` and `WaitThread`
-- on it. A step is one access to the thread's state, one call of a system function, or one
-- acquisition or release of the thread's lock. The lock is taken as what the critical section is
-- shown to be: at most one thread is inside, and `Enter` gets in when none is.
pub mod Invariant
pub mod Safety
pub mod Progress
use hydrosphere.Common.{ℕ, ◌+◌, Bool, true, false, ◌==◌, ◌≡◌, if◌then◌else◌}
use hydrosphere.Thread.{ThreadState, uninitialized, initialized, destroyed, started, exited}

-- Where `_thread_entry_wrapper` stands.
pub data EntryPc : Type 0 where
  unborn : EntryPc  -- the kernel has not started the thread
  entering : EntryPc  -- at the first `Enter`, or on the way back from a wait to it
  testing : EntryPc  -- at the test of the loop, in the lock
  sleeping : EntryPc  -- in `Wait`
  admitted : EntryPc  -- at the `Leave` before the entry point
  dismissed : EntryPc  -- at the `Leave` of the premature exit
  calling : EntryPc  -- at the call of the entry point
  finishing : EntryPc  -- at the second `Enter`
  recording : EntryPc  -- at the write of the state exited
  announcing : EntryPc  -- at the `Broadcast`
  departing : EntryPc  -- at the last `Leave`
  ending : EntryPc  -- at `ExitThread`
  gone : EntryPc

-- Where a thread stands that controls it.
pub data ControlPc : Type 0 where
  elsewhere : ControlPc
  start_entering start_asking start_writing start_signaling start_leaving : ControlPc
  destroy_entering destroy_testing destroy_writing destroy_asking : ControlPc
  destroy_signaling destroy_leaving destroy_waiting : ControlPc
  reap_entering reap_writing reap_leaving : ControlPc
  wait_waiting wait_entering wait_leaving : ControlPc

-- Who is in the lock.
pub data Holder : Type 0 where
  nobody : Holder
  itself : Holder
  controller : ℕ → Holder

-- `calls` counts the calls of the entry point. `starts` and `reaped` say whether `StartThread` has
-- written its state, and whether `DestroyThread` has written its last one.
pub record Life : Type 0 where
  pub state : ThreadState
  pub lock : Holder
  pub entry : EntryPc
  pub control : ℕ → ControlPc
  pub calls : ℕ
  pub starts : Bool
  pub reaped : Bool

-- A thread that `CreateThread` has returned.
abbrev pub created : Life
created = record {
  state = initialized;
  lock = nobody;
  entry = unborn;
  control = λ i. elsewhere;
  calls = 0;
  starts = false;
  reaped = false;
}

-- The test of the loop, and the branch behind it.
unfoldable pub entry_branch : ThreadState → EntryPc
entry_branch initialized = sleeping
entry_branch started = admitted
entry_branch uninitialized = dismissed
entry_branch destroyed = dismissed
entry_branch exited = dismissed

-- `Wait` lets the lock go.
abbrev pub after_test : EntryPc → Holder
after_test sleeping = nobody
after_test _ = itself

abbrev pub is_free : Holder → Bool
is_free nobody = true
is_free itself = false
is_free (controller i) = false

-- Whether `_thread_entry_wrapper` can take its next step, and that step.
abbrev pub entry_ready : EntryPc → Holder → Bool
entry_ready unborn l = false
entry_ready sleeping l = false
entry_ready gone l = false
entry_ready entering l = is_free l
entry_ready finishing l = is_free l
entry_ready testing l = true
entry_ready admitted l = true
entry_ready dismissed l = true
entry_ready calling l = true
entry_ready recording l = true
entry_ready announcing l = true
entry_ready departing l = true
entry_ready ending l = true

unfoldable pub entry_step : EntryPc → Life → Life
unfolding entry_branch
entry_step unborn s = s
entry_step entering s = record s { lock = itself; entry = testing }
entry_step testing s = record s {
  lock = after_test (entry_branch s.state);
  entry = entry_branch s.state;
}
entry_step sleeping s = s
entry_step admitted s = record s { lock = nobody; entry = calling }
entry_step dismissed s = record s { lock = nobody; entry = finishing }
entry_step calling s = record s { calls = s.calls + 1; entry = finishing }
entry_step finishing s = record s { lock = itself; entry = recording }
entry_step recording s = record s { state = exited; entry = announcing }
entry_step announcing s = record s { entry = departing }
entry_step departing s = record s { lock = nobody; entry = ending }
entry_step ending s = record s { entry = gone }
entry_step gone s = s

-- The kernel starts a thread that it has not started yet. For any other its `StartThread` fails, and
-- the process aborts.
abbrev pub is_unborn : EntryPc → Bool
is_unborn unborn = true
is_unborn _ = false

abbrev pub is_gone : EntryPc → Bool
is_gone gone = true
is_gone _ = false

-- `Signal` of the condition variable.
abbrev pub signaled : EntryPc → EntryPc
signaled sleeping = entering
signaled p = p

abbrev pub is_initialized : ThreadState → Bool
is_initialized initialized = true
is_initialized _ = false

abbrev pub update_control : (ℕ → ControlPc) → ℕ → ControlPc → ℕ → ControlPc
update_control f i p j = if j == i then p else f j

-- Whether the thread `i`, which stands at the place given, can take its next step.
abbrev pub control_ready : ControlPc → Life → Bool
control_ready start_entering s = is_free s.lock
control_ready destroy_entering s = is_free s.lock
control_ready reap_entering s = is_free s.lock
control_ready wait_entering s = is_free s.lock
control_ready start_asking s = is_unborn s.entry
control_ready destroy_asking s = is_unborn s.entry
control_ready destroy_waiting s = is_gone s.entry
control_ready wait_waiting s = is_gone s.entry
control_ready elsewhere s = false
control_ready start_writing s = true
control_ready start_signaling s = true
control_ready start_leaving s = true
control_ready destroy_testing s = true
control_ready destroy_writing s = true
control_ready destroy_signaling s = true
control_ready destroy_leaving s = true
control_ready reap_writing s = true
control_ready reap_leaving s = true
control_ready wait_leaving s = true

-- That step, less where the thread goes then.
unfoldable pub control_effect : (i : ℕ) → ControlPc → Life → Life
control_effect i start_entering s = record s { lock = controller i }
control_effect i start_asking s = record s { entry = entering }
control_effect i start_writing s = record s { state = started; starts = true }
control_effect i start_signaling s = record s { entry = signaled s.entry }
control_effect i start_leaving s = record s { lock = nobody }
control_effect i destroy_entering s = record s { lock = controller i }
control_effect i destroy_testing s = s
control_effect i destroy_writing s = record s { state = destroyed }
control_effect i destroy_asking s = record s { entry = entering }
control_effect i destroy_signaling s = record s { entry = signaled s.entry }
control_effect i destroy_leaving s = record s { lock = nobody }
control_effect i destroy_waiting s = s
control_effect i reap_entering s = record s { lock = controller i }
control_effect i reap_writing s = record s { state = uninitialized; reaped = true }
control_effect i reap_leaving s = record s { lock = nobody }
control_effect i wait_waiting s = s
control_effect i wait_entering s = record s { lock = controller i }
control_effect i wait_leaving s = record s { lock = nobody }
control_effect i elsewhere s = s

unfoldable pub control_next : ControlPc → ThreadState → ControlPc
control_next start_entering st = start_asking
control_next start_asking st = start_writing
control_next start_writing st = start_signaling
control_next start_signaling st = start_leaving
control_next start_leaving st = elsewhere
control_next destroy_entering st = destroy_testing
control_next destroy_testing st = if is_initialized st then destroy_writing else destroy_leaving
control_next destroy_writing st = destroy_asking
control_next destroy_asking st = destroy_signaling
control_next destroy_signaling st = destroy_leaving
control_next destroy_leaving st = destroy_waiting
control_next destroy_waiting st = reap_entering
control_next reap_entering st = reap_writing
control_next reap_writing st = reap_leaving
control_next reap_leaving st = elsewhere
control_next wait_waiting st = wait_entering
control_next wait_entering st = wait_leaving
control_next wait_leaving st = elsewhere
control_next elsewhere st = elsewhere

unfoldable pub control_step : (i : ℕ) → ControlPc → Life → Life
unfolding control_effect control_next
control_step i p s = record (control_effect i p s) {
  control = update_control s.control i (control_next p s.state);
}

-- The first steps of `StartThread`, `DestroyThread` and `WaitThread`.
abbrev pub is_beginning : ControlPc → Bool
is_beginning start_entering = true
is_beginning destroy_entering = true
is_beginning wait_waiting = true
is_beginning _ = false

pub data Step (s : Life) : Life → Type 0 where
  entry : entry_ready s.entry s.lock ≡ true → Step s (entry_step s.entry s)
  begin :
      (i : ℕ) (p : ControlPc)
      → s.control i ≡ elsewhere
      → is_beginning p ≡ true
      → Step s (record s { control = update_control s.control i p })
  control : (i : ℕ) → control_ready (s.control i) s ≡ true → Step s (control_step i (s.control i) s)

pub data Reach : Life → Type 0 where
  here : Reach created
  next : {s t : Life} → Reach s → Step s t → Reach t
