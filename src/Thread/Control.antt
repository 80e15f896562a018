-- ===== src/Thread/Control.antt =====
-- The calls of os_thread_api.cpp on a thread that was created: to start it, to wait for its end, to
-- destroy it, and its priority.
pub mod Laws
pub mod Destroy
use hydrosphere.Common.{
  ℕ, zero, suc, Bool, true, false, not, Option, none, some, [], ◌==◌, if◌then◌else◌,
}
use hydrosphere.Svc.{is_ok, code_of, Ending, returns, aborts, unfinished}
use hydrosphere.CriticalSection.Guarded.{Caller, guarded}
use hydrosphere.ConditionVariable.{wake_one}
use hydrosphere.ThreadList.{remove_thread}
use hydrosphere.Thread.{
  uninitialized, initialized, destroyed, started, exited, ThreadCalls, Thread, World, Scene,
  thread_lock, unmap_stack,
}

module _ (K : ThreadCalls) where
  -- What `StartThread` does under the lock, with `StartThreadUnsafe`.
  unfoldable pub start_locked : (address : ℕ) → Scene K → Ending (Scene K) (Unit {0})
  start_locked address s =
      let (r, k) = K.start_thread s.world.kernel s.thread.thread_handle in
      if not (is_ok r)
      then aborts
      else returns tt (record {
        thread = record (s.thread) { state = started };
        world = record (s.world) { kernel = K.signal_process_wide_key k address wake_one };
      })

  unfoldable pub start_thread : Caller → (address : ℕ) → Scene K → Ending (Scene K) (Unit {0})
  start_thread c address s = guarded (thread_lock K) c (start_locked address) s

  -- `WaitForExitThread`: again while the call is interrupted. `meanwhile` is what the thread and the
  -- others do before the wait succeeds.
  unfoldable pub wait_for_exit_thread :
      ℕ → (meanwhile : Scene K → Scene K) → Scene K → Ending (Scene K) (Unit {0})
  wait_for_exit_thread zero meanwhile s = unfinished
  wait_for_exit_thread (suc n) meanwhile s =
      let (r, k) = K.wait_synchronization s.world.kernel s.thread.thread_handle in
      let s' : Scene K = record s { world = record (s.world) { kernel = k } } in
      let rest = wait_for_exit_thread n meanwhile s' in
      if is_ok r
      then returns tt (meanwhile s')
      else (if not (code_of r == 0xEC01) then aborts else rest)

  -- The unmapping of `WaitThread` and `DestroyThread`.
  unfoldable pub release_stack : Scene K → Scene K
  release_stack s =
      if s.thread.is_alias_thread_stack_mapped
      then record {
        thread = record (s.thread) {
          is_alias_thread_stack_mapped = false;
          mapped_thread_stack = 0;
        };
        world = unmap_stack K s.thread s.world;
      }
      else s

  unfoldable pub wait_thread :
      Caller → (meanwhile : Scene K → Scene K) → Scene K → Ending (Scene K) (Unit {0})
  wait_thread c meanwhile s = elim (wait_for_exit_thread c.rounds meanwhile s) [
    | aborts ↦ aborts
    | unfinished ↦ unfinished
    | returns _ s1 ↦ guarded (thread_lock K) c (λ s2. returns tt (release_stack s2)) s1
  ]

  abbrev pub is_initialized : Thread → Bool
  is_initialized t = elim t.state [ initialized ↦ true | _ ↦ false ]

  -- The first hold of the lock in `DestroyThread`: a thread that was never started is started to exit.
  unfoldable pub start_to_exit : (address : ℕ) → Scene K → Ending (Scene K) (Unit {0})
  start_to_exit address s =
      let (r, k) = K.start_thread s.world.kernel s.thread.thread_handle in
      if is_initialized s.thread
      then (if not (is_ok r)
          then aborts
          else returns tt (record {
            thread = record (s.thread) { state = destroyed };
            world = record (s.world) { kernel = K.signal_process_wide_key k address wake_one };
          }))
      else returns tt s

  -- The second one, with `DestroyThreadUnsafe`.
  unfoldable pub destroy_locked : Caller → (address : ℕ) → Scene K → Ending (Scene K) (Unit {0})
  destroy_locked c address s =
      let s1 = release_stack s in
      let (r, k) = K.close_handle s1.world.kernel s1.thread.thread_handle in
      if not (is_ok r)
      then aborts
      else elim (remove_thread c address s1.world.threads s1.world.store) [
        | none ↦ unfinished
        | some (l, h) ↦ returns tt (record {
          thread = record (s1.thread) { state = uninitialized; thread_name = [] };
          world = record (s1.world) { kernel = k; threads = l; store = h };
        })
      ]

  unfoldable pub destroy_thread :
      Caller
      → (meanwhile : Scene K → Scene K) → (address : ℕ) → Scene K
      → Ending (Scene K) (Unit {0})
  destroy_thread c meanwhile address s =
      elim (guarded (thread_lock K) c (start_to_exit address) s) [
        | aborts ↦ aborts
        | unfinished ↦ unfinished
        | returns _ s1 ↦ elim (wait_for_exit_thread c.rounds meanwhile s1) [
          | aborts ↦ aborts
          | unfinished ↦ unfinished
          | returns _ s2 ↦ guarded (thread_lock K) c (destroy_locked c address) s2
        ]
      ]

  -- The priority before is returned. The result of `SetThreadPriority` is not looked at.
  unfoldable pub change_thread_priority : Caller → (priority : ℕ) → Scene K → Ending (Scene K) ℕ
  change_thread_priority c priority s =
      guarded (thread_lock K) c
        (λ s1. returns s1.thread.priority (record {
          thread = record (s1.thread) { priority = priority };
          world = record (s1.world) {
            kernel = K.set_thread_priority s1.world.kernel s1.thread.thread_handle priority;
          };
        }))
        s

  unfoldable pub get_original_thread_priority : Thread → ℕ
  get_original_thread_priority t = t.priority

  -- `none` is an abort.
  unfoldable pub get_current_thread_priority : Scene K → Option ℕ
  get_current_thread_priority s =
      let (r, priority) = K.get_thread_priority s.world.kernel s.thread.thread_handle in
      if not (is_ok r) then none else some priority
