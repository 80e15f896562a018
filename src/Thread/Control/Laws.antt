-- ===== src/Thread/Control/Laws.antt =====
-- `StartThread` and `WaitThread`, with no other thread at the locks.
use hydrosphere.Common.{ℕ, zero, suc, ◌<◌, ◌≤◌, if◌then◌else◌, ◌≡◌, refl, true, false, arith}
use hydrosphere.Svc.{Handle, is_ok, code_of, returns}
use hydrosphere.CriticalSection.System.{IsHandle}
use hydrosphere.CriticalSection.Guarded.{Caller, lone_caller, guarded_alone}
use hydrosphere.ConditionVariable.{wake_one}
use hydrosphere.Thread.{started, ThreadCalls, Scene, thread_lock, unmap_stack}
use hydrosphere.Thread.Control.{
  start_locked, start_thread, wait_for_exit_thread, release_stack, wait_thread,
}

module _ (K : ThreadCalls) where
  -- The kernel interrupts the first `j` waits for a thread's handle, and the next one succeeds with
  -- the state at the end.
  pub data Waits (h : Handle) : ℕ → K.State → K.State → Type 0 where
    done_waiting :
        {k : K.State}
        → is_ok (K.wait_synchronization k h).0 ≡ true
        → Waits h 0 k (K.wait_synchronization k h).1
    wait_again :
        {j : ℕ} {k l : K.State}
        → is_ok (K.wait_synchronization k h).0 ≡ false
        → code_of (K.wait_synchronization k h).0 ≡ 0xEC01
        → Waits h j (K.wait_synchronization k h).1 l
        → Waits h (suc j) k l

  abbrev pub with_kernel : K.State → Scene K → Scene K
  with_kernel k s = record s { world = record (s.world) { kernel = k } }

  abbrev pub with_lock : ℕ → Scene K → Scene K
  with_lock v s = record s { thread = record (s.thread) { critical_section = v } }

  pub wait_for_exit_thread-Waits :
      (j n : ℕ) (meanwhile : Scene K → Scene K) (s : Scene K) {l : K.State}
      → Waits s.thread.thread_handle j s.world.kernel l
      → j < n
      → wait_for_exit_thread K n meanwhile s ≡ returns tt (meanwhile (with_kernel l s))
  unfolding wait_for_exit_thread
  wait_for_exit_thread-Waits j zero meanwhile s x b = absurd (omega arith)
  wait_for_exit_thread-Waits zero (suc n) meanwhile s (done_waiting ok) b = rw ok refl
  wait_for_exit_thread-Waits (suc j) (suc n) meanwhile s (wait_again bad code x) b =
      rw (bad, code)
        (wait_for_exit_thread-Waits j n meanwhile
          (with_kernel (K.wait_synchronization s.world.kernel s.thread.thread_handle).1 s) x
          (omega arith))

  pub release_stack-word :
      (s : Scene K) → (release_stack K s).thread.critical_section ≡ s.thread.critical_section
  unfolding release_stack
  release_stack-word s = ground arith

  module _ (self fuel : ℕ) (unlocked : ℕ → ℕ) (owner : IsHandle self) where
    abbrev caller : Caller
    caller = lone_caller self fuel unlocked

    -- `StartThread` of a thread that the kernel starts returns with the thread in the state started,
    -- its condition variable signaled once, after the start, and its lock free.
    pub start_thread-starts :
        (address : ℕ) (s : Scene K)
        → s.thread.critical_section ≡ 0
        → is_ok (K.start_thread s.world.kernel s.thread.thread_handle).0 ≡ true
        → start_thread K caller address s
          ≡ returns tt (record {
            thread = record (s.thread) { state = started; critical_section = 0 };
            world = record (s.world) {
              kernel =
                  K.signal_process_wide_key
                    (K.start_thread s.world.kernel s.thread.thread_handle).1
                    address
                    wake_one;
            };
          })
    unfolding start_thread start_locked
    start_thread-starts address s idle ok =
        guarded_alone (thread_lock K) self fuel unlocked (start_locked K address) s _ tt owner idle
          (rw ok refl) refl

    -- If the kernel interrupts the first `j` waits and the next one succeeds, and the lock is free
    -- then, `WaitThread` returns within `j + 1` rounds, with the lock free and no stack mapped. A
    -- stack that is mapped when the wait ends is unmapped, once; otherwise nothing more changes.
    pub wait_thread-releases :
        (j : ℕ) (meanwhile : Scene K → Scene K) (s : Scene K) (l : K.State)
        → Waits s.thread.thread_handle j s.world.kernel l
        → j ≤ fuel
        → let e : Scene K = meanwhile (with_kernel l s) in
          e.thread.critical_section ≡ 0
          → (t : Scene K) × (wait_thread K caller meanwhile s ≡ returns tt t)
            × (t.thread.critical_section ≡ 0)
            × (t.thread.state ≡ e.thread.state)
            × (t.thread.is_alias_thread_stack_mapped ≡ false)
            × (t.world ≡ (
                if e.thread.is_alias_thread_stack_mapped
                then unmap_stack K e.thread e.world
                else e.world))
    unfolding wait_thread release_stack unmap_stack
    wait_thread-releases j meanwhile s l x b idle =
        let e = meanwhile (with_kernel l s) in
        let u = release_stack K (with_lock self e) in
        let ends =
          guarded_alone (thread_lock K) self fuel unlocked (λ s2. returns tt (release_stack K s2)) e
            u tt owner idle refl (release_stack-word (with_lock self e)) in
        (
          with_lock 0 u,
          rw (wait_for_exit_thread-Waits j (suc fuel) meanwhile s x (omega arith), wait_thread)
              ends,
          refl,
          ground arith,
          ground arith,
          ground arith,
        )
