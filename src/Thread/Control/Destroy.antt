-- ===== src/Thread/Control/Destroy.antt =====
-- `DestroyThread`, with no other thread at the locks.
use hydrosphere.Common.{
  ℕ, suc, ◌≤◌, if◌then◌else◌, ◌≡◌, ◌≢◌, refl, true, false, arith, List, [], ◌∷◌, ◌++◌, Bool-cases,
  inl, inr, ◌⊎◌,
}
use hydrosphere.Svc.{is_ok, returns}
use hydrosphere.CriticalSection.System.{IsHandle}
use hydrosphere.CriticalSection.Guarded.{lone_caller, guarded, guarded_alone}
use hydrosphere.IntrusiveList.{Ptr, Store}
use hydrosphere.IntrusiveList.Chain.{Ring}
use hydrosphere.ConditionVariable.{wake_one}
use hydrosphere.ThreadList.{ThreadList, Holds, remove_thread-Holds}
use hydrosphere.Thread.{uninitialized, destroyed, ThreadCalls, Scene, thread_lock, unmap_stack}
use hydrosphere.Thread.Control.{
  release_stack, is_initialized, start_to_exit, destroy_locked, destroy_thread,
}
use hydrosphere.Thread.Control.Laws.{
  Waits, with_kernel, with_lock, wait_for_exit_thread-Waits, release_stack-word,
}

module _ (K : ThreadCalls) (self fuel : ℕ) (unlocked : ℕ → ℕ) (owner : IsHandle self) where
  -- A thread that `DestroyThread` starts to exit.
  abbrev pub sent_to_exit : (address : ℕ) → Scene K → Scene K
  sent_to_exit address s = record {
    thread = record (s.thread) { state = destroyed };
    world = record (s.world) {
      kernel =
          K.signal_process_wide_key (K.start_thread s.world.kernel s.thread.thread_handle).1 address
            wake_one;
    };
  }

  -- What its first hold of the lock leaves.
  abbrev pub prepared : (address : ℕ) → Scene K → Scene K
  prepared address s =
      if is_initialized K s.thread then with_lock K 0 (sent_to_exit address s) else with_lock K 0 s

  start_to_exit_alone :
      (address : ℕ) (s : Scene K)
      → s.thread.critical_section ≡ 0
      → (is_initialized K s.thread ≡ false)
        ⊎ (is_ok (K.start_thread s.world.kernel s.thread.thread_handle).0 ≡ true)
      → guarded (thread_lock K) (lone_caller self fuel unlocked) (start_to_exit K address) s
        ≡ returns tt (prepared address s)
  unfolding start_to_exit
  start_to_exit_alone address s idle can = elim (Bool-cases (is_initialized K s.thread)) [
    | inl first ↦ rw first (
        guarded_alone (thread_lock K) self fuel unlocked (start_to_exit K address) s
          (with_lock K self (sent_to_exit address s)) tt owner idle (ground arith) refl)
    | inr later ↦ rw later (
        guarded_alone (thread_lock K) self fuel unlocked (start_to_exit K address) s
          (with_lock K self s) tt owner idle (rw later refl) refl)
  ]

  -- For a thread whose stack is released already.
  destroy_locked_alone :
      (address : Ptr) (e : Scene K) (before after : List Ptr)
      → let r : Scene K = release_stack K e in
        Holds r.world.threads r.world.store (before ++ address ∷ after)
        → address ≢ r.world.threads.main_thread
        → is_ok (K.close_handle r.world.kernel r.thread.thread_handle).0 ≡ true
        → (m : ThreadList) × (g : Store) × (destroy_locked K
              (lone_caller self fuel unlocked)
              address
              e
            ≡ returns tt (record {
              thread = record (r.thread) { state = uninitialized; thread_name = [] };
              world = record (r.world) {
                kernel = (K.close_handle r.world.kernel r.thread.thread_handle).1;
                threads = m;
                store = g;
              };
            }))
          × Holds m g (before ++ after)
          × Ring g address []
  unfolding destroy_locked
  destroy_locked_alone address e before after k other ok =
      let (m, g, ends, held, alone) =
        remove_thread-Holds fuel unlocked self owner address before after k other in
      (m, g, rw (ok, destroy_locked) (rw ends refl), held, alone)

  release_stack-Holds :
      (e : Scene K) (ts : List Ptr)
      → Holds e.world.threads e.world.store ts
      → Holds (release_stack K e).world.threads (release_stack K e).world.store ts
  unfolding release_stack unmap_stack
  release_stack-Holds e ts k = elim (Bool-cases e.thread.is_alias_thread_stack_mapped) [
    | inl mapped ↦ rw mapped k
    | inr bare ↦ rw bare k
  ]

  -- The kernel after a stack that is mapped was unmapped.
  abbrev pub unmapped : Scene K → K.State
  unmapped e =
      if e.thread.is_alias_thread_stack_mapped
      then K.unmap_memory e.world.kernel e.thread.mapped_thread_stack e.thread.original_thread_stack
          e.thread.thread_stack_size
      else e.world.kernel

  release_stack_lem :
      (e : Scene K)
      → ((release_stack K e).world.threads ≡ e.world.threads)
        × ((release_stack K e).thread.thread_handle ≡ e.thread.thread_handle)
        × ((release_stack K e).thread.is_alias_thread_stack_mapped ≡ false)
        × ((release_stack K e).world.kernel ≡ unmapped e)
  unfolding release_stack unmap_stack
  release_stack_lem e = (ground arith, ground arith, ground arith, ground arith)

  -- If the kernel starts a thread that was never started, interrupts the first `j` waits for the
  -- thread's end and then lets one succeed, with the thread's lock free and the thread in the list
  -- then, and closes its handle, `DestroyThread` of a thread other than the main one returns within
  -- `j + 1` rounds. The thread has left the list and is in no list; it is uninitialized, without a
  -- name and without a mapped stack, and its lock is free. The kernel has unmapped a stack that was
  -- mapped, and then closed the handle.
  pub destroy_thread-Holds :
      (j : ℕ) (meanwhile : Scene K → Scene K) (address : Ptr) (s : Scene K) (l : K.State)
      (before after : List Ptr)
      → s.thread.critical_section ≡ 0
      → (is_initialized K s.thread ≡ false)
        ⊎ (is_ok (K.start_thread s.world.kernel s.thread.thread_handle).0 ≡ true)
      → Waits K (prepared address s).thread.thread_handle j (prepared address s).world.kernel l
      → j ≤ fuel
      → let e : Scene K = meanwhile (with_kernel K l (prepared address s)) in
        e.thread.critical_section ≡ 0
        → Holds e.world.threads e.world.store (before ++ address ∷ after)
        → address ≢ e.world.threads.main_thread
        → is_ok (K.close_handle (unmapped e) e.thread.thread_handle).0 ≡ true
        → (t : Scene K) × (destroy_thread K (lone_caller self fuel unlocked) meanwhile address s
            ≡ returns tt t)
          × Holds t.world.threads t.world.store (before ++ after)
          × Ring t.world.store address []
          × (t.thread.state ≡ uninitialized)
          × (t.thread.thread_name ≡ [])
          × (t.thread.is_alias_thread_stack_mapped ≡ false)
          × (t.thread.critical_section ≡ 0)
          × (t.world.kernel ≡ (K.close_handle (unmapped e) e.thread.thread_handle).1)
  unfolding destroy_thread
  destroy_thread-Holds j meanwhile address s l before after idle can x b free k other ok =
      let e = meanwhile (with_kernel K l (prepared address s)) in
      let f = with_lock K self e in
      let (same, handle, bare, kernel) = release_stack_lem f in
      let (m, g, ends, held, alone) =
        destroy_locked_alone address f before after
          (release_stack-Holds f (before ++ address ∷ after) k) (rw same other)
          (rw (kernel, handle) ok) in
      let r = release_stack K f in
      let u : Scene K = record {
        thread = record (r.thread) { state = uninitialized; thread_name = [] };
        world = record (r.world) {
          kernel = (K.close_handle r.world.kernel r.thread.thread_handle).1;
          threads = m;
          store = g;
        };
      } in
      let last =
        guarded_alone (thread_lock K) self fuel unlocked
          (destroy_locked K (lone_caller self fuel unlocked) address) e u tt owner free ends
          (release_stack-word K f) in
      let waited =
        wait_for_exit_thread-Waits K j (suc fuel) meanwhile (prepared address s) x (omega arith) in
      (
        with_lock K 0 u,
        rw (start_to_exit_alone address s idle can, destroy_thread) (rw waited last),
        held,
        alone,
        refl,
        refl,
        bare,
        refl,
        rw (kernel, handle) refl,
      )
