-- ===== src/Thread/Lifetime.antt =====
-- A thread from `CreateThread` to `DestroyThread`, with no other thread at the locks.
use mathlib.Core.List.{append-nil}
use hydrosphere.Common.{ℕ, ◌≤◌, ◌≡◌, ◌∙◌, ◌≢◌, refl, ap, true, false, List, [], ◌∷◌, ◌++◌, inl, has}
use hydrosphere.Svc.{Handle, Result, is_ok, returns}
use hydrosphere.CriticalSection.System.{IsHandle}
use hydrosphere.CriticalSection.Guarded.{Caller, lone_caller}
use hydrosphere.IntrusiveList.{Ptr}
use hydrosphere.IntrusiveList.Chain.{Ring}
use hydrosphere.ConditionVariable.{wake_one}
use hydrosphere.Allocator.{VirtualMemoryAllocator}
use hydrosphere.ThreadList.{Holds}
use hydrosphere.Thread.{
  uninitialized, exited, ThreadCalls, Thread, World, Scene, unnamed_thread, new_thread,
}
use hydrosphere.Thread.Creation.{create_thread}
use hydrosphere.Thread.Creation.Attempts.{attempt, after_attempts, Exhausts}
use hydrosphere.Thread.Creation.Laws.{
  IsMapped, mapped_thread, mapped_kernel, create_thread-succeeds,
}
use hydrosphere.Thread.Control.{start_thread, destroy_thread}
use hydrosphere.Thread.Control.Laws.{Waits, start_thread-starts}
use hydrosphere.Thread.Control.Destroy.{destroy_thread-Holds}

module _ (K : ThreadCalls) where
  -- What the thread does until it ends: it is exited, and the kernel's state has changed.
  abbrev pub runs : (K.State → K.State) → Scene K → Scene K
  runs f s = record {
    thread = record (s.thread) { state = exited };
    world = record (s.world) { kernel = f s.world.kernel };
  }

  -- The kernel after `StartThread`.
  abbrev pub after_start : (address : ℕ) → Handle → K.State → K.State
  after_start address h k = K.signal_process_wide_key (K.start_thread k h).1 address wake_one

module _ (K : ThreadCalls) (self fuel : ℕ) (unlocked : ℕ → ℕ) (owner : IsHandle self) where
  caller : Caller
  caller = lone_caller self fuel unlocked

  start-destroy :
      (address : Ptr) (s : Scene K) (f : K.State → K.State) (i : ℕ) (l : K.State) (ts : List Ptr)
      → s.thread.critical_section ≡ 0
      → s.thread.is_alias_thread_stack_mapped ≡ true
      → Holds s.world.threads s.world.store (ts ++ address ∷ [])
      → address ≢ s.world.threads.main_thread
      → is_ok (K.start_thread s.world.kernel s.thread.thread_handle).0 ≡ true
      → Waits K s.thread.thread_handle i
          (after_start K address s.thread.thread_handle s.world.kernel)
          l
      → i ≤ fuel
      → let unmapped : K.State =
          K.unmap_memory
            (f l)
            s.thread.mapped_thread_stack
            s.thread.original_thread_stack
            s.thread.thread_stack_size in
        is_ok (K.close_handle unmapped s.thread.thread_handle).0 ≡ true
        → (s2 : Scene K) × (t : Scene K) × (start_thread K caller address s ≡ returns tt s2)
          × (destroy_thread K caller (runs K f) address s2 ≡ returns tt t)
          × Holds t.world.threads t.world.store (ts ++ [])
          × Ring t.world.store address []
          × (t.thread.state ≡ uninitialized)
          × (t.world.kernel ≡ (K.close_handle unmapped s.thread.thread_handle).1)
  unfolding caller
  start-destroy address s f i l ts idle mapped held other starts waits b closes =
      let begun = start_thread-starts K self fuel unlocked owner address s idle starts in
      let (t, e, holds, alone, over, _, _, _, kernel) =
        destroy_thread-Holds K self fuel unlocked owner i (runs K f) address _ l ts [] refl
          (inl refl) waits b refl held other (rw mapped closes) in
      (_, t, begun, e, holds, alone, over, rw mapped at kernel)

  -- A state of a scene by its parts.
  scene_parts :
      (s : Scene K) {u : Thread} {k : K.State}
      → s.thread ≡ u
      → s.world.kernel ≡ k
      → s ≡ record { thread = u; world = record (s.world) { kernel = k } }
  scene_parts s a b = λ i. record { thread = a i; world = record (s.world) { kernel = b i } }

  module _ (entry address entrypoint argument stack stack_size priority cpuid mirror : ℕ)
      (w : World K) (a : VirtualMemoryAllocator) where
    -- The kernel's answer to the attempt after `j` refused ones.
    abbrev pub creation : ℕ → Result × Handle × K.State
    creation j =
        let t =
          mapped_thread K self fuel unlocked owner entry address entrypoint argument stack
            stack_size priority cpuid mirror w a in
        attempt K entry address cpuid t (
          after_attempts K entry address cpuid j t (
            mapped_kernel K self fuel unlocked owner entry address entrypoint argument stack
              stack_size priority cpuid mirror w a))

    -- The kernel creates the thread after `j` refusals, starts it, lets it run, after which a wait for
    -- it succeeds with `i` interruptions before, and closes its handle.
    pub record IsServed (j i : ℕ) (f : K.State → K.State) (l : K.State) : Type 0 where
      pub refused :
          Exhausts K entry address cpuid
            (mapped_thread K self fuel unlocked owner entry address entrypoint argument stack
              stack_size priority cpuid mirror w a)
            j
            (mapped_kernel K self fuel unlocked owner entry address entrypoint argument stack
              stack_size priority cpuid mirror w a)
      pub attempts : j ≤ 8
      pub creates : is_ok (creation j).0 ≡ true
      pub starts : is_ok (K.start_thread (creation j).2 (creation j).1).0 ≡ true
      pub waits : Waits K (creation j).1 i (after_start K address (creation j).1 (creation j).2) l
      pub closes :
          is_ok (K.close_handle (K.unmap_memory (f l) mirror stack stack_size) (creation j).1).0
          ≡ true

    -- If the allocator and the kernel map the stack, the kernel serves the thread with at most `fuel`
    -- interruptions, the memory at the thread's address is in no list and is not the main thread's, and
    -- no other thread is at the locks, then `CreateThread`, `StartThread`, and `DestroyThread`, while the
    -- thread runs to its end, all return. The list of threads is then as it was before, and the thread
    -- is in no list and uninitialized; the kernel has unmapped its stack and then closed its handle.
    pub create-start-destroy :
        (ts : List Ptr) (j i : ℕ) (f : K.State → K.State) (l : K.State)
        → address ≢ 0
        → IsMapped K self fuel unlocked owner entry address entrypoint argument stack stack_size
            priority cpuid mirror w a
        → Holds w.threads w.store ts
        → has address (w.threads.root ∷ ts) ≡ false
        → address ≢ w.threads.main_thread
        → IsServed j i f l
        → i ≤ fuel
        → let c : Caller = lone_caller self fuel unlocked in
          (s1 : Scene K) × (s2 : Scene K) × (t : Scene K) × (create_thread K c entry address
              entrypoint argument stack stack_size priority cpuid w
            ≡ returns (creation j).0 s1)
          × (start_thread K c address s1 ≡ returns tt s2)
          × (destroy_thread K c (runs K f) address s2 ≡ returns tt t)
          × Holds t.world.threads t.world.store ts
          × Ring t.world.store address []
          × (t.thread.state ≡ uninitialized)
          × (t.world.kernel
              ≡ (K.close_handle (K.unmap_memory (f l) mirror stack stack_size) (creation j).1).1)
    unfolding new_thread caller
    create-start-destroy ts j i f l some_address x held fresh other served b =
        let (s, made, listed, same, kernel, main) =
          create_thread-succeeds K self fuel unlocked owner entry address entrypoint argument stack
            stack_size priority cpuid mirror w a ts some_address x held fresh j served.refused
            served.attempts served.creates in
        let s1 : Scene K = record {
          thread =
              record (mapped_thread K self fuel unlocked owner entry address entrypoint argument
                stack stack_size priority cpuid mirror w a) {
                  thread_handle = (creation j).1;
                  thread_name = unnamed_thread;
                };
          world = record (s.world) { kernel = (creation j).2 };
        } in
        let (s2, t, begun, ended, holds, alone, over, final) =
          start-destroy address s1 f i l ts refl refl listed (rw main other) served.starts
            served.waits b served.closes in
        (
          s1,
          s2,
          t,
          made ∙ ap (returns (creation j).0) (scene_parts s same kernel),
          begun,
          ended,
          rw append-nil at holds,
          alone,
          over,
          final,
        )
