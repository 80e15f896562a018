-- ===== src/Thread/Creation/Laws.antt =====
-- `CreateThread` from its first call to the last, with no other thread at the locks.
use hydrosphere.Common.{
  ℕ, ◌≤◌, ◌≡◌, ◌≢◌, ◌∙◌, refl, true, false, some, arith, Bool-cases, inl, inr, List, [], ◌∷◌, ◌++◌,
  has, ==_ne, if◌then◌else◌,
}
use hydrosphere.Svc.{Handle, Result, is_ok, is_err, returns}
use hydrosphere.CriticalSection.System.{IsHandle}
use hydrosphere.CriticalSection.Guarded.{Caller, lone_caller}
use hydrosphere.IntrusiveList.{Ptr, construct}
use hydrosphere.IntrusiveList.Chain.{Ring}
use hydrosphere.IntrusiveList.Laws.{construct-Ring, construct-frame}
use hydrosphere.Allocator.{VirtualMemoryAllocator, reserve}
use hydrosphere.ThreadList.{Holds, add_thread-Holds}
use hydrosphere.Thread.{
  ThreadCalls, Thread, World, Scene, unnamed_thread, out_of_resources, new_thread, unmap_stack,
}
use hydrosphere.Thread.Creation.{
  create_alias_stack_unsafe, create_thread_tail, create_mapped, create_thread,
}
use hydrosphere.Thread.Creation.Attempts.{
  attempt, after_attempts, Exhausts, create_thread_unsafe-succeeds, create_thread_unsafe-gives_up,
}

pub ok-not-err : (r : Result) → is_ok r ≡ true → is_err r ≡ false
unfolding is_err
ok-not-err r e = ground arith

module _ (K : ThreadCalls) (self fuel : ℕ) (unlocked : ℕ → ℕ) (owner : IsHandle self) where
  abbrev caller : Caller
  caller = lone_caller self fuel unlocked

  -- The thread joins the list also when the result is an error.
  tail-Holds :
      (address : Ptr) (w : World K) (r : Result) (t : Thread) (ts : List Ptr)
      → Holds w.threads w.store ts
      → Ring w.store address []
      → has address (w.threads.root ∷ ts) ≡ false
      → let after : World K = if is_err r then unmap_stack K t w else w in
        (s : Scene K) × (create_thread_tail K caller address w (r, t) ≡ returns r s)
        × Holds s.world.threads s.world.store (ts ++ address ∷ [])
        × (s.thread ≡ record t { thread_name = unnamed_thread })
        × (s.world.kernel ≡ after.kernel)
        × (s.world.stack_allocator ≡ after.stack_allocator)
        × (s.world.threads.main_thread ≡ w.threads.main_thread)
  unfolding create_thread_tail unmap_stack
  tail-Holds address w r t ts k alone fresh =
      let (m, g, e, held, main) =
        add_thread-Holds fuel unlocked self owner address ts k alone fresh in
      elim (Bool-cases (is_err r)) [
        | inr ok ↦ (
          record {
            thread = record t { thread_name = unnamed_thread };
            world = record w { threads = m; store = g };
          },
          rw (ok, create_thread_tail) (rw e (rw ok refl)),
          held,
          refl,
          rw ok refl,
          rw ok refl,
          main,
        )
        | inl bad ↦ (
          record {
            thread = record t { thread_name = unnamed_thread };
            world = record (unmap_stack K t w) { threads = m; store = g };
          },
          rw (bad, create_thread_tail) (rw e (rw bad refl)),
          held,
          refl,
          rw bad refl,
          rw bad refl,
          main,
        )
      ]

  module _ (entry address entrypoint argument stack stack_size priority cpuid mirror : ℕ)
      (w : World K) (a : VirtualMemoryAllocator) where
    -- The thread whose stack is mapped at `mirror`, and the world then.
    abbrev pub mapped_thread : Thread
    mapped_thread = record (new_thread entrypoint argument stack stack_size priority) {
      mapped_thread_stack = mirror;
      is_alias_thread_stack_mapped = true;
    }

    abbrev pub mapped_kernel : K.State
    mapped_kernel = (K.map_memory w.kernel mirror stack stack_size).1

    abbrev pub mapped_world : World K
    mapped_world = record w {
      kernel = mapped_kernel;
      stack_allocator = a;
      store = construct address w.store;
    }

    -- The allocator gives the stack's mirror, and the kernel maps it.
    pub record IsMapped : Type 0 where
      pub reserved :
          reserve caller (K.query_memory w.kernel) stack_size 0x1000 w.stack_allocator
          ≡ some (mirror, a)
      pub found : mirror ≢ 0
      pub maps : is_ok (K.map_memory w.kernel mirror stack stack_size).0 ≡ true

    alias-mapped :
        IsMapped
        → create_alias_stack_unsafe K caller
            (new_thread entrypoint argument stack stack_size priority)
            (record w { store = construct address w.store })
          ≡ some ((K.map_memory w.kernel mirror stack stack_size).0, mapped_thread, mapped_world)
    unfolding create_alias_stack_unsafe new_thread
    alias-mapped x =
        rw (x.reserved, create_alias_stack_unsafe) (rw (==_ne mirror 0 x.found, x.maps) refl)

    pub create_thread-mapped :
        address ≢ 0
        → IsMapped
        → create_thread K caller entry address entrypoint argument stack stack_size priority cpuid w
          ≡ create_mapped K caller entry address cpuid mapped_thread mapped_world
    unfolding create_thread
    create_thread-mapped some_address x =
        rw (==_ne address 0 some_address, alias-mapped x, create_thread) (rw x.maps refl)

    module _ (ts : List Ptr) (some_address : address ≢ 0) (x : IsMapped)
        (k : Holds w.threads w.store ts) (fresh : has address (w.threads.root ∷ ts) ≡ false) where
      listed : Holds w.threads (construct address w.store) ts
      listed = record { ring = construct-frame address k.ring fresh; idle = k.idle }

      -- If the stack is mapped and the kernel's resources are exhausted for at most eight attempts
      -- and there for the next one, `CreateThread` returns the kernel's success. The thread is last
      -- in the list, initialized, and has the kernel's handle, the mapped stack and its name, and the
      -- main thread is the same. The memory at its address must be in no list, and no other thread at the locks.
      pub create_thread-succeeds :
          (j : ℕ)
          → Exhausts K entry address cpuid mapped_thread j mapped_kernel
          → j ≤ 8
          → let made : Result × Handle × K.State =
              attempt K entry address cpuid mapped_thread
                (after_attempts K entry address cpuid j mapped_thread mapped_kernel) in
            is_ok made.0 ≡ true
            → (s : Scene K) × (create_thread K caller entry address entrypoint argument stack
                  stack_size priority cpuid w
                ≡ returns made.0 s)
              × Holds s.world.threads s.world.store (ts ++ address ∷ [])
              × (s.thread
                  ≡ record mapped_thread { thread_handle = made.1; thread_name = unnamed_thread })
              × (s.world.kernel ≡ made.2)
              × (s.world.threads.main_thread ≡ w.threads.main_thread)
      unfolding create_mapped
      create_thread-succeeds j e le ok =
          let (r, h, l) =
            attempt K entry address cpuid mapped_thread
              (after_attempts K entry address cpuid j mapped_thread mapped_kernel) in
          let (s, ends, held, same, kernel, mirrored, main) =
            tail-Holds address (record mapped_world { kernel = l }) r
              (record mapped_thread { thread_handle = h }) ts listed
              (construct-Ring address w.store) fresh in
          (
            s,
            create_thread-mapped some_address x
                ∙ rw
                    (
                      create_thread_unsafe-succeeds K entry address cpuid j mapped_thread
                          mapped_kernel e le ok,
                      create_mapped,
                    )
                    ends,
            held,
            same,
            rw (ok-not-err r ok) at kernel,
            main,
          )

      -- If the stack is mapped and the kernel's resources are exhausted for nine attempts,
      -- `CreateThread` returns the result 0x1203 and unmaps the stack. Yet the thread is then last in
      -- the list, without a handle, and marked as one whose stack is mapped. The memory at its
      -- address must be in no list, and no other thread at the locks.
      pub create_thread-gives_up :
          Exhausts K entry address cpuid mapped_thread 9 mapped_kernel
          → (s : Scene K) × (create_thread K caller entry address entrypoint argument stack
                stack_size priority cpuid w
              ≡ returns out_of_resources s)
            × Holds s.world.threads s.world.store (ts ++ address ∷ [])
            × (s.thread ≡ record mapped_thread { thread_name = unnamed_thread })
            × (s.world.kernel
                ≡ K.unmap_memory
                    (after_attempts K entry address cpuid 9 mapped_thread mapped_kernel)
                    mirror
                    stack
                    stack_size)
      unfolding create_mapped unmap_stack is_err new_thread
      create_thread-gives_up e =
          let l = after_attempts K entry address cpuid 9 mapped_thread mapped_kernel in
          let (s, ends, held, same, kernel, mirrored, main) =
            tail-Holds address (record mapped_world { kernel = l }) out_of_resources mapped_thread
              ts listed (construct-Ring address w.store) fresh in
          (
            s,
            create_thread-mapped some_address x
                ∙ rw
                    (
                      create_thread_unsafe-gives_up K entry address cpuid mapped_thread
                          mapped_kernel e,
                      create_mapped,
                    )
                    ends,
            held,
            same,
            kernel,
          )
