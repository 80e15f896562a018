-- ===== src/Thread/Creation/Aborts.antt =====
-- When `CreateThread` ends the process.
use hydrosphere.Common.{ℕ, ◌≤◌, ◌≡◌, ◌≢◌, ◌∙◌, refl, false, some, ==_ne}
use hydrosphere.Svc.{is_ok, aborts}
use hydrosphere.CriticalSection.System.{IsHandle}
use hydrosphere.CriticalSection.Guarded.{lone_caller}
use hydrosphere.IntrusiveList.{construct}
use hydrosphere.Allocator.{VirtualMemoryAllocator, reserve, free}
use hydrosphere.Thread.{ThreadCalls, Thread, World, out_of_resources, is_exhausted, new_thread}
use hydrosphere.Thread.Creation.{create_alias_stack_unsafe, create_mapped, create_thread}
use hydrosphere.Thread.Creation.Attempts.{attempt, after_attempts, Exhausts, create_loop-aborts}
use hydrosphere.Thread.Creation.Laws.{mapped_thread, mapped_kernel, IsMapped, create_thread-mapped}

exhausted_err : is_ok out_of_resources ≡ false
unfolding is_ok
exhausted_err = refl

module _ (K : ThreadCalls) (self fuel : ℕ) (unlocked : ℕ → ℕ) (owner : IsHandle self)
    (entry address entrypoint argument stack stack_size priority cpuid mirror : ℕ) (w : World K)
    (a : VirtualMemoryAllocator) where
  abbrev made : Thread
  made =
      mapped_thread K self fuel unlocked owner entry address entrypoint argument stack stack_size
        priority cpuid mirror w a

  abbrev kernel : K.State
  kernel =
      mapped_kernel K self fuel unlocked owner entry address entrypoint argument stack stack_size
        priority cpuid mirror w a

  -- What fails: no address is left for the stack; the kernel does not map the stack there; or, after
  -- `j` attempts without resources, the kernel has another error.
  pub data Fails : Type 0 where
    no_address :
        reserve
            (lone_caller self fuel unlocked)
            (K.query_memory w.kernel)
            stack_size
            0x1000
            w.stack_allocator
          ≡ some (0, a)
        → Fails
    no_mapping :
        reserve
            (lone_caller self fuel unlocked)
            (K.query_memory w.kernel)
            stack_size
            0x1000
            w.stack_allocator
          ≡ some (mirror, a)
        → mirror ≢ 0
        → is_ok (K.map_memory w.kernel mirror stack stack_size).0 ≡ false
        → Fails
    no_thread :
        IsMapped K self fuel unlocked owner entry address entrypoint argument stack stack_size
          priority cpuid mirror w a
        → (j : ℕ) → j ≤ 8
        → Exhausts K entry address cpuid made j kernel
        → is_ok
            (attempt K entry address cpuid made
              (after_attempts K entry address cpuid j made kernel)).0
          ≡ false
        → is_exhausted
            (attempt K entry address cpuid made
              (after_attempts K entry address cpuid j made kernel)).0
          ≡ false
        → Fails

  abbrev unmapped : Thread
  unmapped = new_thread entrypoint argument stack stack_size priority

  abbrev started : World K
  started = record w { store = construct address w.store }

  alias-no_address :
      reserve
          (lone_caller self fuel unlocked)
          (K.query_memory w.kernel)
          stack_size
          0x1000
          w.stack_allocator
        ≡ some (0, a)
      → create_alias_stack_unsafe K (lone_caller self fuel unlocked) unmapped started
        ≡ some (out_of_resources, unmapped, record started { stack_allocator = a })
  unfolding create_alias_stack_unsafe new_thread
  alias-no_address e = rw (e, create_alias_stack_unsafe) refl

  alias-no_mapping :
      reserve
          (lone_caller self fuel unlocked)
          (K.query_memory w.kernel)
          stack_size
          0x1000
          w.stack_allocator
        ≡ some (mirror, a)
      → mirror ≢ 0
      → is_ok (K.map_memory w.kernel mirror stack stack_size).0 ≡ false
      → create_alias_stack_unsafe K (lone_caller self fuel unlocked) unmapped started
        ≡ some (
          (K.map_memory w.kernel mirror stack stack_size).0,
          unmapped,
          record started {
            kernel = (K.map_memory w.kernel mirror stack stack_size).1;
            stack_allocator = free mirror a;
          },
        )
  unfolding create_alias_stack_unsafe new_thread
  alias-no_mapping e found bad =
      rw (e, create_alias_stack_unsafe) (rw (==_ne mirror 0 found, bad) refl)

  -- If `CreateThread` finds no address for the stack, or the kernel does not map the stack, or creates
  -- no thread with an error that is not about resources, also after up to eight that are, the process
  -- is aborted. No other thread is at the lock of the allocator.
  pub create_thread-aborts :
      address ≢ 0
      → Fails
      → create_thread K
          (lone_caller self fuel unlocked)
          entry
          address
          entrypoint
          argument
          stack
          stack_size
          priority
          cpuid
          w
        ≡ aborts
  unfolding create_thread create_mapped
  create_thread-aborts some_address (no_address e) =
      rw (==_ne address 0 some_address, alias-no_address e, create_thread) (rw exhausted_err refl)
  create_thread-aborts some_address (no_mapping e found bad) =
      rw (==_ne address 0 some_address, alias-no_mapping e found bad, create_thread) (rw bad refl)
  create_thread-aborts some_address (no_thread x j b e bad other) =
      create_thread-mapped K self fuel unlocked owner entry address entrypoint argument stack
        stack_size priority cpuid mirror w a some_address x
      ∙ rw (create_loop-aborts K entry address cpuid j 8 made kernel e b bad other, create_mapped)
          refl
