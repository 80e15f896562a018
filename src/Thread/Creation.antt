-- ===== src/Thread/Creation.antt =====
-- `CreateThread` of os_thread_api.cpp, with `CreateThreadUnsafe` and `CreateAliasStackUnsafe`.
pub mod Attempts
pub mod Laws
pub mod Aborts
use hydrosphere.Common.{
  ℕ, zero, suc, ◌+◌, Bool, true, not, Option, none, some, ◌==◌, if◌then◌else◌, u64,
}
use hydrosphere.Svc.{Result, is_ok, is_err, Ending, returns, aborts, unfinished}
use hydrosphere.IntrusiveList.{construct}
use hydrosphere.CriticalSection.Guarded.{Caller}
use hydrosphere.Allocator.{reserve, free}
use hydrosphere.ThreadList.{add_thread}
use hydrosphere.Thread.{
  ThreadCalls, Thread, World, Scene, unnamed_thread, out_of_resources, is_exhausted, new_thread,
  unmap_stack,
}

module _ (K : ThreadCalls) where
  -- `CreateThreadUnsafe`: the loop with `left` further attempts after this one.
  unfoldable pub create_loop :
      (left : ℕ)
      → (entry self_address cpuid : ℕ) → Thread
      → K.State
      → Ending K.State (Result × Thread)
  create_loop zero entry address cpuid t k =
      let (r, handle, k') =
        K.create_thread k entry address (u64 (t.mapped_thread_stack + t.thread_stack_size))
          t.priority cpuid in
      if is_ok r
      then returns (r, record t { thread_handle = handle }) k'
      else (if not (is_exhausted r) then aborts else returns (out_of_resources, t) k')
  create_loop (suc left) entry address cpuid t k =
      let (r, handle, k') =
        K.create_thread k entry address (u64 (t.mapped_thread_stack + t.thread_stack_size))
          t.priority cpuid in
      let rest = create_loop left entry address cpuid t k' in
      if is_ok r
      then returns (r, record t { thread_handle = handle }) k'
      else (if not (is_exhausted r) then aborts else rest)

  -- It gives up when `++retry_count > 8`.
  abbrev pub create_thread_unsafe :
      (entry self_address cpuid : ℕ) → Thread → K.State → Ending K.State (Result × Thread)
  create_thread_unsafe = create_loop 8

  -- `CreateAliasStackUnsafe`; `none` while the allocator is locked or searches.
  unfoldable pub create_alias_stack_unsafe :
      Caller → Thread → World K → Option (Result × Thread × World K)
  create_alias_stack_unsafe c t w =
      elim (reserve c (K.query_memory w.kernel) t.thread_stack_size 0x1000 w.stack_allocator) [
        | none ↦ none
        | some (address, a) ↦
            let (r, k) =
              K.map_memory w.kernel address t.original_thread_stack t.thread_stack_size in
            some (
              if address == 0
              then (out_of_resources, t, record w { stack_allocator = a })
              else (if is_ok r
                  then (
                    r,
                    record t { mapped_thread_stack = address; is_alias_thread_stack_mapped = true },
                    record w { kernel = k; stack_allocator = a },
                  )
                  else (r, t, record w { kernel = k; stack_allocator = free address a })))
      ]

  -- The end of `CreateThread`, from the result of `CreateThreadUnsafe` on.
  unfoldable pub create_thread_tail :
      Caller → (address : ℕ) → World K → Result × Thread → Ending (Scene K) Result
  create_thread_tail c address w (r, t) =
      let w' : World K = if is_err r then unmap_stack K t w else w in
      elim (add_thread c address w'.threads w'.store) [
        | none ↦ unfinished
        | some (l, h) ↦ returns r (record {
          thread = record t { thread_name = unnamed_thread };
          world = record w' { threads = l; store = h };
        })
      ]

  -- What follows a stack that is mapped.
  unfoldable pub create_mapped :
      Caller → (entry address cpuid : ℕ) → Thread → World K → Ending (Scene K) Result
  create_mapped c entry address cpuid t w =
      elim (create_thread_unsafe entry address cpuid t w.kernel) [
        | aborts ↦ aborts
        | unfinished ↦ unfinished
        | returns out k ↦ create_thread_tail c address (record w { kernel = k }) out
      ]

  -- `CreateThread` of the thread at `address`; `entry` is the address of `_thread_entry_wrapper`.
  unfoldable pub create_thread :
      Caller
      → (entry address : ℕ) → (entrypoint argument stack stack_size priority cpuid : ℕ) → World K
      → Ending (Scene K) Result
  create_thread c entry address entrypoint argument stack stack_size priority cpuid w =
      let t = new_thread entrypoint argument stack stack_size priority in
      let w0 : World K = record w { store = construct address w.store } in
      if address == 0 then aborts else elim (create_alias_stack_unsafe c t w0) [
        | none ↦ unfinished
        | some (r, t1, w1) ↦
            if not (is_ok r) then aborts else create_mapped c entry address cpuid t1 w1
      ]
