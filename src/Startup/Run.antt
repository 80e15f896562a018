-- ===== src/Startup/Run.antt =====
-- `Start` as a whole: its lines in the debug log, its calls of the initialisers and of the program, which
-- are parameters, and the end of the process.
use Prim.Native.String.{String}
use mathlib.Core.List.{append_assoc}
use hydrosphere.Common.{ℕ, ◌≡◌, ◌≢◌, ◌∙◌, refl, true, [], ◌∷◌, ◌++◌}
use hydrosphere.Svc.{InfoType, is_ok}
use hydrosphere.Svc.Api.{get_info, exit_process, break_process}
use hydrosphere.IntrusiveList.{Ptr, Store}
use hydrosphere.Allocator.{VirtualMemoryAllocator}
use hydrosphere.Allocator.Setup.{answer}
use hydrosphere.ThreadList.{Holds}
use hydrosphere.Thread.{Thread}
use hydrosphere.Diag.{Console, debug_log}
use hydrosphere.Diag.Trace.{Observed, seen, line_of, debug_log-seen}
use hydrosphere.Startup.{Process, start, start_aborted, running, start-running, get_current_thread}

module _ (C : Console) where
  open C use {stubs}

  -- What the initialisers and the program find, and leave.
  pub record Running : Type 0 where
    pub kernel : stubs.State
    pub process : Process
    pub address_space : VirtualMemoryAllocator
    pub stack : VirtualMemoryAllocator

  -- The process has aborted in its start, or has run to its end, with the kernel as it is then.
  pub data Ended : Type 0 where
    start_failed : Ended
    process_ended : stubs.State → Ended

  -- `build` is the format with the date of the build.
  unfoldable pub start_process :
      (build : String)
      → (call_initializator hs_main : Running → Running) → (thread_handle : ℕ)
      → (root main_thread : Ptr) → Store
      → (Ptr → Thread)
      → stubs.State
      → Ended
  unfolding start
  start_process build call_initializator hs_main thread_handle root main h objects s =
      let s1 = debug_log C build [] s in
      let s2 = debug_log C "Initializing virtual memory allocators" [] s1 in
      elim (start (get_info stubs s2) thread_handle root main h objects) [
        | start_aborted ↦ start_failed
        | running p space stack ↦
            let found : Running = record {
              kernel = s2;
              process = p;
              address_space = space;
              stack = stack;
            } in
            let left = hs_main (call_initializator found) in
            process_ended (break_process stubs (exit_process stubs left.kernel) 0 0 0).1
      ]

  module _ (O : Observed C) where
    -- If the kernel answers the questions of the start, the initialisers are called once, with the main
    -- thread alone in the thread list and as the current thread, after two lines in the debug log; then the
    -- program is called once, with what they leave; and after it the process exits, and breaks if it
    -- is still there.
    pub start_process-runs :
        (build : String) (call_initializator hs_main : Running → Running) (thread_handle : ℕ)
        (root main : Ptr) (h : Store) (objects : Ptr → Thread) (s : stubs.State)
        → root ≢ main
        → let s2 : stubs.State =
            debug_log C "Initializing virtual memory allocators" [] (debug_log C build [] s) in
          ((t : InfoType) → is_ok (answer (get_info stubs s2) t).0 ≡ true)
          → (found : Running) × (start_process build call_initializator hs_main thread_handle root
                main h objects s
              ≡ process_ended
                  (break_process stubs
                    (exit_process stubs (hs_main (call_initializator found)).kernel)
                    0
                    0
                    0).1)
            × (seen C O found.kernel
                ≡ seen C O s
                  ++ line_of C O build []
                    ∷ line_of C O "Initializing virtual memory allocators" []
                    ∷ [])
            × Holds found.process.threads found.process.store (main ∷ [])
            × (get_current_thread found.process ≡ main)
    unfolding start_process break_process
    start_process-runs build init hs_main thread_handle root main h objects s ne ok =
        let s1 = debug_log C build [] s in
        let s2 = debug_log C "Initializing virtual memory allocators" [] s1 in
        let (p, space, stack, e, held, current, _, _) =
          start-running (get_info stubs s2) thread_handle root main h objects ne ok in
        (
          record { kernel = s2; process = p; address_space = space; stack = stack },
          rw (e, start_process) refl,
          debug_log-seen C O "Initializing virtual memory allocators" [] s1
              ∙ rw (debug_log-seen C O build [] s, append_assoc) refl,
          held,
          current,
        )
