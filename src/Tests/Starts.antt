-- ===== src/Tests/Starts.antt =====
-- A process from its start to its end, on the console that records what it is given.
use hydrosphere.Common.{ℕ, ◌≡◌, ◌≢◌, refl, arith, true, [], ◌∷◌}
use hydrosphere.Svc.{
  InfoType, is_ok, address_space_base, address_space_size, stack_region_base, stack_region_size,
}
use hydrosphere.Svc.Api.{get_info, exit_process, break_process}
use hydrosphere.IntrusiveList.{Store}
use hydrosphere.Allocator.Setup.{answer}
use hydrosphere.ThreadList.{Holds}
use hydrosphere.Thread.{blank_thread}
use hydrosphere.Diag.Trace.{seen, line_of}
use hydrosphere.Startup.{get_current_thread}
use hydrosphere.Startup.Run.{Running, process_ended, start_process, start_process-runs}
use hydrosphere.Tests.Aborts.{recorder, console, console-Observed}

abbrev no_links : Store
no_links = record { prev = λ a. a; next = λ a. a }

abbrev root : ℕ
root = 1

root_not_main : root ≢ 2
root_not_main e = absurd (omega arith)

recorder_answers :
    (s : recorder.State) (t : InfoType) → is_ok (answer (get_info recorder s) t).0 ≡ true
unfolding is_ok get_info
recorder_answers s address_space_base = refl
recorder_answers s address_space_size = refl
recorder_answers s stack_region_base = refl
recorder_answers s stack_region_size = refl

-- A program that breaks with the number 5.
abbrev breaks_five : Running console → Running console
breaks_five r = record r { kernel = (recorder.break_process r.kernel 5 0 0).1 }

start_process-runs_example :
    (found : Running console) × (start_process console "build"
        (λ r. r)
        breaks_five
        7
        root
        2
        no_links
        (λ a. blank_thread)
        []
      ≡ process_ended
          (break_process recorder (exit_process recorder (breaks_five found).kernel) 0 0 0).1)
    × (seen console console-Observed found.kernel
        ≡ line_of console console-Observed "build" []
          ∷ line_of console console-Observed "Initializing virtual memory allocators" []
          ∷ [])
    × Holds found.process.threads found.process.store (2 ∷ [])
    × (get_current_thread found.process ≡ 2)
unfolding console-Observed
start_process-runs_example =
    start_process-runs console console-Observed "build" (λ r. r) breaks_five 7 root 2 no_links
      (λ a. blank_thread) [] root_not_main (recorder_answers _)
