-- ===== src/Tests/Stubs32.antt =====
-- The stubs of AArch32, with a kernel that answers every call.
use hydrosphere.Common.{ℕ, ◌+◌, ◌≡◌, ◌≢◌, refl, inl, ◌⊎◌, some, arith, true}
use hydrosphere.Svc.Calls.{Call, ProcessCall}
use hydrosphere.Svc.Machine.{Cpu, set_x}
use hydrosphere.Svc.Aarch32.{run}
use hydrosphere.Svc.Aarch32.Table.{stub}
use hydrosphere.Svc.Aarch32.Trace.{entry, number}
use hydrosphere.Svc.Aarch32.Return.{Keeps}
use hydrosphere.Svc.Aarch32.Contract.{answers, outputs, pointers, Clear, Returned, stub-Returned}
use hydrosphere.Svc.Aarch32.Lost.{lost, holds_value, stub-passes}
use hydrosphere.Svc.Aarch32.CoreMask.{mask_frame, get_thread_core_mask-unbalanced}
use hydrosphere.Tests.Stubs.{answered, answering, caller}

abbrev start_process : Call
start_process = Call.of_process ProcessCall.start_process

size_held : holds_value start_process 3 ≡ true
unfolding holds_value
size_held = refl

stub-passes_example :
    ((lost start_process ≡ some 3)
      × (run answering (stub start_process) 0 (set_x 3 0x4000 caller)
          ≡ run answering (stub start_process) 0 caller))
    ⊎ ((lost start_process ≢ some 3) × ((entry (stub start_process) caller).x 3 ≡ 3))
stub-passes_example =
    stub-passes start_process 3 answering 0 caller 0x4000 (omega arith) (omega arith) (omega arith)
      size_held

-- `CreateThread` on AArch32, with two arguments on the stack.
not_mask : Call.create_thread ≢ Call.get_thread_core_mask
not_mask = λ e. cc

abbrev thread_entry : Cpu
thread_entry = entry (stub Call.create_thread) caller

abbrev thread_created : Cpu
thread_created = answered thread_entry

clear : Clear (pointers (outputs Call.create_thread)) caller
unfolding outputs
clear p h = ground arith

thread_entry-Keeps : Keeps caller thread_created thread_entry
unfolding entry stub
thread_entry-Keeps = record { stack = refl; saved = λ r h. ground arith; kept = λ a lo hi. refl }

abbrev thread_call : ℕ
thread_call = number (stub Call.create_thread)

thread_called : answering.svc 0 thread_call thread_entry ≡ some (8, thread_created)
unfolding number stub
thread_called = refl

stub-Returned_example :
    (r : Cpu) × (run answering (stub Call.create_thread) 0 caller ≡ some (8, r))
    × Returned (answers Call.create_thread) (outputs Call.create_thread) caller thread_created r
stub-Returned_example =
    stub-Returned Call.create_thread answering 0 8 caller thread_created not_mask (omega arith)
      (omega arith) clear thread_called thread_entry-Keeps

abbrev mask_called : Cpu
mask_called = answered (mask_frame caller)

get_thread_core_mask-unbalanced_example :
    (r : Cpu) × (run answering (stub Call.get_thread_core_mask) 0 caller ≡ some (0xE, r))
    × (r.sp + 4 ≡ 0x1000)
    × (r.x 4 ≡ 0x200)
get_thread_core_mask-unbalanced_example =
    get_thread_core_mask-unbalanced answering 0 0xE caller mask_called (omega arith) (omega arith)
      (inl (omega arith)) (inl (omega arith)) refl refl (λ a lo hi. refl)
