-- ===== src/Tests/Refusals.antt =====
-- A thread list, and a kernel that counts, for the threads of other tests.
use hydrosphere.Common.{ℕ, ◌+◌, ◌-◌, ◌^◌, ◌<◌, refl, arith, [], ◌∷◌, if◌then◌else◌, ◌==◌}
use hydrosphere.Svc.{result, no_handle}
use hydrosphere.IntrusiveList.{Store}
use hydrosphere.IntrusiveList.Chain.{direct, through}
use hydrosphere.Allocator.{VirtualMemoryAllocator, allocator}
use hydrosphere.ThreadList.{ThreadList, Holds}
use hydrosphere.Thread.{ThreadCalls, World}

pub IsHandle_one : (0 < 1) × (1 < 2 ^ 30)
IsHandle_one = (omega arith, omega arith)

-- The list of 1 holds 2 and 3, where 2 is the main thread.
abbrev pub two_three : Store
two_three = record {
  prev = λ a. if a == 1 then 3 else (if a == 2 then 1 else (if a == 3 then 2 else a));
  next = λ a. if a == 1 then 2 else (if a == 2 then 3 else (if a == 3 then 1 else a));
}

abbrev pub threads : ThreadList
threads = record { critical_section = 0; root = 1; main_thread = 2 }

pub threads-Holds : Holds threads two_three (2 ∷ 3 ∷ [])
threads-Holds = record {
  ring = record {
    chain = through refl refl (through refl refl (direct refl refl));
    distinct = (refl, (refl, (refl, tt)));
  };
  idle = refl;
}

-- The address space is unused from 0x4000 to 0x8000. The state counts the calls that the kernel turns
-- down before it grants one.
abbrev pub refusals : ThreadCalls
refusals = record {
  State = ℕ;
  create_thread = λ k entry argument stack_top priority cpuid. (
    if k == 0 then result 0 else result 0xCE01,
    if k == 0 then record { value = 9 } else no_handle,
    k - 1,
  );
  start_thread = λ k h. (result 0, k);
  map_memory = λ k dst src size. (result 0, k);
  unmap_memory = λ k dst src size. k + 100;
  query_memory = λ k a. record {
    address = 0x4000;
    size = 0x4000;
    kind = 0;
    attribute = 0;
    permission = 0;
    device_ref_count = 0;
    ipc_ref_count = 0;
  };
  close_handle = λ k h. (result 0, k);
  wait_synchronization = λ k h. (if k == 0 then result 0 else result 0xEC01, k - 1);
  signal_process_wide_key = λ k a n. k;
  set_thread_priority = λ k h p. k;
  get_thread_priority = λ k h. (result 0, 44);
}

abbrev pub world : ℕ → World refusals
world k = record {
  kernel = k;
  stack_allocator = allocator 0x4000 0x8000 0x1000;
  threads = threads;
  store = two_three;
}

abbrev pub after_reserve : VirtualMemoryAllocator
after_reserve = record (allocator 0x4000 0x8000 0x1000) { next_available_address = 0x6000 }
