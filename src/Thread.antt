-- ===== src/Thread.antt =====
-- The threads of libhydrosphere/source/common/os/os_thread_api.cpp: their data, the system calls, and
-- what several calls share. Creation has `CreateThread`, Control the calls on a thread that was
-- created, and Entry the life of a thread among those that control it.
pub mod Creation
pub mod Control
pub mod Entry
pub mod Lifetime
use hydrosphere.Common.{
  ℕ, zero, suc, Bool, true, false, List, [], ◌∷◌, ◌≡◌, refl, ◌==◌, if◌then◌else◌,
}
use hydrosphere.Svc.{Handle, Result, result, MemoryInfo, description_of, no_handle}
use hydrosphere.IntrusiveList.{Store}
use hydrosphere.CriticalSection.Guarded.{Lockable}
use hydrosphere.ConditionVariable.{WakeCount}
use hydrosphere.Allocator.{VirtualMemoryAllocator, free}
use hydrosphere.ThreadList.{ThreadList}

-- enum class ThreadState
pub data ThreadState : Type 0 where
  uninitialized initialized destroyed started exited : ThreadState

-- struct Thread. Pointers and signed integers are bit patterns, and the name is its characters before
-- the terminator. The links of the list stand in the store, at the address of the thread.
pub record Thread : Type 0 where
  pub state : ThreadState
  pub thread_entrypoint : ℕ
  pub thread_argument : ℕ
  pub original_thread_stack : ℕ
  pub thread_stack_size : ℕ
  pub priority : ℕ
  pub mapped_thread_stack : ℕ
  pub is_alias_thread_stack_mapped : Bool
  pub condition_variable : ℕ
  pub critical_section : ℕ
  pub thread_handle : Handle
  pub thread_name : List ℕ

-- The system calls, on whatever state the kernel has. A condition variable is named by the address of
-- the thread that it is part of.
pub record ThreadCalls : Type 1 where
  pub State : Type 0
  pub create_thread :
      State → (entry argument stack_top priority cpuid : ℕ) → Result × Handle × State
  pub start_thread : State → Handle → Result × State
  pub map_memory : State → (dst src size : ℕ) → Result × State
  pub unmap_memory : State → (dst src size : ℕ) → State
  pub query_memory : State → ℕ → MemoryInfo
  pub close_handle : State → Handle → Result × State
  pub wait_synchronization : State → Handle → Result × State
  pub signal_process_wide_key : State → (key : ℕ) → WakeCount → State
  pub set_thread_priority : State → Handle → ℕ → State
  pub get_thread_priority : State → Handle → Result × ℕ

-- "UnnamedThread"
abbrev pub unnamed_thread : List ℕ
unnamed_thread =
    0x55 ∷ 0x6e ∷ 0x6e ∷ 0x61 ∷ 0x6d ∷ 0x65 ∷ 0x64 ∷ 0x54 ∷ 0x68 ∷ 0x72 ∷ 0x65 ∷ 0x61 ∷ 0x64 ∷ []

-- The result for resources that have run out.
abbrev pub out_of_resources : Result
out_of_resources = result 0x1203

abbrev pub is_exhausted : Result → Bool
is_exhausted r = description_of r == 0xCE00

-- `Thread()`: value-initialised.
abbrev pub blank_thread : Thread
blank_thread = record {
  state = uninitialized;
  thread_entrypoint = 0;
  thread_argument = 0;
  original_thread_stack = 0;
  thread_stack_size = 0;
  priority = 0;
  mapped_thread_stack = 0;
  is_alias_thread_stack_mapped = false;
  condition_variable = 0;
  critical_section = 0;
  thread_handle = no_handle;
  thread_name = [];
}

-- The fields that `CreateThread` sets before it asks for anything.
unfoldable pub new_thread : (entrypoint argument stack stack_size priority : ℕ) → Thread
new_thread entrypoint argument stack stack_size priority = record blank_thread {
  critical_section = 0;
  condition_variable = 0;
  thread_entrypoint = entrypoint;
  thread_argument = argument;
  original_thread_stack = stack;
  is_alias_thread_stack_mapped = false;
  thread_stack_size = stack_size;
  priority = priority;
  state = initialized;
}

module _ (K : ThreadCalls) where
  -- The kernel, `g_StackAllocator`, and the list of threads with the links of its elements.
  pub record World : Type 0 where
    pub kernel : K.State
    pub stack_allocator : VirtualMemoryAllocator
    pub threads : ThreadList
    pub store : Store

  -- A thread in the world.
  pub record Scene : Type 0 where
    pub thread : Thread
    pub world : World

  abbrev pub thread_lock : Lockable Scene
  thread_lock = record {
    word = λ s. s.thread.critical_section;
    with_word = λ v s. record s { thread = record (s.thread) { critical_section = v } };
    word-with_word = λ v s. refl;
  }

  -- `UnmapMemory` of the stack's mirror, and `Free`.
  unfoldable pub unmap_stack : Thread → World → World
  unmap_stack t w = record w {
    kernel =
        K.unmap_memory w.kernel t.mapped_thread_stack t.original_thread_stack t.thread_stack_size;
    stack_allocator = free t.mapped_thread_stack w.stack_allocator;
  }
