-- ===== src/Startup.antt =====
-- The start of a process: libhydrosphere/source/common/init/initialization.cpp, and the thread context
-- of os/os_tls.cpp and hs/os/os_tls.hpp.
pub mod Run
use hydrosphere.Common.{
  ℕ, ◌≡◌, ◌≢◌, refl, true, List, [], ◌∷◌, ◌==◌, ==_refl, if◌then◌else◌, u32, u64, ◌+◌,
}
use hydrosphere.Svc.{
  Handle, Result, InfoType, from_raw_value, is_ok, address_space_base, address_space_size,
  stack_region_base, stack_region_size,
}
use hydrosphere.IntrusiveList.{Ptr, Store}
use hydrosphere.Allocator.{
  VirtualMemoryAllocator, allocator, aborted, allocators, initialize_virtual_memory_allocators,
}
use hydrosphere.Allocator.Setup.{answer, initialize_ok}
use hydrosphere.ThreadList.{ThreadList, thread_list, Holds, thread_list-Holds}
use hydrosphere.Thread.{Thread, blank_thread}

-- "MainThread"
abbrev pub main_thread_name : List ℕ
main_thread_name = 0x4d ∷ 0x61 ∷ 0x69 ∷ 0x6e ∷ 0x54 ∷ 0x68 ∷ 0x72 ∷ 0x65 ∷ 0x61 ∷ 0x64 ∷ []

-- What the main thread sees: the thread list with the links of its elements, the thread objects, and
-- the context in its thread-local storage.
pub record Process : Type 0 where
  pub threads : ThreadList
  pub store : Store
  pub objects : Ptr → Thread
  pub context : Ptr

-- `GetCurrentThread` and `GetCurrentThreadHandle`.
unfoldable pub get_current_thread : Process → Ptr
get_current_thread p = p.context

unfoldable pub get_current_thread_handle : Process → Handle
get_current_thread_handle p = (p.objects p.context).thread_handle

-- The constructor of the main thread in the thread list, `InitMainThread`, and `SetThreadContext`.
unfoldable pub init_main_thread :
    (thread_handle : Handle) → (root main_thread : Ptr) → Store → (Ptr → Thread) → Process
init_main_thread thread_handle root main h objects =
    let (l, g) = thread_list root main h in
    record {
      threads = l;
      store = g;
      objects = λ a.
          if a == main
          then record blank_thread { thread_handle = thread_handle; thread_name = main_thread_name }
          else objects a;
      context = main;
    }

-- The process when `Start` comes to the initialisers of the modules. It aborts before, if the kernel
-- does not tell the address space. Run has what comes before and after.
pub data Started : Type 0 where
  start_aborted : Started
  running : Process → (address_space stack : VirtualMemoryAllocator) → Started

unfoldable pub start :
    (get_info : InfoType → Handle → ℕ → Result × ℕ)
    → (thread_handle : ℕ) → (root main_thread : Ptr) → Store
    → (Ptr → Thread)
    → Started
unfolding init_main_thread
start get_info thread_handle root main h objects =
    let p = init_main_thread (from_raw_value (u32 thread_handle)) root main h objects in
    elim (initialize_virtual_memory_allocators get_info) [
      | aborted ↦ start_aborted
      | allocators space stack ↦ running p space stack
    ]

-- If the kernel answers its four questions, `Start` gets to `hsMain`. The main thread is then alone in
-- the thread list, it is the current thread, and the handle of the current thread is the one that the
-- process was given, in 32 bits; and the stack allocator has the kernel's stack region for its range.
pub start-running :
    (get_info : InfoType → Handle → ℕ → Result × ℕ) (thread_handle : ℕ) (root main : Ptr)
    (h : Store) (objects : Ptr → Thread)
    → root ≢ main
    → ((t : InfoType) → is_ok (answer get_info t).0 ≡ true)
    → let value : InfoType → ℕ = λ t. (answer get_info t).1 in
      (p : Process) × (space : VirtualMemoryAllocator) × (stack : VirtualMemoryAllocator) × (start
          get_info thread_handle root main h objects
        ≡ running p space stack)
      × Holds p.threads p.store (main ∷ [])
      × (get_current_thread p ≡ main)
      × ((get_current_thread_handle p).value ≡ u32 thread_handle)
      × (stack
          ≡ allocator
              (value stack_region_base)
              (u64 (value stack_region_base + value stack_region_size))
              0x1000)
unfolding start get_current_thread get_current_thread_handle
start-running get_info thread_handle root main h objects ne ok =
    let p = init_main_thread (from_raw_value (u32 thread_handle)) root main h objects in
    let value : InfoType → ℕ = λ t. (answer get_info t).1 in
    (
      p,
      allocator (value address_space_base)
          (u64 (value address_space_base + value address_space_size)) 0x1000,
      allocator (value stack_region_base) (u64 (value stack_region_base + value stack_region_size))
          0x1000,
      rw (initialize_ok get_info ok, start) refl,
      thread_list-Holds root main h ne,
      refl,
      rw (get_current_thread_handle, init_main_thread, ==_refl main) refl,
      refl,
    )
