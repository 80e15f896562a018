-- ===== src/Lib.antt =====
-- Verification library of Hydrosphere, a C++ runtime for programs on the Horizon kernel.
--
-- The program. A process starts in `Start`, which makes the thread list and two allocators of address
-- ranges and then calls the program. The program creates threads; a thread's stack is mirrored at an
-- address that the stack allocator reserves, and the thread stands in the thread list, an intrusive
-- list. Each object with shared state has a critical section, one word that the kernel arbitrates, and
-- some have a condition variable. Mutexes, user events and barriers are made of these two; kernel
-- events are handles of the kernel.
--
-- Files and code. Each file names the code it is about; paths are below libhydrosphere/.
--   Common             numbers on machine words, tests, lists, masks
--   Svc                include/hs/svc/svc_types.hpp, include/hs/hs_result.hpp: handles, results. Api has
--                      the calls of include/hs/svc/svc_api.hpp, on the Stubs of the architecture.
--                      Enumerations has the numbers of its enumerations.
--                      Calls has the prototypes of svc_api-aarch64.hpp and svc_api-aarch32.hpp. Aarch64
--                      and Aarch32 have the stubs of source/aarch64/svc.s and source/aarch32/svc.s,
--                      instruction by instruction, on the registers and the memory of Machine; the
--                      Contract of each says what a prototype asks of its stub. On Aarch32 a stub is
--                      also run on what is known of its values, Trace, which Sound, Enter and Return
--                      show to be right; CoreMask and Lost have what is wrong with some stubs
--   Diag               source/common/diag/diag_api.cpp, include/hs/diag/diag_macro.hpp,
--                      include/hs/util/util_api.hpp; Trace is about what an abort shows
--   Optional           include/hs/util/util_optional.hpp; Storage has it in memory, with its value in the
--                      storage of include/hs/util/util_object_storage.hpp
--   IntrusiveList      include/hs/util/util_intrusive_list.hpp. The store has the `prev` and `next` of
--                      each address. Chain says what a well-formed ring is; Exchange has the one lemma
--                      on swapping links that Middle and Laws rest on; Traversal the loops.
--                      Iterators has the two classes of iterators for any layout of the elements, and
--                      Iteration what they visit
--   CriticalSection    source/common/os/os_critical_section.cpp. `run` is one atomic access of `Enter`,
--                      `TryEnter` or `Leave`; System puts any number of threads and the kernel
--                      together; Invariant and Exclusion are about all that they reach, and Lock about
--                      the abstract lock that they implement. Sequential has
--                      the same calls as one thread sees them, and Guarded the calls of other files
--                      that hold a lock from `Enter` to `Leave`
--   ConditionVariable  source/common/os/os_condition_variable_{impl,api}.cpp
--   Mutex              source/common/os/os_mutex_api.cpp; Laws, Exclusion and Recursion are about the
--                      calls of one thread or two, Threads has each access of many threads in
--                      `TryLockMutex` and `UnlockMutex` as a step, and Safety and Failure are about these
--   KernelEvent        source/common/os/os_kernelevent_api.cpp; Life has it over the calls of Svc/Api
--   UserEvent          source/common/os/os_userevent_api.cpp; System, Auto and Manual have many threads
--                      over one event, Calls the calls with their lock; Threads has each access of
--                      many threads as a step, and Refinement relates it to System
--   Barrier            source/common/os/os_barrier_api.cpp; Arrivals has many threads, Calls the lock;
--                      Threads has each access of many threads as a step, and Safety is about these
--   Allocator          source/common/os/detail/os_virtualmemory_allocator.{hpp,cpp}. Scan
--                      has the search, Reserve, Success and Apart what it finds, Repeat what it finds
--                      twice, Setup the start
--   ThreadList         source/common/os/detail/os_threadlist.hpp
--   Thread             source/common/os/os_thread_api.cpp: Creation has `CreateThread`, Control the calls
--                      on a thread that was created, Entry the thread's own `_thread_entry_wrapper`
--                      among those calls in any order; Lifetime puts Creation and Control together
--   Memory             source/common/compiler/memcpy.cpp, source/common/util/util_string_api.cpp, and
--                      `SetThreadName`
--   Startup            source/common/init/initialization.cpp, source/common/os/os_tls.cpp; Run has
--                      `Start` as a whole
--   Tests              the theorems at concrete inputs
-- A C++ function `FooBar` is `foo_bar`, a field keeps its name, and a structure is a record. A function
-- on an object gives the object that it leaves.
--
-- What the models take as given. System calls are arguments: a record of functions on a state of the
-- kernel, with laws only where a theorem names them, as `Arbiter` and `EventLaws` do. A call that
-- aborts, which prints and then breaks, ends the process: `aborts`. Addresses and sizes are those of
-- the 64-bit target; `u32` and `u64` wrap where the source does. The link is the first subobject of a
-- list's element, so both have one address; only Iterators takes a link that is elsewhere. A model of
-- many threads takes what a thread does while it holds a lock as one step, but for UserEvent/Threads,
-- Barrier/Threads and Mutex/Threads; that the lock excludes others is shown for the critical section.
-- The kernel behind the stubs takes registers, stack pointer and memory, and may come back with others.
-- `vsnprintf` and what stands in the stack are fields of `Console`. A call as one thread sees it is
-- given what the others do: `others` changes the word of a lock before each of the thread's accesses,
-- `sleep` and `meanwhile` what a wait finds, and while a thread waits for a lock the fields that the
-- lock guards are those that it finds when it gets in. `lone_caller` is a thread with no other at the
-- lock. A memory access is atomic and in order; barriers of the processor have no model.
--
-- Rounds. The loops of `Enter`, of the waits, of `Reserve`, `size`, `clear` and `Strlen` run on rounds,
-- with `none` or `unfinished` when these are spent. Enough are: two for `Enter` once the word is free or
-- handed over; one more than the errors that the kernel answers to the waits and the resets of an event;
-- more than twice the end of the memory's map plus one for `Reserve`; more than the number of elements
-- or characters for the others. The nine attempts of `CreateThreadUnsafe` are counted as the source
-- counts them.
--
-- Not modelled: formatted printing (external/source/snprintf.c is another project's), the module runtime,
-- the linker scripts and the application template.
pub mod Common
pub mod Svc
pub mod Diag
pub mod Optional
pub mod IntrusiveList
pub mod CriticalSection
pub mod ConditionVariable
pub mod Mutex
pub mod KernelEvent
pub mod UserEvent
pub mod Barrier
pub mod Allocator
pub mod ThreadList
pub mod Thread
pub mod Memory
pub mod Startup
pub mod Tests
