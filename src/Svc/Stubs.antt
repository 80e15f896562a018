-- ===== src/Svc/Stubs.antt =====
-- The stubs of the system calls that libhydrosphere/include/hs/svc/svc_api.hpp passes on to, which are
-- written for each architecture. Each takes the kernel's state, the arguments, and gives the result, the
-- values it writes through pointers, and the state after the call; a call that only reads gives no state.
-- Integers of the source, signed ones also, are bit patterns.
use hydrosphere.Common.{ℕ, List}
use hydrosphere.Svc.{Handle, Result, MemoryInfo, InfoType}

pub record Stubs : Type 1 where
  pub State : Type 0
  pub arbitrate_lock :
      State → (owner : Handle) → (lock_address : ℕ) → (requester : Handle) → Result × State
  pub arbitrate_unlock : State → (lock_address : ℕ) → Result × State
  pub output_debug_string : State → (str : List ℕ) → (str_size : ℕ) → Result × State
  pub signal_process_wide_key : State → (address count : ℕ) → Result × State
  pub wait_process_wide_key_atomic :
      State
      → (mutex_address condvar_address : ℕ) → (thread : Handle) → (timeout : ℕ) → Result × State
  pub sleep_thread : State → (nanoseconds : ℕ) → State
  pub close_handle : State → Handle → Result × State
  pub start_thread : State → Handle → Result × State
  -- the index of the handle that was signaled
  pub wait_synchronization :
      State → (handles : List Handle) → (handle_count timeout : ℕ) → Result × ℕ × State
  pub create_thread :
      State → (entry_point argument stack_top priority cpu_id : ℕ) → Result × Handle × State
  pub exit_thread : State → State
  pub exit_process : State → State
  pub get_thread_priority : State → Handle → Result × ℕ
  pub set_thread_priority : State → Handle → (priority : ℕ) → Result × State
  -- the information on the memory, and on the page
  pub query_memory : State → (address : ℕ) → Result × MemoryInfo × ℕ
  pub get_info : State → InfoType → Handle → (info_subtype : ℕ) → Result × ℕ
  pub map_memory : State → (dst_address src_address size : ℕ) → Result × State
  pub unmap_memory : State → (dst_address src_address size : ℕ) → Result × State
  pub break_process : State → (break_reason input_value1 input_value2 : ℕ) → Result × State
  pub get_system_tick : State → ℕ × State
  -- the writable and the readable handle
  pub create_event : State → Result × Handle × Handle × State
  pub signal_event : State → Handle → Result × State
  pub clear_event : State → Handle → Result × State
  pub reset_signal : State → Handle → Result × State
