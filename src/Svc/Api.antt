-- ===== src/Svc/Api.antt =====
-- The calls of libhydrosphere/include/hs/svc/svc_api.hpp, each on the stub of its architecture.
use hydrosphere.Common.{ℕ, List}
use hydrosphere.Svc.{Handle, Result, MemoryInfo, InfoType}
use hydrosphere.Svc.Stubs.{Stubs}

module _ (K : Stubs) where
  open K use {State}

  unfoldable pub arbitrate_lock :
      State → (owner : Handle) → (lock_address : ℕ) → (requester : Handle) → Result × State
  arbitrate_lock s owner lock_address requester = K.arbitrate_lock s owner lock_address requester

  unfoldable pub arbitrate_unlock : State → (lock_address : ℕ) → Result × State
  arbitrate_unlock s lock_address = K.arbitrate_unlock s lock_address

  unfoldable pub output_debug_string : State → (str : List ℕ) → (str_size : ℕ) → Result × State
  output_debug_string s str str_size = K.output_debug_string s str str_size

  unfoldable pub signal_process_wide_key : State → (address count : ℕ) → Result × State
  signal_process_wide_key s address count = K.signal_process_wide_key s address count

  unfoldable pub wait_process_wide_key_atomic :
      State
      → (mutex_address condvar_address : ℕ) → (thread : Handle) → (timeout : ℕ) → Result × State
  wait_process_wide_key_atomic s mutex_address condvar_address thread timeout =
      K.wait_process_wide_key_atomic s mutex_address condvar_address thread timeout

  unfoldable pub sleep_thread : State → (nanoseconds : ℕ) → State
  sleep_thread s nanoseconds = K.sleep_thread s nanoseconds

  unfoldable pub close_handle : State → Handle → Result × State
  close_handle s handle = K.close_handle s handle

  unfoldable pub start_thread : State → Handle → Result × State
  start_thread s handle = K.start_thread s handle

  -- The time limit is signed here and unsigned in the stub: -1 is the greatest of all.
  unfoldable pub wait_synchronization :
      State → (handles : List Handle) → (handle_count timeout : ℕ) → Result × ℕ × State
  wait_synchronization s handles handle_count timeout =
      K.wait_synchronization s handles handle_count timeout

  unfoldable pub create_thread :
      State → (entry_point argument stack_top priority cpu_id : ℕ) → Result × Handle × State
  create_thread s entry_point argument stack_top priority cpu_id =
      K.create_thread s entry_point argument stack_top priority cpu_id

  unfoldable pub exit_thread : State → State
  exit_thread s = K.exit_thread s

  unfoldable pub exit_process : State → State
  exit_process s = K.exit_process s

  unfoldable pub get_thread_priority : State → Handle → Result × ℕ
  get_thread_priority s handle = K.get_thread_priority s handle

  unfoldable pub set_thread_priority : State → Handle → (priority : ℕ) → Result × State
  set_thread_priority s handle priority = K.set_thread_priority s handle priority

  unfoldable pub query_memory : State → (address : ℕ) → Result × MemoryInfo × ℕ
  query_memory s address = K.query_memory s address

  unfoldable pub get_info : State → InfoType → Handle → (info_subtype : ℕ) → Result × ℕ
  get_info s info_type handle info_subtype = K.get_info s info_type handle info_subtype

  unfoldable pub map_memory : State → (dst_address src_address size : ℕ) → Result × State
  map_memory s dst_address src_address size = K.map_memory s dst_address src_address size

  unfoldable pub unmap_memory : State → (dst_address src_address size : ℕ) → Result × State
  unmap_memory s dst_address src_address size = K.unmap_memory s dst_address src_address size

  -- `Break`
  unfoldable pub break_process :
      State → (break_reason input_value1 input_value2 : ℕ) → Result × State
  break_process s break_reason input_value1 input_value2 =
      K.break_process s break_reason input_value1 input_value2

  unfoldable pub get_system_tick : State → ℕ × State
  get_system_tick s = K.get_system_tick s

  unfoldable pub create_event : State → Result × Handle × Handle × State
  create_event s = K.create_event s

  unfoldable pub signal_event : State → Handle → Result × State
  signal_event s handle = K.signal_event s handle

  unfoldable pub clear_event : State → Handle → Result × State
  clear_event s handle = K.clear_event s handle

  unfoldable pub reset_signal : State → Handle → Result × State
  reset_signal s handle = K.reset_signal s handle
