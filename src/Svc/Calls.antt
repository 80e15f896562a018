-- ===== src/Svc/Calls.antt =====
-- The functions that libhydrosphere/include/hs/svc/svc_api-aarch64.hpp declares, with the types of
-- their results and parameters. svc_api-aarch32.hpp declares the same functions.
use hydrosphere.Common.{List, [], ◌∷◌}

-- The types of the header. `enumeration` is any enum class of svc_types.hpp; all of them are an `int`.
pub data CType : Type 0 where
  void boolean int32 uint32 int64 uint64 uintptr size handle result enumeration : CType
  memory_info char : CType

-- A parameter: a value, a pointer to one number or handle that the call gives back, or a pointer to
-- what the kernel itself reads or writes (a text, an array, a structure).
pub data Parameter : Type 0 where
  value out buffer : CType → Parameter

pub record Prototype : Type 0 where
  pub returns : CType
  pub parameters : List Parameter

abbrev declare : CType → List Parameter → Prototype
declare r ps = record { returns = r; parameters = ps }

-- The calls on debuggers, ports, processes and resource limits.
pub data ProcessCall : Type 0 where
  debug_active_process break_debug_process terminate_debug_process get_process_list : ProcessCall
  get_thread_list create_port manage_named_port connect_to_port set_process_memory_permission :
      ProcessCall
  map_process_memory unmap_process_memory query_process_memory map_process_code_memory : ProcessCall
  unmap_process_code_memory create_process start_process terminate_process get_process_info :
      ProcessCall
  create_resource_limit set_resource_limit_limit_value call_secure_monitor : ProcessCall

pub data Call : Type 0 where
  set_heap_size set_memory_permission set_memory_attribute map_memory unmap_memory query_memory :
      Call
  exit_process create_thread start_thread exit_thread sleep_thread get_thread_priority : Call
  set_thread_priority get_thread_core_mask set_thread_core_mask get_current_processor_number : Call
  signal_event clear_event map_shared_memory unmap_shared_memory create_transfer_memory : Call
  close_handle reset_signal wait_synchronization cancel_synchronization arbitrate_lock : Call
  arbitrate_unlock wait_process_wide_key_atomic signal_process_wide_key get_system_tick : Call
  connect_to_named_port send_sync_request_light send_sync_request : Call
  send_sync_request_with_user_buffer send_async_request_with_user_buffer get_process_id : Call
  get_thread_id break_process output_debug_string return_from_exception get_info : Call
  flush_entire_data_cache flush_data_cache get_resource_limit_limit_value : Call
  get_resource_limit_current_value set_thread_activity create_session accept_session : Call
  reply_and_receive_light reply_and_receive reply_and_receive_with_user_buffer create_event : Call
  sleep_system read_write_register set_process_activity create_shared_memory map_transfer_memory :
      Call
  unmap_transfer_memory create_interrupt_event query_io_mapping create_device_address_space : Call
  attach_device_address_space detach_device_address_space map_device_address_space_by_force : Call
  map_device_address_space_aligned map_device_address_space unmap_device_address_space : Call
  invalidate_process_data_cache store_process_data_cache flush_process_data_cache : Call
  of_process : ProcessCall → Call

process_prototype : ProcessCall → Prototype
process_prototype debug_active_process = declare result (out handle ∷ value uintptr ∷ [])
process_prototype break_debug_process = declare result (value handle ∷ [])
process_prototype terminate_debug_process = declare result (value handle ∷ [])
process_prototype get_process_list = declare result (out int32 ∷ buffer uint64 ∷ value int32 ∷ [])
process_prototype get_thread_list =
    declare result (out int32 ∷ buffer uint64 ∷ value int32 ∷ value handle ∷ [])
process_prototype create_port =
    declare result (out handle ∷ out handle ∷ value int32 ∷ value boolean ∷ value uintptr ∷ [])
process_prototype manage_named_port = declare result (out handle ∷ buffer char ∷ value int32 ∷ [])
process_prototype connect_to_port = declare result (out handle ∷ value handle ∷ [])
process_prototype set_process_memory_permission =
    declare result (value handle ∷ value uintptr ∷ value size ∷ value enumeration ∷ [])
process_prototype map_process_memory =
    declare result (value uintptr ∷ value handle ∷ value uintptr ∷ value uintptr ∷ [])
process_prototype unmap_process_memory =
    declare result (value uintptr ∷ value handle ∷ value uintptr ∷ value uintptr ∷ [])
process_prototype query_process_memory =
    declare result (buffer memory_info ∷ out uint32 ∷ value handle ∷ value uintptr ∷ [])
process_prototype map_process_code_memory =
    declare result (value handle ∷ value uintptr ∷ value uintptr ∷ value uintptr ∷ [])
process_prototype unmap_process_code_memory =
    declare result (value handle ∷ value uintptr ∷ value uintptr ∷ value uintptr ∷ [])
process_prototype create_process =
    declare result (out handle ∷ buffer void ∷ buffer uint32 ∷ value uint32 ∷ [])
process_prototype start_process =
    declare result (value handle ∷ value int32 ∷ value int32 ∷ value size ∷ [])
process_prototype terminate_process = declare result (value handle ∷ [])
process_prototype get_process_info =
    declare result (out uint64 ∷ value handle ∷ value enumeration ∷ [])
process_prototype create_resource_limit = declare result (out handle ∷ [])
process_prototype set_resource_limit_limit_value =
    declare result (value handle ∷ value enumeration ∷ value uint64 ∷ [])
process_prototype call_secure_monitor = declare void []

unfoldable pub prototype : Call → Prototype
unfolding process_prototype
prototype set_heap_size = declare result (out uintptr ∷ value size ∷ [])
prototype set_memory_permission =
    declare result (value uintptr ∷ value size ∷ value enumeration ∷ [])
prototype set_memory_attribute =
    declare result (value uintptr ∷ value size ∷ value uint32 ∷ value uint32 ∷ [])
prototype map_memory = declare result (value uintptr ∷ value uintptr ∷ value uintptr ∷ [])
prototype unmap_memory = declare result (value uintptr ∷ value uintptr ∷ value uintptr ∷ [])
prototype query_memory = declare result (buffer memory_info ∷ out uint32 ∷ value uintptr ∷ [])
prototype exit_process = declare void []
prototype create_thread =
    declare result
      (out handle ∷ value uintptr ∷ value uintptr ∷ value uintptr ∷ value int32 ∷ value int32 ∷ [])
prototype start_thread = declare result (value handle ∷ [])
prototype exit_thread = declare void []
prototype sleep_thread = declare void (value int64 ∷ [])
prototype get_thread_priority = declare result (out int32 ∷ value handle ∷ [])
prototype set_thread_priority = declare result (value handle ∷ value int32 ∷ [])
prototype get_thread_core_mask = declare result (out int32 ∷ out int64 ∷ value handle ∷ [])
prototype set_thread_core_mask = declare result (value handle ∷ value int32 ∷ value int64 ∷ [])
prototype get_current_processor_number = declare uint32 []
prototype signal_event = declare result (value handle ∷ [])
prototype clear_event = declare result (value handle ∷ [])
prototype map_shared_memory =
    declare result (value handle ∷ value uintptr ∷ value size ∷ value enumeration ∷ [])
prototype unmap_shared_memory = declare result (value handle ∷ value uintptr ∷ value size ∷ [])
prototype create_transfer_memory =
    declare result (out handle ∷ value uintptr ∷ value size ∷ value enumeration ∷ [])
prototype close_handle = declare result (value handle ∷ [])
prototype reset_signal = declare result (value handle ∷ [])
prototype wait_synchronization =
    declare result (out int32 ∷ buffer handle ∷ value int32 ∷ value uint64 ∷ [])
prototype cancel_synchronization = declare result (value handle ∷ [])
prototype arbitrate_lock = declare result (value handle ∷ value uintptr ∷ value handle ∷ [])
prototype arbitrate_unlock = declare result (value uintptr ∷ [])
prototype wait_process_wide_key_atomic =
    declare result (value uintptr ∷ value uintptr ∷ value handle ∷ value uint64 ∷ [])
prototype signal_process_wide_key = declare result (value uintptr ∷ value int32 ∷ [])
prototype get_system_tick = declare uint64 []
prototype connect_to_named_port = declare result (out handle ∷ buffer char ∷ [])
prototype send_sync_request_light = declare result (value handle ∷ [])
prototype send_sync_request = declare result (value handle ∷ [])
prototype send_sync_request_with_user_buffer =
    declare result (value uintptr ∷ value size ∷ value handle ∷ [])
prototype send_async_request_with_user_buffer =
    declare result (out handle ∷ value uintptr ∷ value size ∷ value handle ∷ [])
prototype get_process_id = declare result (out uint64 ∷ value handle ∷ [])
prototype get_thread_id = declare result (out uint64 ∷ value handle ∷ [])
prototype break_process = declare result (value uint32 ∷ value size ∷ value size ∷ [])
prototype output_debug_string = declare result (buffer char ∷ value size ∷ [])
prototype return_from_exception = declare result (value result ∷ [])
prototype get_info =
    declare result (out uint64 ∷ value enumeration ∷ value handle ∷ value uint64 ∷ [])
prototype flush_entire_data_cache = declare void []
prototype flush_data_cache = declare result (value uintptr ∷ value size ∷ [])
prototype get_resource_limit_limit_value =
    declare result (out uint64 ∷ value handle ∷ value enumeration ∷ [])
prototype get_resource_limit_current_value =
    declare result (out uint64 ∷ value handle ∷ value enumeration ∷ [])
prototype set_thread_activity = declare result (value handle ∷ value enumeration ∷ [])
prototype create_session =
    declare result (out handle ∷ out handle ∷ value boolean ∷ value uintptr ∷ [])
prototype accept_session = declare result (out handle ∷ value handle ∷ [])
prototype reply_and_receive_light = declare result (value handle ∷ [])
prototype reply_and_receive =
    declare result (out int32 ∷ buffer handle ∷ value int32 ∷ value handle ∷ value uint64 ∷ [])
prototype reply_and_receive_with_user_buffer = declare result (
    out int32
    ∷ value uintptr
    ∷ value size
    ∷ buffer handle
    ∷ value int32
    ∷ value handle
    ∷ value uint64
    ∷ [])
prototype create_event = declare result (out handle ∷ out handle ∷ [])
prototype sleep_system = declare void []
prototype read_write_register =
    declare result (out uint32 ∷ value uintptr ∷ value uint32 ∷ value uint32 ∷ [])
prototype set_process_activity = declare result (value handle ∷ value enumeration ∷ [])
prototype create_shared_memory =
    declare result (out handle ∷ value size ∷ value enumeration ∷ value enumeration ∷ [])
prototype map_transfer_memory =
    declare result (value handle ∷ value uintptr ∷ value size ∷ value enumeration ∷ [])
prototype unmap_transfer_memory = declare result (value handle ∷ value uintptr ∷ value size ∷ [])
prototype create_interrupt_event =
    declare result (out handle ∷ value enumeration ∷ value enumeration ∷ [])
prototype query_io_mapping = declare result (out uintptr ∷ value uintptr ∷ value size ∷ [])
prototype create_device_address_space =
    declare result (out handle ∷ value uintptr ∷ value uintptr ∷ [])
prototype attach_device_address_space = declare result (value enumeration ∷ value handle ∷ [])
prototype detach_device_address_space = declare result (value enumeration ∷ value handle ∷ [])
prototype map_device_address_space_by_force = declare result (
    value handle
    ∷ value handle
    ∷ value uintptr
    ∷ value size
    ∷ value uintptr
    ∷ value enumeration
    ∷ [])
prototype map_device_address_space_aligned = declare result (
    value handle
    ∷ value handle
    ∷ value uintptr
    ∷ value size
    ∷ value uintptr
    ∷ value enumeration
    ∷ [])
prototype map_device_address_space = declare result (
    out uintptr
    ∷ value handle
    ∷ value handle
    ∷ value uintptr
    ∷ value size
    ∷ value uintptr
    ∷ value enumeration
    ∷ [])
prototype unmap_device_address_space =
    declare result (value handle ∷ value handle ∷ value uintptr ∷ value size ∷ value uintptr ∷ [])
prototype invalidate_process_data_cache =
    declare result (value handle ∷ value uintptr ∷ value size ∷ [])
prototype store_process_data_cache = declare result (value handle ∷ value uintptr ∷ value size ∷ [])
prototype flush_process_data_cache = declare result (value handle ∷ value uintptr ∷ value size ∷ [])
prototype (of_process c) = process_prototype c

-- svc_api-aarch32.hpp, whose declarations are those of svc_api-aarch64.hpp word for word.
unfoldable pub aarch32_prototype : Call → Prototype
unfolding prototype
aarch32_prototype c = prototype c
