-- ===== src/Svc/Aarch32/Table.antt =====
-- The stubs of libhydrosphere/source/aarch32/svc.s, call by call.
use hydrosphere.Common.{List, [], ◌∷◌}
use hydrosphere.Svc.Calls.{Call}
use hydrosphere.Svc.Aarch32.{
  Instruction, str_push, stmfd, ldmfd, ldr, str, add_sp, svc, bx_lr, out00, out32, out32_arg2,
}
use hydrosphere.Svc.Aarch32.Process.{process_stub}

unfoldable pub stub : Call → List Instruction
unfolding process_stub
stub Call.set_heap_size = out32 0x1
stub Call.set_memory_permission = out00 0x2
stub Call.set_memory_attribute = out00 0x3
stub Call.map_memory = out00 0x4
stub Call.unmap_memory = out00 0x5
stub Call.query_memory = out32_arg2 0x6
stub Call.exit_process = out00 0x7
stub Call.create_thread =
    stmfd (0 ∷ 4 ∷ [])
    ∷ ldr 0 0x8
    ∷ ldr 4 0xC
    ∷ svc 0x8
    ∷ ldr 2 0
    ∷ str 1 2 0
    ∷ add_sp 0x4
    ∷ ldmfd (4 ∷ [])
    ∷ bx_lr
    ∷ []
stub Call.start_thread = out00 0x9
stub Call.exit_thread = out00 0xA
stub Call.sleep_thread = out00 0xB
stub Call.get_thread_priority = out32 0xC
stub Call.set_thread_priority = out00 0xD
stub Call.get_thread_core_mask =
    stmfd (0 ∷ 1 ∷ 4 ∷ [])
    ∷ svc 0xE
    ∷ ldr 4 0
    ∷ str 1 4 0
    ∷ ldr 4 0x4
    ∷ str 2 4 0
    ∷ str 3 4 0x4
    ∷ add_sp 0x4
    ∷ ldmfd (4 ∷ [])
    ∷ bx_lr
    ∷ []
stub Call.set_thread_core_mask = out00 0x0F
stub Call.get_current_processor_number = out00 0x10
stub Call.signal_event = out00 0x11
stub Call.clear_event = out00 0x12
stub Call.map_shared_memory = out00 0x13
stub Call.unmap_shared_memory = out00 0x14
stub Call.create_transfer_memory = out32 0x15
stub Call.close_handle = out00 0x16
stub Call.reset_signal = out00 0x17
stub Call.wait_synchronization =
    str_push 0 ∷ ldr 0 0x4 ∷ ldr 3 0x8 ∷ svc 0x18 ∷ ldr 2 0 ∷ str 1 2 0 ∷ add_sp 0x4 ∷ bx_lr ∷ []
stub Call.cancel_synchronization = out00 0x19
stub Call.arbitrate_lock = out00 0x1A
stub Call.arbitrate_unlock = out00 0x1B
stub Call.wait_process_wide_key_atomic =
    str_push 4 ∷ ldr 3 0x4 ∷ ldr 4 0x8 ∷ svc 0x1C ∷ ldmfd (4 ∷ []) ∷ bx_lr ∷ []
stub Call.signal_process_wide_key = out00 0x1D
stub Call.get_system_tick = out00 0x1E
stub Call.connect_to_named_port = out32 0x1F
stub Call.send_sync_request_light = out00 0x20
stub Call.send_sync_request = out00 0x21
stub Call.send_sync_request_with_user_buffer = out00 0x22
stub Call.send_async_request_with_user_buffer = out32 0x23
stub Call.get_process_id =
    str_push 0 ∷ svc 0x24 ∷ ldr 3 0 ∷ str 1 3 0 ∷ str 2 3 0x4 ∷ add_sp 0x4 ∷ bx_lr ∷ []
stub Call.get_thread_id =
    str_push 0 ∷ svc 0x25 ∷ ldr 3 0 ∷ str 1 3 0 ∷ str 2 3 0x4 ∷ add_sp 0x4 ∷ bx_lr ∷ []
stub Call.break_process = out00 0x26
stub Call.output_debug_string = out00 0x27
stub Call.return_from_exception = out00 0x28
stub Call.get_info =
    str_push 0
    ∷ ldr 0 0x4
    ∷ ldr 3 0x8
    ∷ svc 0x29
    ∷ ldr 3 0
    ∷ str 1 3 0
    ∷ str 2 3 0x4
    ∷ add_sp 0x4
    ∷ bx_lr
    ∷ []
stub Call.flush_entire_data_cache = out00 0x2A
stub Call.flush_data_cache = out00 0x2B
stub Call.get_resource_limit_limit_value =
    str_push 0 ∷ svc 0x30 ∷ ldr 3 0 ∷ str 1 3 0 ∷ str 2 3 0x4 ∷ add_sp 0x4 ∷ bx_lr ∷ []
stub Call.get_resource_limit_current_value =
    str_push 0 ∷ svc 0x31 ∷ ldr 3 0 ∷ str 1 3 0 ∷ str 2 3 0x4 ∷ add_sp 0x4 ∷ bx_lr ∷ []
stub Call.set_thread_activity = out00 0x32
stub Call.create_session =
    stmfd (0 ∷ 1 ∷ [])
    ∷ svc 0x40
    ∷ ldr 3 0
    ∷ str 1 3 0
    ∷ ldr 3 0x4
    ∷ str 2 3 0
    ∷ add_sp 0x8
    ∷ bx_lr
    ∷ []
stub Call.accept_session = out32 0x41
stub Call.reply_and_receive_light = out00 0x42
stub Call.reply_and_receive =
    stmfd (0 ∷ 4 ∷ [])
    ∷ ldr 0 0x8
    ∷ ldr 4 0xC
    ∷ svc 0x43
    ∷ ldr 2 0
    ∷ str 1 2 0
    ∷ add_sp 0x4
    ∷ ldmfd (4 ∷ [])
    ∷ bx_lr
    ∷ []
stub Call.reply_and_receive_with_user_buffer =
    stmfd (0 ∷ 4 ∷ 5 ∷ 6 ∷ [])
    ∷ ldr 0 0x10
    ∷ ldr 4 0x14
    ∷ ldr 5 0x18
    ∷ ldr 6 0x1C
    ∷ svc 0x44
    ∷ ldr 2 0
    ∷ str 1 2 0
    ∷ add_sp 4
    ∷ ldmfd (4 ∷ 5 ∷ 6 ∷ [])
    ∷ bx_lr
    ∷ []
stub Call.create_event =
    stmfd (0 ∷ 1 ∷ [])
    ∷ svc 0x45
    ∷ ldr 3 0
    ∷ str 1 3 0
    ∷ ldr 3 0x4
    ∷ str 2 3 0
    ∷ add_sp 0x8
    ∷ bx_lr
    ∷ []
stub Call.sleep_system = out00 0x4D
stub Call.read_write_register =
    str_push 0 ∷ ldr 0 0x4 ∷ ldr 1 0x8 ∷ svc 0x4E ∷ ldr 2 0 ∷ str 1 2 0 ∷ add_sp 0x4 ∷ bx_lr ∷ []
stub Call.set_process_activity = out00 0x4F
stub Call.create_shared_memory = out32 0x50
stub Call.map_transfer_memory = out00 0x51
stub Call.unmap_transfer_memory = out00 0x52
stub Call.create_interrupt_event = out32 0x53
stub Call.query_io_mapping =
    str_push 0 ∷ ldr 0 0x4 ∷ svc 0x55 ∷ ldr 2 0 ∷ str 1 2 0 ∷ add_sp 0x4 ∷ bx_lr ∷ []
stub Call.create_device_address_space =
    str_push 0 ∷ ldr 0 0x4 ∷ ldr 1 0x8 ∷ svc 0x56 ∷ ldr 2 0 ∷ str 1 2 0 ∷ add_sp 0x4 ∷ bx_lr ∷ []
stub Call.attach_device_address_space = out00 0x57
stub Call.detach_device_address_space = out00 0x58
stub Call.map_device_address_space_by_force =
    stmfd (4 ∷ 5 ∷ 6 ∷ 7 ∷ [])
    ∷ ldr 4 0x10
    ∷ ldr 5 0x18
    ∷ ldr 6 0x1C
    ∷ ldr 7 0x20
    ∷ svc 0x59
    ∷ ldmfd (4 ∷ 5 ∷ 6 ∷ 7 ∷ [])
    ∷ bx_lr
    ∷ []
stub Call.map_device_address_space_aligned =
    stmfd (4 ∷ 5 ∷ 6 ∷ 7 ∷ [])
    ∷ ldr 4 0x10
    ∷ ldr 5 0x18
    ∷ ldr 6 0x1C
    ∷ ldr 7 0x20
    ∷ svc 0x5A
    ∷ ldmfd (4 ∷ 5 ∷ 6 ∷ 7 ∷ [])
    ∷ bx_lr
    ∷ []
stub Call.map_device_address_space =
    stmfd (0 ∷ 4 ∷ 5 ∷ 6 ∷ 7 ∷ [])
    ∷ ldr 0 0x14
    ∷ ldr 3 0x18
    ∷ ldr 4 0x1C
    ∷ ldr 5 0x24
    ∷ ldr 6 0x28
    ∷ ldr 7 0x2C
    ∷ svc 0x5B
    ∷ ldr 2 0
    ∷ str 1 2 0
    ∷ add_sp 0x4
    ∷ ldmfd (4 ∷ 5 ∷ 6 ∷ 7 ∷ [])
    ∷ bx_lr
    ∷ []
stub Call.unmap_device_address_space =
    stmfd (4 ∷ 5 ∷ 6 ∷ [])
    ∷ ldr 4 0xC
    ∷ ldr 5 0x14
    ∷ ldr 6 0x18
    ∷ svc 0x5C
    ∷ ldmfd (4 ∷ 5 ∷ 6 ∷ [])
    ∷ bx_lr
    ∷ []
stub Call.invalidate_process_data_cache =
    str_push 4 ∷ ldr 1 0x4 ∷ ldr 4 0x8 ∷ svc 0x5D ∷ ldmfd (4 ∷ []) ∷ bx_lr ∷ []
stub Call.store_process_data_cache =
    str_push 4 ∷ ldr 1 0x4 ∷ ldr 4 0x8 ∷ svc 0x5E ∷ ldmfd (4 ∷ []) ∷ bx_lr ∷ []
stub Call.flush_process_data_cache =
    str_push 4 ∷ ldr 1 0x4 ∷ ldr 4 0x8 ∷ svc 0x5F ∷ ldmfd (4 ∷ []) ∷ bx_lr ∷ []
stub (Call.of_process c) = process_stub c
