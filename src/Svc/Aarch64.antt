-- ===== src/Svc/Aarch64.antt =====
-- The stubs of libhydrosphere/source/aarch64/svc.s.
pub mod Contract
pub mod Laws
use hydrosphere.Common.{ℕ, ◌+◌, ◌-◌, ◌%◌, ◌^◌, List, [], ◌∷◌, Option, none, some, u64}
use hydrosphere.Svc.Calls.{Call, ProcessCall}
use hydrosphere.Svc.Machine.{Cpu, Kernel, store_word, store_double, load_double, set_x}

-- The instructions that the file uses; a register is its number.
pub data Instruction : Type 0 where
  str_push : (xt : ℕ) → Instruction  -- str xt, [sp, #-0x10]!
  stp_push : (xt xt2 : ℕ) → Instruction  -- stp xt, xt2, [sp, #-0x10]!
  ldr : (xt offset : ℕ) → Instruction  -- ldr xt, [sp, #offset]
  str_w : (wt xn : ℕ) → Instruction  -- str wt, [xn]
  str_x : (xt xn : ℕ) → Instruction  -- str xt, [xn]
  add_sp : ℕ → Instruction  -- add sp, sp, #n
  svc : (id : ℕ) → Instruction
  ret : Instruction

-- `[sp, #-0x10]!`: the stack pointer goes down by 16 bytes first.
abbrev pub below : ℕ → ℕ
below sp = u64 (sp + 2 ^ 64 - 0x10)

unfoldable pub run : (K : Kernel) → List Instruction → K.State → Cpu → Option (K.State × Cpu)
run K [] s c = none
run K (str_push t ∷ code) s c =
    run K code s (record c { sp = below c.sp; memory = store_double c.memory (below c.sp) (c.x t) })
run K (stp_push t t2 ∷ code) s c = run K code s (record c {
  sp = below c.sp;
  memory = store_double (store_double c.memory (below c.sp) (c.x t)) (below c.sp + 8) (c.x t2);
})
run K (ldr t o ∷ code) s c = run K code s (set_x t (load_double c.memory (c.sp + o)) c)
run K (str_w t n ∷ code) s c =
    run K code s (record c { memory = store_word c.memory (c.x n) (c.x t) })
run K (str_x t n ∷ code) s c =
    run K code s (record c { memory = store_double c.memory (c.x n) (c.x t) })
run K (add_sp n ∷ code) s c = run K code s (record c { sp = u64 (c.sp + n) })
run K (svc id ∷ code) s c = elim (K.svc s id c) [ none ↦ none | some (s', c') ↦ run K code s' c' ]
run K (ret ∷ code) s c = some (s, c)

-- A line of the table: one of the macros with its number, or the body that stands among them.
pub data Line : Type 0 where
  out00 out32 out64 out32_arg2 out32_pair : (id : ℕ) → Line
  core_mask : Line

unfoldable pub body : Line → List Instruction
body (out00 id) = svc id ∷ ret ∷ []
body (out32 id) = str_push 0 ∷ svc id ∷ ldr 2 0 ∷ str_w 1 2 ∷ add_sp 0x10 ∷ ret ∷ []
body (out64 id) = str_push 0 ∷ svc id ∷ ldr 2 0 ∷ str_x 1 2 ∷ add_sp 0x10 ∷ ret ∷ []
body (out32_arg2 id) = str_push 1 ∷ svc id ∷ ldr 2 0 ∷ str_w 1 2 ∷ add_sp 0x10 ∷ ret ∷ []
body (out32_pair id) =
    stp_push 0 1 ∷ svc id ∷ ldr 3 0 ∷ str_w 1 3 ∷ ldr 3 8 ∷ str_w 2 3 ∷ add_sp 0x10 ∷ ret ∷ []
body core_mask =
    stp_push 0 1 ∷ svc 0xE ∷ ldr 3 0 ∷ str_w 1 3 ∷ ldr 3 8 ∷ str_x 2 3 ∷ add_sp 0x10 ∷ ret ∷ []

-- The table, call by call.
process_line : ProcessCall → Line
process_line ProcessCall.debug_active_process = out32 0x60
process_line ProcessCall.break_debug_process = out00 0x61
process_line ProcessCall.terminate_debug_process = out00 0x62
process_line ProcessCall.get_process_list = out32 0x65
process_line ProcessCall.get_thread_list = out32 0x66
process_line ProcessCall.create_port = out32_pair 0x70
process_line ProcessCall.manage_named_port = out32 0x71
process_line ProcessCall.connect_to_port = out32 0x72
process_line ProcessCall.set_process_memory_permission = out00 0x73
process_line ProcessCall.map_process_memory = out00 0x74
process_line ProcessCall.unmap_process_memory = out00 0x75
process_line ProcessCall.query_process_memory = out32_arg2 0x76
process_line ProcessCall.map_process_code_memory = out00 0x77
process_line ProcessCall.unmap_process_code_memory = out00 0x78
process_line ProcessCall.create_process = out32 0x79
process_line ProcessCall.start_process = out00 0x7A
process_line ProcessCall.terminate_process = out00 0x7B
process_line ProcessCall.get_process_info = out64 0x7C
process_line ProcessCall.create_resource_limit = out32 0x7D
process_line ProcessCall.set_resource_limit_limit_value = out00 0x7E
process_line ProcessCall.call_secure_monitor = out00 0x7F

unfoldable pub line : Call → Line
unfolding process_line
line Call.set_heap_size = out64 0x1
line Call.set_memory_permission = out00 0x2
line Call.set_memory_attribute = out00 0x3
line Call.map_memory = out00 0x4
line Call.unmap_memory = out00 0x5
line Call.query_memory = out32_arg2 0x6
line Call.exit_process = out00 0x7
line Call.create_thread = out32 0x8
line Call.start_thread = out00 0x9
line Call.exit_thread = out00 0xA
line Call.sleep_thread = out00 0xB
line Call.get_thread_priority = out32 0xC
line Call.set_thread_priority = out00 0xD
line Call.get_thread_core_mask = core_mask
line Call.set_thread_core_mask = out00 0x0F
line Call.get_current_processor_number = out00 0x10
line Call.signal_event = out00 0x11
line Call.clear_event = out00 0x12
line Call.map_shared_memory = out00 0x13
line Call.unmap_shared_memory = out00 0x14
line Call.create_transfer_memory = out32 0x15
line Call.close_handle = out00 0x16
line Call.reset_signal = out00 0x17
line Call.wait_synchronization = out32 0x18
line Call.cancel_synchronization = out00 0x19
line Call.arbitrate_lock = out00 0x1A
line Call.arbitrate_unlock = out00 0x1B
line Call.wait_process_wide_key_atomic = out00 0x1C
line Call.signal_process_wide_key = out00 0x1D
line Call.get_system_tick = out00 0x1E
line Call.connect_to_named_port = out32 0x1F
line Call.send_sync_request_light = out00 0x20
line Call.send_sync_request = out00 0x21
line Call.send_sync_request_with_user_buffer = out00 0x22
line Call.send_async_request_with_user_buffer = out32 0x23
line Call.get_process_id = out64 0x24
line Call.get_thread_id = out64 0x25
line Call.break_process = out00 0x26
line Call.output_debug_string = out00 0x27
line Call.return_from_exception = out00 0x28
line Call.get_info = out64 0x29
line Call.flush_entire_data_cache = out00 0x2A
line Call.flush_data_cache = out00 0x2B
line Call.get_resource_limit_limit_value = out64 0x30
line Call.get_resource_limit_current_value = out64 0x31
line Call.set_thread_activity = out00 0x32
line Call.create_session = out32_pair 0x40
line Call.accept_session = out32 0x41
line Call.reply_and_receive_light = out00 0x42
line Call.reply_and_receive = out32 0x43
line Call.reply_and_receive_with_user_buffer = out32 0x44
line Call.create_event = out32_pair 0x45
line Call.sleep_system = out00 0x4D
line Call.read_write_register = out32 0x4E
line Call.set_process_activity = out00 0x4F
line Call.create_shared_memory = out32 0x50
line Call.map_transfer_memory = out00 0x51
line Call.unmap_transfer_memory = out00 0x52
line Call.create_interrupt_event = out32 0x53
line Call.query_io_mapping = out64 0x55
line Call.create_device_address_space = out32 0x56
line Call.attach_device_address_space = out00 0x57
line Call.detach_device_address_space = out00 0x58
line Call.map_device_address_space_by_force = out00 0x59
line Call.map_device_address_space_aligned = out00 0x5A
line Call.map_device_address_space = out64 0x5B
line Call.unmap_device_address_space = out00 0x5C
line Call.invalidate_process_data_cache = out00 0x5D
line Call.store_process_data_cache = out00 0x5E
line Call.flush_process_data_cache = out00 0x5F
line (Call.of_process c) = process_line c

unfoldable pub stub : Call → List Instruction
unfolding line body
stub c = body (line c)
