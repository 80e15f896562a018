-- ===== src/Svc/Aarch32/Process.antt =====
-- The stubs of libhydrosphere/source/aarch32/svc.s for debuggers, ports, processes and resource limits.
use hydrosphere.Common.{List, [], ◌∷◌}
use hydrosphere.Svc.Calls.{ProcessCall}
use hydrosphere.Svc.Aarch32.{
  Instruction, str_push, stmfd, ldmfd, ldr, str, add_sp, svc, bx_lr, out00, out32,
}

unfoldable pub process_stub : ProcessCall → List Instruction
process_stub ProcessCall.debug_active_process = out32 0x60
process_stub ProcessCall.break_debug_process = out00 0x61
process_stub ProcessCall.terminate_debug_process = out00 0x62
process_stub ProcessCall.get_process_list = out32 0x65
process_stub ProcessCall.get_thread_list = out32 0x66
process_stub ProcessCall.create_port =
    stmfd (0 ∷ 1 ∷ [])
    ∷ ldr 0 0x8
    ∷ svc 0x70
    ∷ ldr 3 0
    ∷ str 1 3 0
    ∷ ldr 3 0x4
    ∷ str 2 3 0
    ∷ add_sp 0x8
    ∷ bx_lr
    ∷ []
process_stub ProcessCall.manage_named_port = out32 0x71
process_stub ProcessCall.connect_to_port = out32 0x72
process_stub ProcessCall.set_process_memory_permission =
    stmfd (4 ∷ 5 ∷ [])
    ∷ ldr 1 0x8
    ∷ ldr 4 0xC
    ∷ ldr 5 0x10
    ∷ svc 0x73
    ∷ ldmfd (4 ∷ 5 ∷ [])
    ∷ bx_lr
    ∷ []
process_stub ProcessCall.map_process_memory =
    str_push 4 ∷ ldr 4 0x4 ∷ svc 0x74 ∷ ldmfd (4 ∷ []) ∷ bx_lr ∷ []
process_stub ProcessCall.unmap_process_memory =
    str_push 4 ∷ ldr 4 0x4 ∷ svc 0x75 ∷ ldmfd (4 ∷ []) ∷ bx_lr ∷ []
process_stub ProcessCall.query_process_memory =
    str_push 1 ∷ ldr 1 0x4 ∷ ldr 3 0x8 ∷ svc 0x76 ∷ ldr 2 0 ∷ str 1 2 0 ∷ add_sp 0x4 ∷ bx_lr ∷ []
process_stub ProcessCall.map_process_code_memory =
    stmfd (4 ∷ 5 ∷ 6 ∷ [])
    ∷ ldr 1 0xC
    ∷ ldr 4 0x10
    ∷ ldr 5 0x14
    ∷ ldr 6 0x18
    ∷ svc 0x77
    ∷ ldmfd (4 ∷ 5 ∷ 6 ∷ [])
    ∷ bx_lr
    ∷ []
process_stub ProcessCall.unmap_process_code_memory =
    stmfd (4 ∷ 5 ∷ 6 ∷ [])
    ∷ ldr 1 0xC
    ∷ ldr 4 0x10
    ∷ ldr 5 0x14
    ∷ ldr 6 0x18
    ∷ svc 0x78
    ∷ ldmfd (4 ∷ 5 ∷ 6 ∷ [])
    ∷ bx_lr
    ∷ []
process_stub ProcessCall.create_process = out32 0x79
process_stub ProcessCall.start_process =
    str_push 4 ∷ ldr 3 0x4 ∷ ldr 3 0x8 ∷ svc 0x7A ∷ ldmfd (4 ∷ []) ∷ bx_lr ∷ []
process_stub ProcessCall.terminate_process = out00 0x7B
process_stub ProcessCall.get_process_info =
    str_push 0 ∷ svc 0x7C ∷ ldr 3 0 ∷ str 1 3 0 ∷ str 2 3 0x4 ∷ add_sp 0x4 ∷ bx_lr ∷ []
process_stub ProcessCall.create_resource_limit = out32 0x7D
process_stub ProcessCall.set_resource_limit_limit_value = out00 0x7E
process_stub ProcessCall.call_secure_monitor = out00 0x7F
