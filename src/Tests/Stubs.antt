-- ===== src/Tests/Stubs.antt =====
-- The stubs of AArch64, with a kernel that answers every call.
use hydrosphere.Common.{ℕ, ◌≡◌, refl, inl, some, arith, ◌==◌, if◌then◌else◌}
use hydrosphere.Svc.Calls.{Call}
use hydrosphere.Svc.Machine.{Cpu, Kernel, set_x}
use hydrosphere.Svc.Aarch64.{line, stub, run}
use hydrosphere.Svc.Aarch64.Contract.{outputs, frame, Keeps, Delivered}
use hydrosphere.Svc.Aarch64.Laws.{number, stub-Delivered}

-- It answers 0 in the first register, 7 in the second, 8 in the third, and the number of the call in
-- its state.
abbrev pub answered : Cpu → Cpu
answered e = set_x 2 8 (set_x 1 7 (set_x 0 0 e))

abbrev pub answering : Kernel
answering = record { State = ℕ; svc = λ s id e. some (id, answered e) }

-- A caller with its stack at 0x1000 and two pointers.
abbrev pub caller : Cpu
caller = record {
  x = λ r. if r == 0 then 0x100 else (if r == 1 then 0x200 else r);
  sp = 0x1000;
  memory = λ a. 0;
}

abbrev two_handles : Cpu
two_handles = answered (frame (outputs Call.create_event) caller)

two_handles-Keeps : Keeps caller (frame (outputs Call.create_event) caller) two_handles
unfolding outputs
two_handles-Keeps = record { stack = refl; saved = λ r lo hi. ground arith; kept = λ a lo hi. refl }

abbrev call : ℕ
call = number (line Call.create_event)

called : answering.svc 0 call (frame (outputs Call.create_event) caller) ≡ some (0x45, two_handles)
unfolding line outputs
called = refl

stub-Delivered_example :
    (r : Cpu) × (run answering (stub Call.create_event) 0 caller ≡ some (0x45, r))
    × Delivered (outputs Call.create_event) caller two_handles r
unfolding outputs line
stub-Delivered_example =
    stub-Delivered Call.create_event answering 0 0x45 caller two_handles (omega arith) (omega arith)
      (inl (omega arith), (inl (omega arith), tt)) called two_handles-Keeps
