-- ===== src/Svc/Aarch32.antt =====
-- The machine of the stubs in libhydrosphere/source/aarch32/svc.s, and the macros of that file. Registers
-- and addresses have 32 bits.
pub mod Process
pub mod Table
pub mod Trace
pub mod Sound
pub mod Enter
pub mod Return
pub mod Contract
pub mod CoreMask
pub mod Lost
use hydrosphere.Common.{ℕ, ◌+◌, ◌-◌, ◌*◌, ◌%◌, ◌^◌, List, [], ◌∷◌, Option, none, some, u32, length}
use hydrosphere.Svc.Machine.{Cpu, Kernel, update, set_x}

-- The instructions that the file uses; a register is its number.
pub data Instruction : Type 0 where
  str_push : (rt : ℕ) → Instruction  -- str rt, [sp, #-0x4]!
  stmfd : (list : List ℕ) → Instruction  -- stmfd sp!, {...}
  ldmfd : (list : List ℕ) → Instruction  -- ldmfd sp!, {...}, and pop {...}
  ldr : (rt offset : ℕ) → Instruction  -- ldr rt, [sp, #offset]
  str : (rt rn offset : ℕ) → Instruction  -- str rt, [rn, #offset]
  add_sp : ℕ → Instruction  -- add sp, sp, #n
  svc : (id : ℕ) → Instruction
  bx_lr : Instruction

-- Registers in a row of words, and back.
unfoldable pub store_list : (ℕ → ℕ) → ℕ → List ℕ → (ℕ → ℕ) → ℕ → ℕ
store_list mem a [] x = mem
store_list mem a (r ∷ rs) x = store_list (update mem a (x r)) (a + 4) rs x

unfoldable pub load_list : (ℕ → ℕ) → ℕ → List ℕ → (ℕ → ℕ) → ℕ → ℕ
load_list mem a [] x = x
load_list mem a (r ∷ rs) x = load_list mem (a + 4) rs (update x r (mem a))

abbrev pub below : ℕ → ℕ → ℕ
below sp n = u32 (sp + 2 ^ 32 - 4 * n)

unfoldable pub run : (K : Kernel) → List Instruction → K.State → Cpu → Option (K.State × Cpu)
unfolding store_list load_list
run K [] s c = none
run K (str_push t ∷ code) s c =
    run K code s (record c { sp = below c.sp 1; memory = update c.memory (below c.sp 1) (c.x t) })
run K (stmfd l ∷ code) s c = run K code s (record c {
  sp = below c.sp (length l);
  memory = store_list c.memory (below c.sp (length l)) l c.x;
})
run K (ldmfd l ∷ code) s c =
    run K code s (record c { x = load_list c.memory c.sp l c.x; sp = u32 (c.sp + 4 * length l) })
run K (ldr t o ∷ code) s c = run K code s (set_x t (c.memory (c.sp + o)) c)
run K (str t n o ∷ code) s c =
    run K code s (record c { memory = update c.memory (c.x n + o) (c.x t) })
run K (add_sp n ∷ code) s c = run K code s (record c { sp = u32 (c.sp + n) })
run K (svc id ∷ code) s c = elim (K.svc s id c) [ none ↦ none | some (s', c') ↦ run K code s' c' ]
run K (bx_lr ∷ code) s c = some (s, c)

-- The macros of the file.
abbrev pub out00 : ℕ → List Instruction
out00 id = svc id ∷ bx_lr ∷ []

abbrev pub out32 : ℕ → List Instruction
out32 id = str_push 0 ∷ svc id ∷ ldr 2 0 ∷ str 1 2 0 ∷ add_sp 0x4 ∷ bx_lr ∷ []

abbrev pub out32_arg2 : ℕ → List Instruction
out32_arg2 id = str_push 1 ∷ svc id ∷ ldr 2 0 ∷ str 1 2 0 ∷ add_sp 0x4 ∷ bx_lr ∷ []
