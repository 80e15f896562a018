-- ===== src/Svc/Aarch32/Trace.antt =====
-- A stub of libhydrosphere/source/aarch32/svc.s run on what is known of its values: whether a register or
-- a word of the stack has what a register of the caller had, or what a register of the kernel's answer
-- has. Sound shows that the run on real values agrees.
use hydrosphere.Common.{
  ℕ, ◌+◌, ◌-◌, Bool, ◌&&◌, List, [], ◌∷◌, ◌++◌, map, Option, none, some, ◌==◌, ltb, leb,
  if◌then◌else◌, has, length,
}
use hydrosphere.Svc.Machine.{Cpu, update}
use hydrosphere.Svc.Aarch32.{
  Instruction, str_push, stmfd, ldmfd, ldr, str, add_sp, svc, bx_lr, below, store_list,
}

-- What a word is: that of the caller's register, that of a register that the kernel came back with, or
-- anything.
pub data Origin : Type 0 where
  caller kernel : ℕ → Origin
  anything : Origin

-- A word that goes out: register `register` of the kernel, to `offset` from the pointer in `parameter`.
pub record Write : Type 0 where
  pub parameter : ℕ
  pub offset : ℕ
  pub register : ℕ

abbrev pub write : ℕ → ℕ → ℕ → Write
write p o r = record { parameter = p; offset = o; register = r }

pub record Known : Type 0 where
  pub registers : ℕ → Origin
  pub stack : List Origin  -- from the stack pointer up to the caller's
  pub writes : List Write

abbrev pub set_origin : (ℕ → Origin) → ℕ → Origin → ℕ → Origin
set_origin f r v b = if b == r then v else f b

-- The word `o` bytes above the stack pointer.
unfoldable pub word_at : List Origin → ℕ → Origin
word_at [] o = anything
word_at (v ∷ st) o = if o == 0 then v else (if ltb o 4 then anything else word_at st (o - 4))

-- Registers taken off the stack.
unfoldable pub take_off : List ℕ → (ℕ → Origin) → List Origin → Option ((ℕ → Origin) × List Origin)
take_off [] f st = some (f, st)
take_off (r ∷ l) f [] = none
take_off (r ∷ l) f (v ∷ st) = take_off l (set_origin f r v) st

unfoldable pub drop_bytes : ℕ → List Origin → Option (List Origin)
drop_bytes n [] = if n == 0 then some [] else none
drop_bytes n (v ∷ st) =
    if n == 0 then some (v ∷ st) else (if ltb n 4 then none else drop_bytes (n - 4) st)

-- Up to the kernel: the code may put registers on the stack and load words from it. At most eight words
-- are on the stack.
unfoldable pub trace_in : List Instruction → Known → Option Known
unfolding word_at
trace_in (str_push t ∷ code) a =
    if ltb (length a.stack) 8
    then trace_in code (record a { stack = a.registers t ∷ a.stack })
    else none
trace_in (stmfd l ∷ code) a =
    if leb (length l + length a.stack) 8
    then trace_in code (record a { stack = map a.registers l ++ a.stack })
    else none
trace_in (ldr t o ∷ code) a =
    trace_in code (record a { registers = set_origin a.registers t (word_at a.stack o) })
trace_in (svc id ∷ code) a = some a
trace_in _ a = none

-- The state that the kernel is entered with, the number of the call, and the code behind it.
unfoldable pub entry : List Instruction → Cpu → Cpu
entry (str_push t ∷ code) c =
    entry code (record c { sp = below c.sp 1; memory = update c.memory (below c.sp 1) (c.x t) })
entry (stmfd l ∷ code) c = entry code (record c {
  sp = below c.sp (length l);
  memory = store_list c.memory (below c.sp (length l)) l c.x;
})
entry (ldr t o ∷ code) c = entry code (record c { x = update c.x t (c.memory (c.sp + o)) })
entry _ c = c

unfoldable pub number : List Instruction → ℕ
number [] = 0
number (svc id ∷ code) = id
number (i ∷ code) = number code

unfoldable pub behind : List Instruction → List Instruction
behind [] = []
behind (svc id ∷ code) = code
behind (i ∷ code) = behind code

-- The kernel leaves the registers from the fifth to the twelfth alone; from here on the
-- writes are counted.
abbrev pub is_kept : ℕ → Bool
is_kept r = leb 4 r && leb r 11

unfoldable pub answered : Known → Known
answered a = record a {
  registers = λ r. if is_kept r then a.registers r else kernel r;
  writes = [];
}

-- A store of what the kernel gave, to one of the pointers `ps` of the caller.
unfoldable pub store_known : List ℕ → Origin → Origin → ℕ → Known → Option Known
store_known ps (kernel q) (caller p) o a =
    if has p ps && leb o 4 then some (record a { writes = a.writes ++ write p o q ∷ [] }) else none
store_known ps _ _ o a = none

-- From the kernel to the return, with the parameters that are pointers to what the call gives back.
unfoldable pub trace_out : List ℕ → List Instruction → Known → Option Known
unfolding word_at take_off drop_bytes store_known
trace_out ps (ldmfd l ∷ code) a = elim (take_off l a.registers a.stack) [
  | none ↦ none
  | some (f, st) ↦ trace_out ps code (record a { registers = f; stack = st })
]
trace_out ps (ldr t o ∷ code) a =
    trace_out ps code (record a { registers = set_origin a.registers t (word_at a.stack o) })
trace_out ps (str t n o ∷ code) a = elim (store_known ps (a.registers t) (a.registers n) o a) [
  | none ↦ none
  | some b ↦ trace_out ps code b
]
trace_out ps (add_sp n ∷ code) a = elim (drop_bytes n a.stack) [
  | none ↦ none
  | some st ↦ trace_out ps code (record a { stack = st })
]
trace_out ps (bx_lr ∷ code) a = some a
trace_out ps _ a = none
