-- ===== src/Svc/Aarch32/Lost.antt =====
-- Arguments that the stubs of libhydrosphere/source/aarch32/svc.s overwrite before the kernel is entered.
-- The prototypes give each parameter its registers as the procedure call standard for AArch32 does: one
-- word after the other, and two, the first of them even, for a value of 64 bits.
use hydrosphere.Common.{
  ℕ, zero, suc, ap, not, ◌<◌, ◌≤◌, ◌^◌, ◌⊎◌, ◌≢◌, Option-cases, ◌+◌, ◌≡◌, refl, Bool, true, false,
  ◌||◌, ◌&&◌, List, [], ◌∷◌, Option, none, some, arith, ◌==◌, if◌then◌else◌, has, length,
  Bool-cases, inl, inr, eq_of_==,
}
use mathlib.Core.Path.{fun_ext}
use hydrosphere.Svc.Calls.{Parameter, value, out, buffer, aarch32_prototype, Call, ProcessCall}
use hydrosphere.Svc.Machine.{Cpu, Kernel, update, set_x}
use hydrosphere.Svc.Aarch32.{
  Instruction, str_push, stmfd, ldmfd, below, ldr, str, add_sp, svc, bx_lr, run, store_list,
}
use hydrosphere.Svc.Aarch32.Table.{stub}
use hydrosphere.Svc.Aarch32.Contract.{two_words, even_up, start}
use hydrosphere.Svc.Aarch32.Trace.{Origin, caller, kernel, anything, Known, trace_in, entry}
use hydrosphere.Svc.Aarch32.Sound.{Means}
use hydrosphere.Svc.Aarch32.Enter.{trace_in-Holds}

-- Word `r` of the arguments is part of a value; `i` words come before the parameters.
holds_value_from : ℕ → ℕ → List Parameter → Bool
unfolding two_words
holds_value_from i r [] = false
holds_value_from i r (value t ∷ ps) =
    if two_words t
    then (r == even_up i) || ((r == even_up i + 1) || holds_value_from (even_up i + 2) r ps)
    else (r == i) || holds_value_from (suc i) r ps
holds_value_from i r (out t ∷ ps) = holds_value_from (suc i) r ps
holds_value_from i r (buffer t ∷ ps) = holds_value_from (suc i) r ps

unfoldable pub holds_value : Call → ℕ → Bool
unfolding holds_value_from aarch32_prototype
holds_value c r = holds_value_from 0 r (aarch32_prototype c).parameters

-- The calls, each with the register whose argument is lost.
lost_process : ProcessCall → Option ℕ
lost_process ProcessCall.set_process_memory_permission = some 1
lost_process ProcessCall.query_process_memory = some 3
lost_process ProcessCall.map_process_code_memory = some 1
lost_process ProcessCall.unmap_process_code_memory = some 1
lost_process ProcessCall.start_process = some 3
lost_process _ = none

unfoldable pub lost : Call → Option ℕ
unfolding lost_process
lost Call.read_write_register = some 1
lost Call.create_device_address_space = some 1
lost Call.map_device_address_space = some 3
lost Call.invalidate_process_data_cache = some 1
lost Call.store_process_data_cache = some 1
lost Call.flush_process_data_cache = some 1
lost (Call.of_process c) = lost_process c
lost _ = none

-- The code loads another value into `r` before anything reads it.
dropped : List Instruction → ℕ → Bool
dropped (str_push t ∷ code) r = if t == r then false else dropped code r
dropped (stmfd l ∷ code) r = if has r l then false else dropped code r
dropped (ldr t o ∷ code) r = if t == r then true else dropped code r
dropped (add_sp n ∷ code) r = dropped code r
dropped _ r = false

unread : (x : ℕ → ℕ) (r v t : ℕ) → (t == r) ≡ false → update x r v t ≡ x t
unread x r v t h = ground arith

store_list-unread :
    (mem : ℕ → ℕ) (a : ℕ) (l : List ℕ) (x : ℕ → ℕ) (r v : ℕ)
    → has r l ≡ false
    → store_list mem a l (update x r v) ≡ store_list mem a l x
unfolding store_list
store_list-unread mem a [] x r v h = refl
store_list-unread mem a (t ∷ l) x r v h =
    rw (unread x r v t (ground arith))
      (store_list-unread (update mem a (x t)) (a + 4) l x r v (ground arith))

update_twice : (x : ℕ → ℕ) (r v w : ℕ) → update (update x r v) r w ≡ update x r w
update_twice x r v w = fun_ext λ b. ground arith

update_swap :
    (x : ℕ → ℕ) (r t v w : ℕ)
    → (t == r) ≡ false
    → update (update x r v) t w ≡ update (update x t w) r v
update_swap x r t v w h = fun_ext λ b. ground arith

run-dropped :
    (K : Kernel) (code : List Instruction) (s : K.State) (m : Cpu) (r v : ℕ)
    → dropped code r ≡ true
    → run K code s (set_x r v m) ≡ run K code s m
unfolding run dropped
run-dropped K (str_push t ∷ code) s m r v h = elim (Bool-cases (t == r)) [
  | inl read ↦ absurd (ground arith)
  | inr no_read ↦ rw (unread m.x r v t no_read) (run-dropped K code s _ r v (ground arith))
]
run-dropped K (stmfd l ∷ code) s m r v h = elim (Bool-cases (has r l)) [
  | inl read ↦ absurd (ground arith)
  | inr no_read ↦
      rw (store_list-unread m.memory (below m.sp (length l)) l m.x r v no_read)
        (run-dropped K code s _ r v (ground arith))
]
run-dropped K (ldr t o ∷ code) s m r v h = elim (Bool-cases (t == r)) [
  | inl over ↦ rw (eq_of_== t r over, update_twice m.x r v (m.memory (m.sp + o))) refl
  | inr other ↦
      rw (update_swap m.x r t v (m.memory (m.sp + o)) other)
        (run-dropped K code s _ r v (ground arith))
]
run-dropped K (add_sp n ∷ code) s m r v h = run-dropped K code s _ r v h
run-dropped K [] s m r v h = cc
run-dropped K (ldmfd l ∷ code) s m r v h = cc
run-dropped K (str t n o ∷ code) s m r v h = cc
run-dropped K (svc id ∷ code) s m r v h = cc
run-dropped K (bx_lr ∷ code) s m r v h = cc

abbrev is_lost : Option ℕ → ℕ → Bool
is_lost none r = false
is_lost (some k) r = k == r

abbrev is_caller : Origin → ℕ → Bool
is_caller (caller k) r = k == r
is_caller _ r = false

abbrev is_passed : Option Known → ℕ → Bool
is_passed none r = false
is_passed (some a) r = is_caller (a.registers r) r

-- A value in register `r` is dropped, as the table has it, or comes to the kernel.
is_settled : Call → ℕ → Bool
is_settled c r =
    if holds_value c r
    then (if is_lost (lost c) r then dropped (stub c) r else is_passed (trace_in (stub c) start) r)
    else not (is_lost (lost c) r)

all_settled : Call → Bool
all_settled c = is_settled c 0 && (is_settled c 1 && (is_settled c 2 && is_settled c 3))

all_settled-of_process : (c : ProcessCall) → all_settled (Call.of_process c) ≡ true
unfolding all_settled is_settled lost holds_value stub dropped trace_in
all_settled-of_process ProcessCall.start_process = refl
all_settled-of_process _ = refl

all_settled_lem : (c : Call) → all_settled c ≡ true
unfolding all_settled is_settled lost holds_value stub dropped trace_in
all_settled_lem (Call.of_process c) = all_settled-of_process c
all_settled_lem Call.read_write_register = refl
all_settled_lem _ = refl

settled_lem : (c : Call) (r : ℕ) → r < 4 → is_settled c r ≡ true
unfolding all_settled
settled_lem c zero h = ground (arith, all_settled_lem c)
settled_lem c (suc zero) h = ground (arith, all_settled_lem c)
settled_lem c (suc (suc zero)) h = ground (arith, all_settled_lem c)
settled_lem c (suc (suc (suc zero))) h = ground (arith, all_settled_lem c)
settled_lem c (suc (suc (suc (suc r)))) h = absurd (omega arith)

caller_lem : (m : Cpu) (o : Origin) (r v : ℕ) → is_caller o r ≡ true → Means m m o v → v ≡ m.x r
caller_lem m (caller k) r v same means = rw (← eq_of_== k r same) means
caller_lem m (kernel k) r v same means = absurd (cc same)
caller_lem m anything r v same means = absurd (cc same)

lost_lem : (o : Option ℕ) (r : ℕ) → is_lost o r ≡ true → o ≡ some r
lost_lem none r h = absurd (cc h)
lost_lem (some k) r h = ap some (eq_of_== k r h)

kept_lem : (o : Option ℕ) (r : ℕ) → is_lost o r ≡ false → o ≢ some r
kept_lem none r h e = cc
kept_lem (some k) r h e = ground arith

passed_lem :
    (code : List Instruction) (r : ℕ) (m : Cpu)
    → 32 ≤ m.sp
    → m.sp < 2 ^ 32
    → is_passed (trace_in code start) r ≡ true
    → (entry code m).x r ≡ m.x r
passed_lem code r m low high passed = elim (Option-cases (trace_in code start)) [
  | inl stuck ↦ absurd (cc (rw stuck at passed))
  | inr (a, traced) ↦
      let h =
        trace_in-Holds m m low high code start a m traced
          (record { level = omega arith; registers = λ q. refl; words = tt }) in
      caller_lem m (a.registers r) r ((entry code m).x r) (rw traced at passed) (h.registers r)
]

-- On AArch32, a value that a function takes in a register, by its prototype, is in the same register when the kernel is entered, unless the function and the register are among the eleven that `lost` names; then the stub never looks at the argument: whatever it is, the stub and the kernel do the same.
pub stub-passes :
    (c : Call) (r : ℕ) (K : Kernel) (s : K.State) (m : Cpu) (v : ℕ)
    → 32 ≤ m.sp
    → m.sp < 2 ^ 32
    → r < 4
    → holds_value c r ≡ true
    → ((lost c ≡ some r) × (run K (stub c) s (set_x r v m) ≡ run K (stub c) s m))
      ⊎ ((lost c ≢ some r) × ((entry (stub c) m).x r ≡ m.x r))
unfolding is_settled
stub-passes c r K s m v low high few holds = elim (Bool-cases (is_lost (lost c) r)) [
  | inl gone ↦ inl (
    lost_lem (lost c) r gone,
    run-dropped K (stub c) s m r v (ground (arith, settled_lem c r few)),
  )
  | inr stays ↦ inr (
    kept_lem (lost c) r stays,
    passed_lem (stub c) r m low high (ground (arith, settled_lem c r few)),
  )
]
