-- ===== src/Svc/Aarch32/Contract.antt =====
-- The stubs of libhydrosphere/source/aarch32/svc.s against the prototypes of include/hs/svc/svc_api-aarch32.hpp:
-- what the kernel gives back comes in r1, r2, ..., one word after the other, and belongs to where the
-- pointers lead, which come in the words of the arguments.
use hydrosphere.Common.{
  ℕ, suc, ap, ◌∙◌, ◌+◌, ◌-◌, ◌%◌, ◌^◌, ◌≤◌, ◌<◌, ◌≡◌, ◌≢◌, ◌⊎◌, refl, Bool, true, false, List, [],
  ◌∷◌, map, Option, none, some, arith, if◌then◌else◌, has, Option-cases, inl, inr, leb, length,
  Bool-cases,
}
use hydrosphere.Svc.Calls.{
  CType, int64, uint64, Parameter, value, out, buffer, aarch32_prototype, Call, ProcessCall,
}
use hydrosphere.Svc.Machine.{Cpu, Kernel}
use hydrosphere.Svc.Aarch64.{line}
use hydrosphere.Svc.Aarch64.Laws
use hydrosphere.Svc.Aarch32.{Instruction, run}
use hydrosphere.Svc.Aarch32.Table.{stub}
use hydrosphere.Svc.Aarch32.Trace.{
  Origin, caller, kernel, Write, write, Known, trace_in, trace_out, entry, number, behind, answered,
}
use hydrosphere.Svc.Aarch32.Sound.{Registers, apply}
use hydrosphere.Svc.Aarch32.Enter.{trace_in-Holds, run-entry}
use hydrosphere.Svc.Aarch32.Return.{Keeps, Returning, answered-Holds, trace_out-Returning}

unfoldable pub two_words : CType → Bool
two_words int64 = true
two_words uint64 = true
two_words _ = false

abbrev pub even_up : ℕ → ℕ
even_up i = i + i % 2

-- `i` words come before the parameters, and the kernel's next answer is in register `r`.
unfoldable pub outputs_from : (i r : ℕ) → List Parameter → List Write
unfolding two_words
outputs_from i r [] = []
outputs_from i r (value t ∷ ps) = outputs_from (if two_words t then even_up i + 2 else suc i) r ps
outputs_from i r (buffer t ∷ ps) = outputs_from (suc i) r ps
outputs_from i r (out t ∷ ps) =
    if two_words t
    then write i 0 r ∷ write i 4 (suc r) ∷ outputs_from (suc i) (r + 2) ps
    else write i 0 r ∷ outputs_from (suc i) (suc r) ps

unfoldable pub outputs : Call → List Write
unfolding aarch32_prototype outputs_from
outputs c = outputs_from 0 1 (aarch32_prototype c).parameters

-- The registers of a result: r0, or r0 and r1 for one of 64 bits.
unfoldable pub result_registers : CType → List ℕ
unfolding two_words
result_registers t = if two_words t then 0 ∷ 1 ∷ [] else 0 ∷ []

unfoldable pub answers : Call → List ℕ
unfolding aarch32_prototype result_registers
answers c = result_registers (aarch32_prototype c).returns

abbrev pub pointers : List Write → List ℕ
pointers ws = map (λ w. w.parameter) ws

-- What a callee saves.
abbrev pub saved_registers : List ℕ
saved_registers = 4 ∷ 5 ∷ 6 ∷ 7 ∷ 8 ∷ 9 ∷ 10 ∷ 11 ∷ []

abbrev pub start : Known
start = record { registers = caller; stack = []; writes = [] }

trace_from : Option Known → List ℕ → List Instruction → Option Known
trace_from none ps code = none
trace_from (some a) ps code =
    if leb (length a.stack) 8 then trace_out ps code (answered a) else none

abbrev Ends : List ℕ → List Write → Option Known → Type 0
Ends rs ws none = ⊥
Ends rs ws (some a) =
    (a.stack ≡ [])
    × (map a.registers rs ≡ map kernel rs)
    × (map a.registers saved_registers ≡ map caller saved_registers)
    × (a.writes ≡ ws)

traced_of_process :
    (c : ProcessCall)
    → Ends (answers (Call.of_process c)) (outputs (Call.of_process c)) (
        trace_from
          (trace_in (stub (Call.of_process c)) start)
          (pointers (outputs (Call.of_process c)))
          (behind (stub (Call.of_process c))))
unfolding trace_from trace_in trace_out stub behind outputs answers answered
traced_of_process ProcessCall.start_process = (refl, refl, refl, refl)
traced_of_process _ = (refl, refl, refl, refl)

traced :
    (c : Call)
    → c ≢ Call.get_thread_core_mask
    → Ends
        (answers c)
        (outputs c)
        (trace_from (trace_in (stub c) start) (pointers (outputs c)) (behind (stub c)))
unfolding trace_from trace_in trace_out stub behind outputs answers answered
traced (Call.of_process c) other = traced_of_process c
traced Call.get_thread_core_mask other = absurd (other refl)
traced Call.set_heap_size other = (refl, refl, refl, refl)
traced _ other = (refl, refl, refl, refl)

-- Registers of a known origin hold what was there.
answered_lem :
    (m k : Cpu) (l : List ℕ) (f : ℕ → Origin) (x : ℕ → ℕ)
    → Registers m k f x
    → map f l ≡ map kernel l
    → map x l ≡ map k.x l
answered_lem m k [] f x known same = refl
answered_lem m k (r ∷ l) f x known same =
    let first : f r ≡ kernel r = cc in
    let rest : map f l ≡ map kernel l = cc in
    let here : x r ≡ k.x r = rw first at (known r) in
    rw (here, answered_lem m k l f x known rest) refl

saved_lem :
    (m k : Cpu) (l : List ℕ) (f : ℕ → Origin) (x : ℕ → ℕ)
    → Registers m k f x
    → map f l ≡ map caller l
    → map x l ≡ map m.x l
saved_lem m k [] f x known same = refl
saved_lem m k (r ∷ l) f x known same =
    let first : f r ≡ caller r = cc in
    let rest : map f l ≡ map caller l = cc in
    let here : x r ≡ m.x r = rw first at (known r) in rw (here, saved_lem m k l f x known rest) refl

-- The state `c` in which the caller `m` goes on, after the kernel `k` came back. The result is in the
-- registers `rs`.
pub record Returned (rs : List ℕ) (ws : List Write) (m k c : Cpu) : Type 0 where
  pub answer : map c.x rs ≡ map k.x rs
  pub stack : c.sp ≡ m.sp
  pub saved : map c.x saved_registers ≡ map m.x saved_registers
  pub memory : c.memory ≡ apply m k ws k.memory

-- A pointer to what the call gives back does not lead into the 32 bytes below the stack.
abbrev pub Clear : List ℕ → Cpu → Type 0
Clear ps m = (p : ℕ) → has p ps ≡ true → (m.x p + 8 ≤ m.sp - 32) ⊎ (m.sp ≤ m.x p)

module _ (K : Kernel) (s s' : K.State) (m k : Cpu) (low : 32 ≤ m.sp) (high : m.sp < 2 ^ 32) where
  -- Code whose trace ends well returns with everything delivered.
  left-Returned :
      (rs : List ℕ) (ws : List Write) (code : List Instruction) (a : Known)
      → Ends rs ws (trace_out (pointers ws) (behind code) (answered a))
      → Clear (pointers ws) m
      → run K code s m ≡ run K (behind code) s' k
      → Returning m k (answered a) k
      → (r : Cpu) × (run K code s m ≡ some (s', r)) × Returned rs ws m k r
  left-Returned rs ws code a ends clear same back =
      elim (Option-cases (trace_out (pointers ws) (behind code) (answered a))) [
        | inl stuck ↦ absurd (rw stuck at ends)
        | inr (b, left) ↦
            let (empty, answer, saved, writes) : Ends rs ws (some b) = rw left at ends in
            let (r, ran, home) =
              trace_out-Returning m k K s' (pointers ws) low high clear (behind code) (answered a) b
                k left back in
            (
              r,
              rw same ran,
              record {
                answer = answered_lem m k rs b.registers r.x home.holds.registers answer;
                stack = omega (arith, home.holds.level, ap length empty);
                saved = saved_lem m k saved_registers b.registers r.x home.holds.registers saved;
                memory = home.memory ∙ ap (λ w. apply m k w k.memory) writes;
              },
            )
      ]

  traced-Returned :
      (rs : List ℕ) (ws : List Write) (code : List Instruction)
      → Ends rs ws (trace_from (trace_in code start) (pointers ws) (behind code))
      → Clear (pointers ws) m
      → K.svc s (number code) (entry code m) ≡ some (s', k)
      → Keeps m k (entry code m)
      → (r : Cpu) × (run K code s m ≡ some (s', r)) × Returned rs ws m k r
  unfolding trace_from answered
  traced-Returned rs ws code ends clear called keeps = elim (Option-cases (trace_in code start)) [
    | inl stuck ↦ absurd (rw (stuck, trace_from) at ends)
    | inr (a, entered) ↦ elim (Bool-cases (leb (length a.stack) 8)) [
      | inl room ↦
          let h =
            trace_in-Holds m k low high code start a m entered
              (record { level = omega arith; registers = λ r. refl; words = tt }) in
          left-Returned rs ws code a (rw (entered, trace_from, room) at ends) clear
            (run-entry K code start a s s' m k entered called)
            (record {
              holds = answered-Holds m k a (entry code m) keeps h;
              room = ground arith;
              memory = refl;
            })
      | inr full ↦ absurd (rw (entered, trace_from, full) at ends)
    ]
  ]

-- Every function of the header but `GetThreadCoreMask`, on AArch32: if the kernel comes back from where the stub enters it, and keeps the stack pointer, the registers that a callee saves and the stack, the stub returns with the kernel's answer in r0, and in r0 and r1 where the function has a result of 64 bits, with the stack pointer and the saved registers of its caller, and with each word that the call gives back written to where its pointer leads. No such pointer leads into the 32 bytes below the stack.
pub stub-Returned :
    (c : Call) (K : Kernel) (s s' : K.State) (m k : Cpu)
    → c ≢ Call.get_thread_core_mask
    → 32 ≤ m.sp
    → m.sp < 2 ^ 32
    → Clear (pointers (outputs c)) m
    → K.svc s (number (stub c)) (entry (stub c) m) ≡ some (s', k)
    → Keeps m k (entry (stub c) m)
    → (r : Cpu) × (run K (stub c) s m ≡ some (s', r)) × Returned (answers c) (outputs c) m k r
stub-Returned c K s s' m k other low high clear called keeps =
    traced-Returned K s s' m k low high (answers c) (outputs c) (stub c) (traced c other) clear
      called keeps

number-of_process :
    (c : ProcessCall) → number (stub (Call.of_process c)) ≡ Laws.number (line (Call.of_process c))
unfolding number stub line
number-of_process ProcessCall.start_process = refl
number-of_process _ = refl

-- Both architectures enter the kernel with the same number for a function.
number-number : (c : Call) → number (stub c) ≡ Laws.number (line c)
unfolding number stub line
number-number (Call.of_process c) = number-of_process c
number-number Call.set_heap_size = refl
number-number _ = refl
