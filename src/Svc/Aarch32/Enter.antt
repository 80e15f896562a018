-- ===== src/Svc/Aarch32/Enter.antt =====
-- What Trace knows of a stub of libhydrosphere/source/aarch32/svc.s from the call to the kernel.
use hydrosphere.Common.{
  ℕ, ◌+◌, ◌*◌, ◌^◌, ◌≤◌, ◌<◌, ◌≡◌, inl, inr, refl, List, [], ◌∷◌, ◌++◌, map, some, arith, ltb, leb,
  length, Bool-cases,
}
use hydrosphere.Svc.Machine.{Cpu, Kernel}
use hydrosphere.Svc.Aarch32.{
  Instruction, str_push, stmfd, ldmfd, ldr, str, add_sp, svc, bx_lr, below, store_list, run,
}
use hydrosphere.Svc.Aarch32.Trace.{Origin, Known, word_at, trace_in, entry, number, behind}
use hydrosphere.Svc.Aarch32.Sound.{Holds, Registers-set, word_at-Means, store_list-Words}

length-map_append :
    (l : List ℕ) (f : ℕ → Origin) (st : List Origin) → length (map f l ++ st) ≡ length l + length st
length-map_append [] f st = omega arith
length-map_append (r ∷ l) f st = omega (arith, length-map_append l f st)

-- The code up to `svc` is run, then the kernel, then the code behind.
pub run-entry :
    (K : Kernel) (code : List Instruction) (a a' : Known) (s s' : K.State) (c k : Cpu)
    → trace_in code a ≡ some a'
    → K.svc s (number code) (entry code c) ≡ some (s', k)
    → run K code s c ≡ run K (behind code) s' k
unfolding trace_in entry number behind run
run-entry K [] a a' s s' c k traced called = absurd (cc traced)
run-entry K (str_push t ∷ code) a a' s s' c k traced called =
    elim (Bool-cases (ltb (length a.stack) 8)) [
      | inl room ↦ run-entry K code _ a' s s' _ k (rw room at traced) called
      | inr full ↦ absurd (cc (rw full at traced))
    ]
run-entry K (stmfd l ∷ code) a a' s s' c k traced called =
    elim (Bool-cases (leb (length l + length a.stack) 8)) [
      | inl room ↦ run-entry K code _ a' s s' _ k (rw room at traced) called
      | inr full ↦ absurd (cc (rw full at traced))
    ]
run-entry K (ldr t o ∷ code) a a' s s' c k traced called =
    run-entry K code _ a' s s' _ k traced called
run-entry K (svc id ∷ code) a a' s s' c k traced called = rw (called, run) refl
run-entry K (ldmfd l ∷ code) a a' s s' c k traced called = absurd (cc traced)
run-entry K (str t n o ∷ code) a a' s s' c k traced called = absurd (cc traced)
run-entry K (add_sp n ∷ code) a a' s s' c k traced called = absurd (cc traced)
run-entry K (bx_lr ∷ code) a a' s s' c k traced called = absurd (cc traced)

module _ (m k : Cpu) (low : 32 ≤ m.sp) (high : m.sp < 2 ^ 32) where
  -- Registers put on the stack.
  pushed-Holds :
      (l : List ℕ) (a : Known) (c : Cpu)
      → length l + length a.stack ≤ 8
      → Holds m k a c
      → Holds m k
          (record a { stack = map a.registers l ++ a.stack })
          (record c {
            sp = below c.sp (length l);
            memory = store_list c.memory (below c.sp (length l)) l c.x;
          })
  pushed-Holds l a c room h =
      let down : below c.sp (length l) + 4 * length l ≡ c.sp = omega arith in
      record {
        level = omega (arith, length-map_append l a.registers a.stack);
        registers = h.registers;
        words =
            store_list-Words m k l a.registers a.stack (below c.sp (length l)) c.memory c.x
              h.registers (rw down (h.words));
      }

  -- On the way to the kernel.
  pub trace_in-Holds :
      (code : List Instruction) (a a' : Known) (c : Cpu)
      → trace_in code a ≡ some a'
      → Holds m k a c
      → Holds m k a' (entry code c)
  unfolding trace_in entry store_list
  trace_in-Holds [] a a' c traced h = absurd (cc traced)
  trace_in-Holds (str_push t ∷ code) a a' c traced h = elim (Bool-cases (ltb (length a.stack) 8)) [
    | inl room ↦
        trace_in-Holds code _ a' _ (rw room at traced) (pushed-Holds (t ∷ []) a c (ground arith) h)
    | inr full ↦ absurd (cc (rw full at traced))
  ]
  trace_in-Holds (stmfd l ∷ code) a a' c traced h =
      elim (Bool-cases (leb (length l + length a.stack) 8)) [
        | inl room ↦
            trace_in-Holds code _ a' _ (rw room at traced) (pushed-Holds l a c (ground arith) h)
        | inr full ↦ absurd (cc (rw full at traced))
      ]
  trace_in-Holds (ldr t o ∷ code) a a' c traced h = trace_in-Holds code _ a' _ traced (record {
    level = h.level;
    registers =
        Registers-set m k a.registers c.x t (word_at a.stack o) (c.memory (c.sp + o)) h.registers
          (word_at-Means m k a.stack c.sp o c.memory h.words);
    words = h.words;
  })
  trace_in-Holds (svc id ∷ code) a a' c traced h = let same : a ≡ a' = cc in rw (← same) h
  trace_in-Holds (ldmfd l ∷ code) a a' c traced h = absurd (cc traced)
  trace_in-Holds (str t n o ∷ code) a a' c traced h = absurd (cc traced)
  trace_in-Holds (add_sp n ∷ code) a a' c traced h = absurd (cc traced)
  trace_in-Holds (bx_lr ∷ code) a a' c traced h = absurd (cc traced)
