-- ===== src/Svc/Aarch64/Laws.antt =====
-- The stubs of libhydrosphere/source/aarch64/svc.s do what the prototypes of their functions ask for.
use hydrosphere.Common.{
  ℕ, ◌+◌, ◌-◌, ◌/◌, ◌%◌, ◌^◌, ◌≤◌, ◌<◌, ◌≡◌, refl, ◌∙◌, Bool, true, false, List, [], ◌∷◌, some,
  arith, u64,
}
use hydrosphere.Svc.Calls.{Call, ProcessCall}
use hydrosphere.Svc.Machine.{Cpu, Kernel, update, store_double, load_double, store_word}
use hydrosphere.Svc.Aarch64.{
  Line, Instruction, str_push, svc, ldr, str_w, str_x, add_sp, ret, out00, out32, out64, out32_arg2,
  out32_pair, core_mask, body, line, stub, run, below,
}
use hydrosphere.Svc.Aarch64.Contract.{
  Output, output, outputs, frame, Apart, Keeps, deliver, Delivered,
}

abbrev line_outputs : Line → List Output
line_outputs (out00 id) = []
line_outputs (out32 id) = output 0 1 false ∷ []
line_outputs (out64 id) = output 0 1 true ∷ []
line_outputs (out32_arg2 id) = output 1 1 false ∷ []
line_outputs (out32_pair id) = output 0 1 false ∷ output 1 2 false ∷ []
line_outputs core_mask = output 0 1 false ∷ output 1 2 true ∷ []

abbrev pub number : Line → ℕ
number (out00 id) = id
number (out32 id) = id
number (out64 id) = id
number (out32_arg2 id) = id
number (out32_pair id) = id
number core_mask = 0xE

outputs-process_line :
    (c : ProcessCall) → outputs (Call.of_process c) ≡ line_outputs (line (Call.of_process c))
unfolding outputs line
outputs-process_line ProcessCall.debug_active_process = refl
outputs-process_line _ = refl

-- The table gives each function a macro that fits its prototype.
outputs-line : (c : Call) → outputs c ≡ line_outputs (line c)
unfolding outputs line
outputs-line (Call.of_process c) = outputs-process_line c
outputs-line Call.set_heap_size = refl
outputs-line _ = refl

below_lem : (sp : ℕ) → 16 ≤ sp → sp < 2 ^ 64 → below sp ≡ sp - 16
below_lem sp low high = omega arith

-- What the kernel keeps at the stack pointer is what the stub put there.
slot_lem :
    (mem : ℕ → ℕ) (a v : ℕ) → mem a ≡ v % 2 ^ 32 → mem (a + 4) ≡ v / 2 ^ 32 → load_double mem a ≡ v
slot_lem mem a v lo hi = rw (lo, hi) (omega arith)

module _ (K : Kernel) (s s' : K.State) (m k : Cpu) (low : 16 ≤ m.sp) (high : m.sp < 2 ^ 64) where
  -- The stub `code` enters the kernel with `e` and does what has to be done with what comes back.
  abbrev Serves : List Instruction → ℕ → List Output → Type 0
  Serves code id os =
      K.svc s id (frame os m) ≡ some (s', k)
      → Keeps m (frame os m) k
      → (c : Cpu) × (run K code s m ≡ some (s', c)) × Delivered os m k c

  -- The two words that the kernel was entered with at the stack pointer are taken back.
  taken_back :
      (e : Cpu) (v : ℕ)
      → Keeps m e k
      → e.sp ≡ m.sp - 16
      → e.memory (m.sp - 16) ≡ v % 2 ^ 32
      → e.memory (m.sp - 16 + 4) ≡ v / 2 ^ 32
      → load_double k.memory (k.sp + 0) ≡ v
  taken_back e v keeps level lo hi =
      let here : k.sp + 0 ≡ m.sp - 16 = omega (arith, keeps.stack) in
      rw here (
        slot_lem k.memory (m.sp - 16) v (ground (arith, keeps.kept (m.sp - 16)))
          (ground (arith, keeps.kept (m.sp - 16 + 4))))

  -- The state after the stub, with the registers `x` and the memory `mem`.
  abbrev after : (ℕ → ℕ) → (ℕ → ℕ) → Cpu
  after x mem = record { x = x; sp = u64 (k.sp + 0x10); memory = mem }

  after-Delivered :
      (os : List Output) (e : Cpu) (x mem : ℕ → ℕ)
      → Keeps m e k
      → e.sp ≡ m.sp - 16
      → ((r : ℕ) → e.x r ≡ m.x r)
      → x 0 ≡ k.x 0
      → ((r : ℕ) → 19 ≤ r → x r ≡ k.x r)
      → mem ≡ deliver os m k k.memory
      → Delivered os m k (after x mem)
  after-Delivered os e x mem keeps level same answer unused given = record {
    answer = answer;
    stack = omega (arith, keeps.stack);
    saved = λ r lo hi. unused r lo ∙ keeps.saved r lo hi ∙ same r;
    memory = given;
  }

  -- One pointer: saved, taken back, and written through.
  one_word :
      (p id : ℕ)
      → Serves
          (str_push p ∷ svc id ∷ ldr 2 0 ∷ str_w 1 2 ∷ add_sp 0x10 ∷ ret ∷ [])
          id
          (output p 1 false ∷ [])
  unfolding run
  one_word p id called keeps =
      let v = load_double k.memory (k.sp + 0) in
      let pointer : v ≡ m.x p = taken_back _ (m.x p) keeps refl (ground arith) (ground arith) in
      (
        after (update k.x 2 v) (store_word k.memory v (k.x 1)),
        rw (below_lem m.sp low high, called, run) refl,
        after-Delivered (output p 1 false ∷ []) _ _ _ keeps refl (λ r. refl) refl
            (λ r lo. ground arith) (rw pointer refl),
      )

  one_double :
      (p id : ℕ)
      → Serves
          (str_push p ∷ svc id ∷ ldr 2 0 ∷ str_x 1 2 ∷ add_sp 0x10 ∷ ret ∷ [])
          id
          (output p 1 true ∷ [])
  unfolding run
  one_double p id called keeps =
      let v = load_double k.memory (k.sp + 0) in
      let pointer : v ≡ m.x p = taken_back _ (m.x p) keeps refl (ground arith) (ground arith) in
      (
        after (update k.x 2 v) (store_double k.memory v (k.x 1)),
        rw (below_lem m.sp low high, called, run) refl,
        after-Delivered (output p 1 true ∷ []) _ _ _ keeps refl (λ r. refl) refl
            (λ r lo. ground arith) (rw pointer refl),
      )

  abbrev two_outputs : Bool → List Output
  two_outputs d = output 0 1 false ∷ output 1 2 d ∷ []

  -- Two pointers: the second one is taken back after the first one was written through.
  module _ (d : Bool) (apart : Apart (two_outputs d) m)
      (keeps : Keeps m (frame (two_outputs d) m) k) where
    first_lem : load_double k.memory (k.sp + 0) ≡ m.x 0
    first_lem = taken_back _ (m.x 0) keeps refl (ground arith) (ground arith)

    second_lem : load_double (store_word k.memory (m.x 0) (k.x 1)) (k.sp + 8) ≡ m.x 1
    second_lem =
        let mem = store_word k.memory (m.x 0) (k.x 1) in
        let lo : mem (m.sp - 8) ≡ m.x 1 % 2 ^ 32 = ground (arith, keeps.kept (m.sp - 8)) in
        let hi : mem (m.sp - 8 + 4) ≡ m.x 1 / 2 ^ 32 = ground (arith, keeps.kept (m.sp - 8 + 4)) in
        let here : k.sp + 8 ≡ m.sp - 8 = omega arith in
        rw here (slot_lem mem (m.sp - 8) (m.x 1) lo hi)

  up_lem : m.sp - 16 + 8 ≡ m.sp - 8
  up_lem = omega arith

  two_words :
      (id : ℕ) → Apart (two_outputs false) m → Serves (body (out32_pair id)) id (two_outputs false)
  unfolding run body
  two_words id apart called keeps =
      let v = load_double k.memory (k.sp + 0) in
      let mem = store_word k.memory v (k.x 1) in
      let w = load_double mem (k.sp + 8) in
      (
        after (update (update k.x 3 v) 3 w) (store_word mem w (k.x 2)),
        rw (below_lem m.sp low high, up_lem, called, run) refl,
        after-Delivered (two_outputs false) _ _ _ keeps refl (λ r. refl) refl (λ r lo. ground arith)
            (rw (first_lem false apart keeps, second_lem false apart keeps) refl),
      )

  word_and_double : Apart (two_outputs true) m → Serves (body core_mask) 0xE (two_outputs true)
  unfolding run body
  word_and_double apart called keeps =
      let v = load_double k.memory (k.sp + 0) in
      let mem = store_word k.memory v (k.x 1) in
      let w = load_double mem (k.sp + 8) in
      (
        after (update (update k.x 3 v) 3 w) (store_double mem w (k.x 2)),
        rw (below_lem m.sp low high, up_lem, called, run) refl,
        after-Delivered (two_outputs true) _ _ _ keeps refl (λ r. refl) refl (λ r lo. ground arith)
            (rw (first_lem true apart keeps, second_lem true apart keeps) refl),
      )

  body-Delivered :
      (l : Line) → Apart (line_outputs l) m → Serves (body l) (number l) (line_outputs l)
  unfolding run body
  body-Delivered (out00 id) apart called keeps = (
    k,
    rw (called, run) refl,
    record { answer = refl; stack = keeps.stack; saved = keeps.saved; memory = refl },
  )
  body-Delivered (out32 id) apart called keeps = one_word 0 id called keeps
  body-Delivered (out64 id) apart called keeps = one_double 0 id called keeps
  body-Delivered (out32_arg2 id) apart called keeps = one_word 1 id called keeps
  body-Delivered (out32_pair id) apart called keeps = two_words id apart called keeps
  body-Delivered core_mask apart called keeps = word_and_double apart called keeps

-- Every function of the header, on AArch64: if the kernel, which is entered with the function's number and the registers of the caller, comes back and keeps what a callee has to keep, the stub returns to the caller with the kernel's answer, the stack pointer and the saved registers as they were, and each thing that the call gives back written, in its width, to where the pointer in the prototype leads. No pointer leads into the 16 bytes below the stack.
pub stub-Delivered :
    (c : Call) (K : Kernel) (s s' : K.State) (m k : Cpu)
    → 16 ≤ m.sp
    → m.sp < 2 ^ 64
    → Apart (outputs c) m
    → K.svc s (number (line c)) (frame (outputs c) m) ≡ some (s', k)
    → Keeps m (frame (outputs c) m) k
    → (r : Cpu) × (run K (stub c) s m ≡ some (s', r)) × Delivered (outputs c) m k r
unfolding stub
stub-Delivered c K s s' m k low high =
    rw (outputs-line c) (body-Delivered K s s' m k low high (line c))
