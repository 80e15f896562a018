-- ===== src/Svc/Aarch32/Return.antt =====
-- What Trace knows of a stub of libhydrosphere/source/aarch32/svc.s from the kernel's answer to the
-- return.
use hydrosphere.Common.{
  ℕ, ◌+◌, ◌-◌, ◌*◌, ◌^◌, ◌≤◌, ◌<◌, ◌≡◌, ◌⊎◌, inl, inr, refl, true, List, [], ◌∷◌, ◌++◌, some, arith,
  has, length, u32, Bool-cases, Option-cases,
}
use hydrosphere.Svc.Machine.{Cpu, Kernel, update}
use hydrosphere.Svc.Aarch32.{Instruction, str_push, stmfd, ldmfd, ldr, str, add_sp, svc, bx_lr, run}
use hydrosphere.Svc.Aarch32.Trace.{
  Origin, caller, kernel, anything, Write, write, Known, word_at, take_off, drop_bytes, is_kept,
  answered, store_known, trace_out,
}
use hydrosphere.Svc.Aarch32.Sound.{
  Words, Holds, apply, Registers-set, Words-update, word_at-Means, take_off-Holds, drop_bytes-Words,
}

store_known-cases :
    (ps : List ℕ) (v w : Origin) (o : ℕ) (a b : Known)
    → store_known ps v w o a ≡ some b
    → (q : ℕ) × (p : ℕ) × (v ≡ kernel q)
      × (w ≡ caller p)
      × (has p ps ≡ true)
      × (o ≤ 4)
      × (b ≡ record a { writes = a.writes ++ write p o q ∷ [] })
unfolding store_known
store_known-cases ps (kernel q) (caller p) o a b h =
    (q, p, refl, refl, ground arith, ground arith, ground arith)
store_known-cases ps (caller q) w o a b h = absurd (cc h)
store_known-cases ps anything w o a b h = absurd (cc h)
store_known-cases ps (kernel q) (kernel p) o a b h = absurd (cc h)
store_known-cases ps (kernel q) anything o a b h = absurd (cc h)

module _ (m k : Cpu) where
  apply-append :
      (ws : List Write) (w : Write) (mem : ℕ → ℕ)
      → apply m k (ws ++ w ∷ []) mem
        ≡ update (apply m k ws mem) (m.x w.parameter + w.offset) (k.x w.register)
  apply-append [] w mem = refl
  apply-append (v ∷ ws) w mem =
      apply-append ws w (update mem (m.x v.parameter + v.offset) (k.x v.register))

  Words-kept :
      (st : List Origin) (a : ℕ) (mem mem' : ℕ → ℕ)
      → ((b : ℕ) → a ≤ b → b < a + 4 * length st → mem' b ≡ mem b)
      → Words m k st a mem
      → Words m k st a mem'
  Words-kept [] a mem mem' same words = tt
  Words-kept (v ∷ st) a mem mem' same (first, words) = (
    rw (same a (omega arith) (omega arith)) first,
    Words-kept st (a + 4) mem mem' (λ b lo hi. same b (omega arith) (omega arith)) words,
  )

  -- The kernel `k` leaves what it was entered with, `e`: the stack pointer, the registers that a callee
  -- saves, and the stack up to that of the caller.
  pub record Keeps (e : Cpu) : Type 0 where
    pub stack : k.sp ≡ e.sp
    pub saved : (r : ℕ) → is_kept r ≡ true → k.x r ≡ e.x r
    pub kept : (a : ℕ) → e.sp ≤ a → a < m.sp → k.memory a ≡ e.memory a

  pub answered-Holds : (a : Known) (e : Cpu) → Keeps e → Holds m k a e → Holds m k (answered a) k
  unfolding answered
  answered-Holds a e keeps h = record {
    level = omega arith;
    registers = λ r. elim (Bool-cases (is_kept r)) [
      | inl kept ↦ rw (kept, keeps.saved r kept) (h.registers r)
      | inr given ↦ rw given refl
    ];
    words = rw (keeps.stack) (
        Words-kept a.stack e.sp e.memory k.memory (λ b lo hi. keeps.kept b lo (omega arith))
          h.words);
  }

  -- The state `c` on the way back, where `a` is known of it.
  pub record Returning (a : Known) (c : Cpu) : Type 0 where
    pub holds : Holds m k a c
    pub room : length a.stack ≤ 8
    pub memory : c.memory ≡ apply m k a.writes k.memory

  module _ (K : Kernel) (s : K.State) (ps : List ℕ) (low : 32 ≤ m.sp) (high : m.sp < 2 ^ 32)
      (clear : (p : ℕ) → has p ps ≡ true → (m.x p + 8 ≤ m.sp - 32) ⊎ (m.sp ≤ m.x p)) where
    pub trace_out-Returning :
        (code : List Instruction) (a a' : Known) (c : Cpu)
        → trace_out ps code a ≡ some a'
        → Returning a c
        → (r : Cpu) × (run K code s c ≡ some (s, r)) × Returning a' r
    unfolding trace_out run
    trace_out-Returning [] a a' c traced h = absurd (cc traced)
    trace_out-Returning (ldmfd l ∷ code) a a' c traced h =
        elim (Option-cases (take_off l a.registers a.stack)) [
          | inl short ↦ absurd (cc (rw (short, trace_out) at traced))
          | inr ((f, st), taken) ↦
              let (known, words, count) =
                take_off-Holds m k l a.registers f a.stack st c.sp c.memory c.x h.holds.registers
                  h.holds.words taken in
              let up : u32 (c.sp + 4 * length l) ≡ c.sp + 4 * length l = omega (arith, count) in
              trace_out-Returning code _ a' _ (rw (taken, trace_out) at traced) (record {
                holds = record {
                  level = omega (arith, count);
                  registers = known;
                  words = rw up words;
                };
                room = omega (arith, count);
                memory = h.memory;
              })
        ]
    trace_out-Returning (ldr t o ∷ code) a a' c traced h =
        trace_out-Returning code _ a' _ traced (record {
          holds = record {
            level = h.holds.level;
            registers =
                Registers-set m k a.registers c.x t (word_at a.stack o) (c.memory (c.sp + o))
                  h.holds.registers (word_at-Means m k a.stack c.sp o c.memory h.holds.words);
            words = h.holds.words;
          };
          room = h.room;
          memory = h.memory;
        })
    trace_out-Returning (str t n o ∷ code) a a' c traced h =
        elim (Option-cases (store_known ps (a.registers t) (a.registers n) o a)) [
          | inl short ↦ absurd (cc (rw (short, trace_out) at traced))
          | inr (b, stored) ↦
              let (q, p, from, to, pointer, near, after) =
                store_known-cases ps (a.registers t) (a.registers n) o a b stored in
              let answer : c.x t ≡ k.x q = rw from at (h.holds.registers t) in
              let place : c.x n ≡ m.x p = rw to at (h.holds.registers n) in
              trace_out-Returning code b a' _ (rw (stored, trace_out) at traced) (
                rw after (record {
                  holds = record {
                    level = h.holds.level;
                    registers = h.holds.registers;
                    words =
                        Words-update m k a.stack c.sp (c.x n + o) (c.x t) c.memory
                          (ground (arith, clear p)) h.holds.words;
                  };
                  room = h.room;
                  memory =
                      rw (apply-append a.writes (write p o q) k.memory, answer, place, h.memory)
                        refl;
                }))
        ]
    trace_out-Returning (add_sp n ∷ code) a a' c traced h =
        elim (Option-cases (drop_bytes n a.stack)) [
          | inl short ↦ absurd (cc (rw (short, trace_out) at traced))
          | inr (st, dropped) ↦
              let (words, count) =
                drop_bytes-Words m k n a.stack st c.sp c.memory h.holds.words dropped in
              let up : u32 (c.sp + n) ≡ c.sp + n = omega (arith, count) in
              trace_out-Returning code _ a' _ (rw (dropped, trace_out) at traced) (record {
                holds = record {
                  level = omega (arith, count);
                  registers = h.holds.registers;
                  words = rw up words;
                };
                room = omega (arith, count);
                memory = h.memory;
              })
        ]
    trace_out-Returning (bx_lr ∷ code) a a' c traced h =
        let same : a ≡ a' = cc in (c, refl, rw (← same) h)
    trace_out-Returning (str_push t ∷ code) a a' c traced h = absurd (cc traced)
    trace_out-Returning (stmfd l ∷ code) a a' c traced h = absurd (cc traced)
    trace_out-Returning (svc id ∷ code) a a' c traced h = absurd (cc traced)
