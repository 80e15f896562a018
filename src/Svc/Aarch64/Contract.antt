-- ===== src/Svc/Aarch64/Contract.antt =====
-- What a stub of libhydrosphere/source/aarch64/svc.s has to do, read off the prototype of its function in
-- include/hs/svc/svc_api-aarch64.hpp: the arguments are in x0, x1, ..., the kernel answers in x0, and
-- what it gives back besides comes in x1, x2, ... and belongs to where the pointers lead.
use hydrosphere.Common.{
  ℕ, suc, ◌+◌, ◌-◌, ◌≤◌, ◌<◌, ◌≡◌, ◌⊎◌, Bool, true, false, List, [], ◌∷◌, if◌then◌else◌,
}
use hydrosphere.Svc.Calls.{
  CType, uintptr, size, int64, uint64, Parameter, value, out, buffer, prototype, Call,
}
use hydrosphere.Svc.Machine.{Cpu, store_word, store_double}

-- One thing that a call gives back: the parameter that points to it, and the register it comes in.
pub record Output : Type 0 where
  pub parameter : ℕ
  pub register : ℕ
  pub is_double : Bool

abbrev pub output : ℕ → ℕ → Bool → Output
output p r d = record { parameter = p; register = r; is_double = d }

-- The types of 64 bits; all others that a pointer leads to have 32.
is_double_type : CType → Bool
is_double_type uintptr = true
is_double_type size = true
is_double_type int64 = true
is_double_type uint64 = true
is_double_type _ = false

unfoldable pub outputs_from : (position register : ℕ) → List Parameter → List Output
unfolding is_double_type
outputs_from i r [] = []
outputs_from i r (out t ∷ ps) = output i r (is_double_type t) ∷ outputs_from (suc i) (suc r) ps
outputs_from i r (value t ∷ ps) = outputs_from (suc i) r ps
outputs_from i r (buffer t ∷ ps) = outputs_from (suc i) r ps

unfoldable pub outputs : Call → List Output
unfolding prototype outputs_from
outputs c = outputs_from 0 1 (prototype c).parameters

-- The pointers are kept in 16 bytes of the stack while the kernel is entered; the registers are the
-- caller's.
abbrev pub frame : List Output → Cpu → Cpu
frame [] m = m
frame (o ∷ []) m = record m {
  sp = m.sp - 16;
  memory = store_double m.memory (m.sp - 16) (m.x o.parameter);
}
frame (o ∷ o2 ∷ _) m = record m {
  sp = m.sp - 16;
  memory =
      store_double (store_double m.memory (m.sp - 16) (m.x o.parameter)) (m.sp - 8)
        (m.x o2.parameter);
}

-- No pointer leads into the 16 bytes below the caller's stack.
abbrev pub Apart : List Output → Cpu → Type 0
Apart [] m = Unit {0}
Apart (o ∷ os) m = ((m.x o.parameter + 8 ≤ m.sp - 16) ⊎ (m.sp ≤ m.x o.parameter)) × Apart os m

-- The kernel `k` comes back to what it was entered with, `e`: the stack pointer, the registers that a
-- callee saves with the return address, and what the stub put below the stack of the caller `m` are as
-- they were.
pub record Keeps (m e k : Cpu) : Type 0 where
  pub stack : k.sp ≡ e.sp
  pub saved : (r : ℕ) → 19 ≤ r → r ≤ 30 → k.x r ≡ e.x r
  pub kept : (a : ℕ) → e.sp ≤ a → a < m.sp → k.memory a ≡ e.memory a

-- Memory with what the kernel `k` gives back written to where the pointers of the caller `m` lead.
abbrev pub deliver : List Output → Cpu → Cpu → (ℕ → ℕ) → ℕ → ℕ
deliver [] m k mem = mem
deliver (o ∷ os) m k mem = deliver os m k (
    if o.is_double
    then store_double mem (m.x o.parameter) (k.x o.register)
    else store_word mem (m.x o.parameter) (k.x o.register))

-- The state `c` in which the caller `m` goes on.
pub record Delivered (os : List Output) (m k c : Cpu) : Type 0 where
  pub answer : c.x 0 ≡ k.x 0
  pub stack : c.sp ≡ m.sp
  pub saved : (r : ℕ) → 19 ≤ r → r ≤ 30 → c.x r ≡ m.x r
  pub memory : c.memory ≡ deliver os m k k.memory
