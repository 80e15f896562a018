-- ===== src/Svc/Aarch32/CoreMask.antt =====
-- The stub of `GetThreadCoreMask` in libhydrosphere/source/aarch32/svc.s, which takes one word less off the
-- stack than it puts there.
use hydrosphere.Common.{ℕ, ◌+◌, ◌-◌, ◌*◌, ◌≡◌, ◌≤◌, ◌<◌, ◌^◌, refl, some, arith, u32, ◌⊎◌}
use hydrosphere.Svc.Calls.{Call}
use hydrosphere.Svc.Machine.{Cpu, Kernel, update}
use hydrosphere.Svc.Aarch32.{run, store_list, load_list}
use hydrosphere.Svc.Aarch32.Table.{stub}

-- What `GetThreadCoreMask` leaves: the second pointer of the caller in r4.
abbrev pub mask_frame : Cpu → Cpu
mask_frame m = record m {
  sp = m.sp - 12;
  memory =
      update (update (update m.memory (m.sp - 12) (m.x 0)) (m.sp - 8) (m.x 1)) (m.sp - 4) (m.x 4);
}

-- On AArch32, `GetThreadCoreMask` returns with the stack pointer 4 bytes below that of its caller, and with the caller's second pointer in place of the caller's r4, whenever the kernel comes back and keeps the stack; no pointer leads into the 12 bytes below the stack.
pub get_thread_core_mask-unbalanced :
    (K : Kernel) (s s' : K.State) (m k : Cpu)
    → 12 ≤ m.sp
    → m.sp < 2 ^ 32
    → (m.x 0 + 4 ≤ m.sp - 12) ⊎ (m.sp ≤ m.x 0)
    → (m.x 1 + 8 ≤ m.sp - 12) ⊎ (m.sp ≤ m.x 1)
    → K.svc s 0xE (mask_frame m) ≡ some (s', k)
    → k.sp ≡ m.sp - 12
    → ((a : ℕ) → m.sp - 12 ≤ a → a < m.sp → k.memory a ≡ (mask_frame m).memory a)
    → (r : Cpu) × (run K (stub Call.get_thread_core_mask) s m ≡ some (s', r))
      × (r.sp + 4 ≡ m.sp)
      × (r.x 4 ≡ m.x 1)
unfolding run stub store_list load_list
get_thread_core_mask-unbalanced K s s' m k low high first second called stack kept =
    let down : u32 (m.sp + 2 ^ 32 - 4 * 3) ≡ m.sp - 12 = omega arith in
    let up : m.sp - 12 + 4 ≡ m.sp - 8 = omega arith in
    let up2 : m.sp - 8 + 4 ≡ m.sp - 4 = omega arith in
    let p0 = k.memory (k.sp + 0) in
    let mem1 = update k.memory (p0 + 0) (k.x 1) in
    let p1 = mem1 (k.sp + 4) in
    let mem = update (update mem1 (p1 + 0) (k.x 2)) (p1 + 4) (k.x 3) in
    let to_first : p0 ≡ m.x 0 = ground (arith, kept (k.sp + 0)) in
    let to_second : p1 ≡ m.x 1 = ground (arith, kept (k.sp + 4)) in
    let popped : mem (u32 (k.sp + 4)) ≡ m.x 1 = ground (arith, kept (k.sp + 4)) in
    (
      record {
        x = update (update (update k.x 4 p0) 4 p1) 4 (mem (u32 (k.sp + 4)));
        sp = u32 (u32 (k.sp + 4) + 4);
        memory = mem;
      },
      rw (down, up, up2, called, run) refl,
      omega arith,
      popped,
    )
