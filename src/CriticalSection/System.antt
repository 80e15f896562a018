-- ===== src/CriticalSection/System.antt =====
-- Any number of threads over one critical section, interleaved in any order, and the kernel.
-- A thread is named by its handle.
use hydrosphere.Common.{
  ℕ, ◌+◌, ◌≡◌, ◌≢◌, ◌⊎◌, ◌<◌, ◌^◌, Bool, true, false, Option, none, some, ◌==◌, if◌then◌else◌,
}
use hydrosphere.CriticalSection.{
  Pc, outside, entering, arbitrating, blocked, trying, inside, leaving, unlocking, run,
  listeners_bit,
}

-- The kernel's part: `ArbitrateLock` and `ArbitrateUnlock` on the address of the word, with the
-- threads that it keeps waiting there. It is not part of the library; the laws say what its calls
-- are documented to do. A handle is at least 1 and has no bit from bit 30 on.
pub record Arbiter : Type 1 where
  pub Queue : Type 0
  pub no_waiters : Queue
  pub waits : Queue → ℕ → Bool
  -- the new queue, and whether the caller waits
  pub lock : Queue → (image owner requester : ℕ) → Queue × Bool
  -- the new queue, the word that the kernel writes, and the thread that it lets go
  pub unlock : Queue → Queue × ℕ × Option ℕ
  pub no_waiters_law : (i : ℕ) → waits no_waiters i ≡ false
  -- The caller waits only if the word still names the owner and has the bit.
  pub lock_waits :
      (q : Queue) (v o i : ℕ)
      → (lock q v o i).1 ≡ true
      → (v ≡ o + listeners_bit) × (waits (lock q v o i).0 i ≡ true)
  pub lock_returns : (q : Queue) (v o i : ℕ) → (lock q v o i).1 ≡ false → (lock q v o i).0 ≡ q
  pub lock_others : (q : Queue) (v o i j : ℕ) → j ≢ i → waits (lock q v o i).0 j ≡ waits q j
  -- With no waiter the word becomes 0.
  pub unlock_none :
      (q : Queue)
      → (unlock q).2 ≡ none
      → ((unlock q).1 ≡ 0) × ((i : ℕ) → waits q i ≡ false) × ((unlock q).0 ≡ q)
  -- Else a waiter becomes the owner, and the bit says whether more of them are left.
  pub unlock_some :
      (q : Queue) (w : ℕ)
      → (unlock q).2 ≡ some w
      → (waits q w ≡ true)
        × (waits (unlock q).0 w ≡ false)
        × (((unlock q).1 ≡ w) ⊎ ((unlock q).1 ≡ w + listeners_bit))
        × ((j : ℕ) → waits (unlock q).0 j ≡ true → (unlock q).1 ≡ w + listeners_bit)
        × ((j : ℕ) → j ≢ w → waits (unlock q).0 j ≡ waits q j)

abbrev pub IsHandle : ℕ → Type 0
IsHandle h = (0 < h) × (h < 2 ^ 30)

abbrev pub update_pc : (ℕ → Pc) → ℕ → Pc → ℕ → Pc
update_pc f i p j = if j == i then p else f j

-- The thread that `ArbitrateUnlock` lets go returns from `ArbitrateLock`, to the loop in `Enter`.
abbrev pub wake : (ℕ → Pc) → Option ℕ → ℕ → Pc
wake f none = f
wake f (some w) = update_pc f w entering

module _ (A : Arbiter) where
  open A use {Queue, no_waiters, lock, unlock}

  pub record System : Type 0 where
    pub image : ℕ
    pub queue : Queue
    pub pc : ℕ → Pc

  abbrev pub start : System
  start = record { image = 0; queue = no_waiters; pc = λ _. outside }

  -- A call of `Enter` may come from a thread that is inside already.
  pub data Step (s : System) : System → Type 0 where
    enter :
        (i : ℕ)
        → (s.pc i ≡ outside) ⊎ (s.pc i ≡ inside)
        → Step s (record s { pc = update_pc s.pc i entering })
    try_enter : (i : ℕ) → s.pc i ≡ outside → Step s (record s { pc = update_pc s.pc i trying })
    leave : (i : ℕ) → s.pc i ≡ inside → Step s (record s { pc = update_pc s.pc i leaving })
    access :
        (i : ℕ)
        → IsHandle i
        → Step s (record s {
          image = (run i (s.pc i) s.image).1;
          pc = update_pc s.pc i (run i (s.pc i) s.image).0;
        })
    arbitrate_lock :
        (i o : ℕ)
        → IsHandle i
        → s.pc i ≡ arbitrating o
        → Step s (record s {
          queue = (lock s.queue s.image o i).0;
          pc = update_pc s.pc i (if (lock s.queue s.image o i).1 then blocked else entering);
        })
    arbitrate_unlock :
        (i : ℕ)
        → s.pc i ≡ unlocking
        → Step s (record s {
          image = (unlock s.queue).1;
          queue = (unlock s.queue).0;
          pc = wake (update_pc s.pc i outside) (unlock s.queue).2;
        })

  pub data Reach : System → Type 0 where
    here : Reach start
    next : {s t : System} → Reach s → Step s t → Reach t
