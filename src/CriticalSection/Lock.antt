-- ===== src/CriticalSection/Lock.antt =====
-- The critical section as a lock: an abstract lock that knows nothing of words, and that every step
-- of the threads and the kernel is one of its steps.
use hydrosphere.Common.{ℕ, ◌≡◌, refl, ◌⊎◌, inl, inr, arith, Option-cases}
use hydrosphere.CriticalSection.{Pc, entering, marking, blocked, trying, leaving, unlocking, run}
use hydrosphere.CriticalSection.System.{
  Arbiter, System, IsHandle, Step, enter, try_enter, leave, access, arbitrate_lock,
  arbitrate_unlock, Reach,
}
use hydrosphere.CriticalSection.Invariant.{owner, Inv}
use hydrosphere.CriticalSection.Exclusion.{Reach-Inv}

-- A step of the thread `i` on a lock that `o` holds before and `o'` after, where 0 is nobody: the
-- holder stays; or `i` takes a lock that nobody holds; or `i` holds it, and gives it back or hands it
-- to a thread that waits.
abbrev pub LockStep : (waiting : ℕ → Pc) → (i o o' : ℕ) → Type 0
LockStep waiting i o o' =
    (o' ≡ o) ⊎ ((o ≡ 0) × (o' ≡ i)) ⊎ ((o ≡ i) × ((o' ≡ 0) ⊎ (waiting o' ≡ blocked)))

module _ (A : Arbiter) where
  -- The thread that takes a step.
  abbrev pub actor : {s t : System A} → Step A s t → ℕ
  actor (enter i from) = i
  actor (try_enter i e) = i
  actor (leave i e) = i
  actor (access i h) = i
  actor (arbitrate_lock i o h e) = i
  actor (arbitrate_unlock i e) = i

  access-LockStep :
      {s : System A} (inv : Inv A s) (i : ℕ) (p : Pc)
      → s.pc i ≡ p
      → IsHandle i
      → LockStep s.pc i (owner s.image) (owner (run i p s.image).1)
  unfolding run
  access-LockStep inv i entering e h = ground (arith, inv.fits)
  access-LockStep inv i (marking x) e h = ground (arith, inv.fits)
  access-LockStep inv i trying e h = ground (arith, inv.fits)
  access-LockStep inv i leaving e h = ground (arith, inv.fits)
  access-LockStep inv i p e h = inl refl

  unlock-LockStep :
      {s : System A} (inv : Inv A s) (i : ℕ)
      → s.pc i ≡ unlocking
      → LockStep s.pc i (owner s.image) (owner (A.unlock s.queue).1)
  unlock-LockStep {s} inv i e = elim (Option-cases (A.unlock s.queue).2) [
    | inl none_left ↦
        let (zeroed, nobody, same) = A.unlock_none s.queue none_left in ground (arith, inv.owned i)
    | inr (w, woken) ↦
        let (was, gone, word, more, others) = A.unlock_some s.queue w woken in
        ground (arith, inv.owned i, inv.asleep w)
  ]

  -- The critical section implements the lock: in every reachable state, each step of a thread is one
  -- of its steps on the abstract lock, whose holder is the owner in the word.
  pub Step-LockStep :
      {s t : System A} (r : Reach A s) (st : Step A s t)
      → LockStep s.pc (actor st) (owner s.image) (owner t.image)
  Step-LockStep r (enter i from) = inl refl
  Step-LockStep r (try_enter i e) = inl refl
  Step-LockStep r (leave i e) = inl refl
  Step-LockStep r (access i h) = access-LockStep (Reach-Inv A r) i _ refl h
  Step-LockStep r (arbitrate_lock i o h e) = inl refl
  Step-LockStep r (arbitrate_unlock i e) = unlock-LockStep (Reach-Inv A r) i e
