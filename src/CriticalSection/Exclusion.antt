-- ===== src/CriticalSection/Exclusion.antt =====
-- Mutual exclusion and the absence of lost wake-ups, in every interleaving.
use hydrosphere.Common.{
  ℕ, ◌+◌, ◌≡◌, refl, ◌≢◌, ◌⊎◌, inl, inr, true, arith, ◌==◌, eq_of_==, Bool-cases,
}
use hydrosphere.CriticalSection.{
  entering, blocked, trying, inside, leaving, unlocking, run, listeners_bit,
}
use hydrosphere.CriticalSection.System.{
  Arbiter, IsHandle, System, Step, enter, try_enter, leave, access, arbitrate_lock,
  arbitrate_unlock, Reach, here, next,
}
use hydrosphere.CriticalSection.Invariant.{
  owns, holds, owner, Inv, Inv-start, access-Inv, begin-Inv, lock-Inv, unlock-Inv,
}

module _ (A : Arbiter) where
  -- Every step of every thread keeps the invariant.
  Step-Inv : {s t : System A} → Step A s t → Inv A s → Inv A t
  Step-Inv (enter i from) inv = begin-Inv A inv i entering (ground arith) (λ e. cc) (ground arith)
  Step-Inv (try_enter i e) inv = begin-Inv A inv i trying (ground arith) (λ e. cc) (ground arith)
  Step-Inv (leave i e) inv = begin-Inv A inv i leaving (ground arith) (λ _. e) (ground arith)
  Step-Inv (access i h) inv = access-Inv A inv i _ refl h
  Step-Inv (arbitrate_lock i o h e) inv = lock-Inv A inv i o e h
  Step-Inv (arbitrate_unlock i e) inv = unlock-Inv A inv i e

  pub Reach-Inv : {s : System A} → Reach A s → Inv A s
  Reach-Inv here = Inv-start A
  Reach-Inv (next r st) = Step-Inv st (Reach-Inv r)

  -- In every state that the threads and the kernel reach, two threads that own the lock, from the
  -- return of `Enter` to the end of `Leave`, are one thread, and its handle stands in the word.
  pub mutual_exclusion :
      {s : System A}
      → Reach A s
      → (i j : ℕ) → owns (s.pc i) ≡ true
      → owns (s.pc j) ≡ true
      → (i ≡ j) × (owner s.image ≡ i)
  mutual_exclusion r i j p q = let inv = Reach-Inv r in ground (arith, inv.owned i, inv.owned j)

  -- In every reachable state in which a thread waits in the kernel, the word has HAS_LISTENERS and
  -- names another thread, which owns the lock or returns from `Enter` at its next access. The
  -- exchange of that thread's `Leave` then goes to `ArbitrateUnlock`: no wake-up is lost.
  pub no_lost_wakeup :
      {s : System A}
      → Reach A s
      → (i : ℕ) → s.pc i ≡ blocked
      → (o : ℕ) × (o ≢ i)
        × (s.image ≡ o + listeners_bit)
        × (holds (s.pc o) ≡ true)
        × (run o leaving s.image ≡ (unlocking, s.image))
        × (run o entering s.image ≡ (inside, s.image))
  unfolding run
  no_lost_wakeup {s} r i e =
      let inv = Reach-Inv r in
      let (b, h, marked) = inv.asleep i (inv.sleeping i e) in
      (
        owner s.image,
        ground (arith, inv.held i, inv.proper marked),
        ground (arith, inv.fits),
        inv.held (owner s.image) refl (inv.proper marked),
        ground (arith, inv.fits, inv.proper marked),
        ground (arith, inv.fits, inv.proper marked),
      )

  -- In every reachable state the word is 0, or the handle of one thread, with or without
  -- HAS_LISTENERS, and that thread owns the lock or owns it at its next access. The bit never stands
  -- alone, and a handle never runs into it.
  pub word_shapes :
      {s : System A}
      → Reach A s
      → (s.image ≡ 0)
        ⊎ ((o : ℕ) × IsHandle o
            × (holds (s.pc o) ≡ true)
            × ((s.image ≡ o) ⊎ (s.image ≡ o + listeners_bit)))
  word_shapes {s} r =
      let inv = Reach-Inv r in
      elim (Bool-cases (s.image == 0)) [
        | inl zeroed ↦ inl (eq_of_== s.image 0 zeroed)
        | inr other ↦
            let some_owner : owner s.image ≢ 0 = ground (arith, inv.proper, inv.fits, other) in
            inr (
              owner s.image,
              ground (arith, inv.fits, some_owner),
              inv.held (owner s.image) refl some_owner,
              ground (arith, inv.fits),
            )
      ]
