-- ===== src/Thread/Entry/Progress.antt =====
-- `DestroyThread` does not get stuck.
use hydrosphere.Common.{ℕ, ◌≡◌, ◌⊎◌, inl, inr, refl, true, false, arith}
use hydrosphere.Thread.Entry.{
  EntryPc, ControlPc, unborn, entering, finishing, sleeping, gone, start_asking, destroy_waiting,
  nobody, itself, controller, Life, Holder, is_free, is_unborn, entry_ready, control_ready, Reach,
}
use hydrosphere.Thread.Entry.Invariant.{Inv, entry_locks, control_locks}
use hydrosphere.Thread.Entry.Safety.{Reach-Inv}

-- A controlling thread can take its next step, or is in `StartThread` at its call of the kernel, which
-- aborts if the kernel has started the thread already.
abbrev pub CanGoOn : Life → ℕ → Type 0
CanGoOn s j = (control_ready (s.control j) s ≡ true) ⊎ (s.control j ≡ start_asking)

can_go_on :
    {s : Life} (inv : Inv s) (j : ℕ) (p : ControlPc)
    → s.control j ≡ p
    → control_locks p ≡ true
    → (control_ready p s ≡ true) ⊎ (p ≡ start_asking)
can_go_on inv j p e k = ground (arith, inv.fit j)

lock_comes_free :
    {s : Life} (inv : Inv s) (l : Holder)
    → s.lock ≡ l
    → entry_locks s.entry ≡ false
    → (l ≡ nobody) ⊎ ((j : ℕ) × (s.lock ≡ controller j) × CanGoOn s j)
lock_comes_free inv nobody e k = inl refl
lock_comes_free inv itself e k = absurd (ground (arith, inv.kept_entry))
lock_comes_free {s} inv (controller j) e k =
    inr (j, e, can_go_on inv j (s.control j) refl (inv.kept_control j e))

at_lock :
    {s : Life} (inv : Inv s)
    → entry_locks s.entry ≡ false
    → (is_free s.lock ≡ true) ⊎ ((j : ℕ) × (s.lock ≡ controller j) × CanGoOn s j)
at_lock {s} inv k = elim (lock_comes_free inv s.lock refl k) [
  | inl free ↦ inl (ground (arith, free))
  | inr other ↦ inr other
]

at_entry :
    {s : Life} (inv : Inv s) (p : EntryPc)
    → s.entry ≡ p
    → is_unborn p ≡ false
    → (p ≡ gone) ⊎ (entry_ready p s.lock ≡ true) ⊎ ((j : ℕ) × (s.lock ≡ controller j) × CanGoOn s j)
at_entry inv unborn e u = cc
at_entry inv sleeping e u = absurd (ground (arith, inv.phase))
at_entry inv gone e u = inl refl
at_entry inv entering e u = inr (at_lock inv (ground arith))
at_entry inv finishing e u = inr (at_lock inv (ground arith))
at_entry inv p e u = inr (inl refl)

-- While a call of `DestroyThread` waits for the thread's end, however the calls and the thread have
-- interleaved: the thread is gone, or it can take its next step, or another thread is in the lock
-- that can take its next step, or that is in `StartThread` at its call of the kernel.
pub destroy_progress :
    {s : Life} (r : Reach s) (i : ℕ)
    → s.control i ≡ destroy_waiting
    → (s.entry ≡ gone)
      ⊎ (entry_ready s.entry s.lock ≡ true)
      ⊎ ((j : ℕ) × (s.lock ≡ controller j) × CanGoOn s j)
destroy_progress {s} r i e =
    let inv = Reach-Inv r in at_entry inv s.entry refl (ground (arith, inv.fit i))
