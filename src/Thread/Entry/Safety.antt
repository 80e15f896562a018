-- ===== src/Thread/Entry/Safety.antt =====
-- What the life of a thread can come to.
use hydrosphere.Common.{ℕ, ◌≡◌, ◌≢◌, ◌⊎◌, refl, true, false, arith}
use hydrosphere.Thread.{exited}
use hydrosphere.Thread.Entry.{
  sleeping, calling, gone, destroy_asking, wait_entering, Life, control_ready, Step, entry, begin,
  control, Reach, here, next,
}
use hydrosphere.Thread.Entry.Invariant.{
  Inv, Inv-created, entry-Inv, begin-Inv, control-Inv, count, control_locks, entry_locks,
}

Step-Inv : {s t : Life} → Step s t → Inv s → Inv t
Step-Inv (entry r) inv = entry-Inv inv _ refl r
Step-Inv (begin i p e b) inv = begin-Inv inv i p e b
Step-Inv (control i r) inv = control-Inv inv i _ refl r

pub Reach-Inv : {s : Life} → Reach s → Inv s
Reach-Inv here = Inv-created
Reach-Inv (next r st) = Step-Inv st (Reach-Inv r)

module _ {s : Life} (r : Reach s) where
  -- However the calls on a thread and the thread itself interleave: the entry point is called only
  -- after `StartThread` has marked the thread as started, and at most once; when the thread is gone
  -- it was called exactly once if so, and never if the thread was destroyed before. The wait for the
  -- start never sleeps.
  pub entry_point_once :
      (s.calls ≡ 0 ⊎ (s.calls ≡ 1) × (s.starts ≡ true))
      × (s.entry ≡ calling → (s.calls ≡ 0) × (s.starts ≡ true))
      × (s.entry ≡ gone → s.calls ≡ count s.starts)
      × (s.entry ≢ sleeping)
  entry_point_once =
      let inv = Reach-Inv r in
      (
        ground (arith, inv.phase),
        λ e. ground (arith, inv.phase),
        λ e. ground (arith, inv.phase),
        λ e. ground (arith, inv.phase),
      )

  -- When a call of `WaitThread` gets past its wait, and no `DestroyThread` has reset the thread, the
  -- thread's state is exited, and it stays gone.
  pub wait_exited :
      (i : ℕ)
      → s.control i ≡ wait_entering
      → s.reaped ≡ false
      → (s.state ≡ exited) × (s.entry ≡ gone)
  wait_exited i e f =
      let inv = Reach-Inv r in (ground (arith, inv.phase, inv.fit i), ground (arith, inv.fit i))

  -- `DestroyThread` never asks the kernel to start a thread twice: where it asks, the thread was not
  -- started, and the step can be taken.
  pub destroy_asks_once :
      (i : ℕ) → s.control i ≡ destroy_asking → control_ready (s.control i) s ≡ true
  destroy_asks_once i e = let inv = Reach-Inv r in ground (arith, inv.fit i)

  -- The thread and those that control it are never in the lock together, nor are two of the latter.
  pub lock_excludes :
      (i j : ℕ)
      → control_locks (s.control i) ≡ true
      → (entry_locks s.entry ≡ false) × (control_locks (s.control j) ≡ true → j ≡ i)
  lock_excludes i j e =
      let inv = Reach-Inv r in
      (
        ground (arith, inv.own_control i, inv.own_entry),
        λ f. ground (arith, inv.own_control i, inv.own_control j),
      )
