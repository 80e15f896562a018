-- ===== src/Mutex/Laws.antt =====
-- What the calls on a mutex do to its lock.
use hydrosphere.Common.{
  ℕ, Bool, refl, sym, suc, ◌+◌, ◌≡◌, ◌≢◌, ◌⊎◌, ◌↔◌, true, false, some, arith, if◌then◌else◌, u32,
}
use hydrosphere.Svc.{Handle, no_handle}
use hydrosphere.CriticalSection.{without_listeners, is_locked_by_current_thread}
use hydrosphere.CriticalSection.System.{IsHandle}
use hydrosphere.CriticalSection.Sequential.{enter_again, IsReady}
use hydrosphere.Mutex.{Mutex, initialize_mutex, lock_mutex, try_lock_mutex}

-- A thread that the mutex does not name as its owner passes through `LockMutex` at once.
lock_mutex-skips :
    (fuel : ℕ) (others : ℕ → ℕ → ℕ) (self : Handle) (m : Mutex)
    → m.owner.value ≢ self.value
    → lock_mutex fuel others self m
      ≡ some (record m { counter = if m.is_recursive then u32 (m.counter + 1) else m.counter })
unfolding lock_mutex
lock_mutex-skips fuel others self m ne = ground arith

-- Any two threads that call `LockMutex` on a new mutex one after the other both return at once, with
-- no round of `Enter`, whatever the others do: neither of them is the owner then, and the lock is
-- free. The mutex excludes nobody.
pub lock_mutex-excludes-nobody :
    (others : ℕ → ℕ → ℕ) (r : Bool) (first second : Handle)
    → first.value ≢ 0
    → second.value ≢ 0
    → (m : Mutex) × (n : Mutex) × (lock_mutex 0 others first (initialize_mutex r) ≡ some m)
      × (lock_mutex 0 others second m ≡ some n)
      × (n.owner ≡ no_handle)
      × (n.critical_section ≡ 0)
unfolding initialize_mutex
lock_mutex-excludes-nobody others r first second nf ns =
    let up : Mutex → Mutex =
      λ m. record m { counter = if m.is_recursive then u32 (m.counter + 1) else m.counter } in
    let m = up (initialize_mutex r) in
    (
      m,
      up m,
      lock_mutex-skips 0 others first (initialize_mutex r) (λ e. nf (sym e)),
      lock_mutex-skips 0 others second m (λ e. ns (sym e)),
      refl,
      refl,
    )

-- `LockMutex` from the owner, where the lock names it too, returns with the lock and the owner as
-- they were, if no other thread writes the lock; for a mutex that is not recursive too.
pub lock_mutex_owner :
    (fuel : ℕ) (self : Handle) (m : Mutex)
    → IsHandle self.value
    → m.owner ≡ self
    → without_listeners m.critical_section ≡ self.value
    → lock_mutex (suc fuel) (λ t v. v) self m
      ≡ some (record m { counter = if m.is_recursive then u32 (m.counter + 1) else m.counter })
unfolding lock_mutex
lock_mutex_owner fuel self m h e o = ground (arith, enter_again fuel self.value m.critical_section)

-- `TryLockMutex` on a mutex that is not recursive succeeds exactly if the lock is free or names the
-- thread. Then the mutex and the lock name the thread as the owner; else the mutex is unchanged.
pub try_lock_mutex-plain :
    (self : Handle) (m : Mutex)
    → IsHandle self.value
    → m.is_recursive ≡ false
    → let (after, locked) = try_lock_mutex self m in
      ((locked ≡ true) ↔ IsReady self.value m.critical_section)
      × (is_locked_by_current_thread self.value after.critical_section ≡ locked)
      × (after.owner ≡ (if locked then self else m.owner))
      × ((locked ≡ true) ⊎ (after ≡ m))
unfolding try_lock_mutex is_locked_by_current_thread
try_lock_mutex-plain self m h plain =
    ((λ e. ground arith, λ r. ground arith), ground arith, ground arith, ground arith)
