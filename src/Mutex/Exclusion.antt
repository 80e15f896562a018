-- ===== src/Mutex/Exclusion.antt =====
-- `TryLockMutex` and `UnlockMutex` of two threads on one mutex that is not recursive.
use hydrosphere.Common.{ℕ, ◌≡◌, ◌≢◌, true, false, arith}
use hydrosphere.Svc.{Handle}
use hydrosphere.CriticalSection.{run}
use hydrosphere.CriticalSection.Sequential.{try_enter, leave}
use hydrosphere.CriticalSection.System.{IsHandle}
use hydrosphere.Mutex.{Mutex, initialize_mutex, try_lock_mutex, unlock_mutex}

-- On a new mutex that is not recursive, `TryLockMutex` of a thread succeeds, and names it as the
-- owner. Until it calls `UnlockMutex`, that of any other thread fails and changes nothing; after that
-- the other thread gets the mutex. Nobody takes part but these two.
pub try_lock_mutex-excludes :
    (self other : Handle) (unlocked : ℕ → ℕ)
    → IsHandle self.value
    → IsHandle other.value
    → other.value ≢ self.value
    → let m : Mutex = initialize_mutex false in
      let held : Mutex = (try_lock_mutex self m).0 in
      let free : Mutex = unlock_mutex unlocked self held in
      ((try_lock_mutex self m).1 ≡ true)
      × (held.owner ≡ self)
      × (try_lock_mutex other held ≡ (held, false))
      × (free ≡ m)
      × ((try_lock_mutex other free).1 ≡ true)
      × ((try_lock_mutex other free).0.owner ≡ other)
unfolding try_lock_mutex unlock_mutex initialize_mutex try_enter leave run
try_lock_mutex-excludes self other unlocked h g ne =
    (ground arith, ground arith, ground arith, ground arith, ground arith, ground arith)
