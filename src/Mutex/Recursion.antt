-- ===== src/Mutex/Recursion.antt =====
-- The counter and the lock word of a recursive mutex.
use hydrosphere.Common.{
  ℕ, zero, suc, ◌+◌, ◌≡◌, ◌<◌, ◌^◌, Bool, true, ◌&&◌, refl, arith, if◌then◌else◌, ◌==◌, leb,
}
use native.Mathlib.Numerals.{add-one}
use native.Mathlib.Nat.{add-zero}
use mathlib.Core.Path.{subst}
use hydrosphere.Svc.{Handle, no_handle}
use hydrosphere.CriticalSection.System.{IsHandle}
use hydrosphere.Mutex.{Mutex, initialize_mutex, try_lock_mutex, unlock_mutex}

-- `self` has locked the recursive mutex `n` times more than it has unlocked it, after `p` times at
-- most, and no other thread takes part. The lock word names `self` from the second call on, since the
-- first one does not enter the lock, up to the last `UnlockMutex`.
pub record Held (self : Handle) (p n : ℕ) (m : Mutex) : Type 0 where
  pub recursive : m.is_recursive ≡ true
  pub counted : m.counter ≡ n
  pub owned : m.owner ≡ (if n == 0 then no_handle else self)
  pub word : m.critical_section ≡ (if n == 0 then 0 else (if leb p 1 then 0 else self.value))

Held-initialize : (self : Handle) → Held self 0 0 (initialize_mutex true)
unfolding initialize_mutex
Held-initialize self = ground arith

try_lock-Held :
    {self : Handle} {n : ℕ} {m : Mutex}
    → IsHandle self.value
    → n + 1 < 2 ^ 32
    → Held self n n m
    → ((try_lock_mutex self m).1 ≡ true) × Held self (n + 1) (n + 1) (try_lock_mutex self m).0
unfolding try_lock_mutex
try_lock-Held h small k = (
  ground arith,
  record {
    recursive = ground arith;
    counted = ground arith;
    owned = ground arith;
    word = ground arith;
  },
)

unlock-Held :
    {self : Handle} {p n : ℕ} {m : Mutex} (unlocked : ℕ → ℕ)
    → IsHandle self.value
    → n + 1 < 2 ^ 32
    → Held self p (n + 1) m
    → Held self p n (unlock_mutex unlocked self m)
unfolding unlock_mutex
unlock-Held unlocked h small k = record {
  recursive = ground arith;
  counted = ground arith;
  owned = ground arith;
  word = ground arith;
}

-- `n` calls of `TryLockMutex`, with whether all of them answered true, and `n` calls of `UnlockMutex`.
abbrev pub lock_times : ℕ → Handle → Mutex → Mutex × Bool
lock_times zero self m = (m, true)
lock_times (suc n) self m =
    let (m', all) = lock_times n self m in
    let (m'', locked) = try_lock_mutex self m' in (m'', all && locked)

abbrev pub unlock_times : ℕ → (ℕ → ℕ) → Handle → Mutex → Mutex
unlock_times zero unlocked self m = m
unlock_times (suc n) unlocked self m = unlock_times n unlocked self (unlock_mutex unlocked self m)

lock_times-Held :
    (n : ℕ) (self : Handle)
    → IsHandle self.value
    → n < 2 ^ 32
    → ((lock_times n self (initialize_mutex true)).1 ≡ true)
      × Held self n n (lock_times n self (initialize_mutex true)).0
lock_times-Held zero self h small = (refl, Held-initialize self)
lock_times-Held (suc n) self h small =
    let (all, held) = lock_times-Held n self h (omega arith) in
    let (locked, more) = try_lock-Held h (omega arith) held in
    (
      rw (all, locked) refl,
      subst (λ t. Held self t t (lock_times (suc n) self (initialize_mutex true)).0) (add-one n)
          more,
    )

unlock_times-Held :
    (k n : ℕ) {p : ℕ} (self : Handle) (unlocked : ℕ → ℕ) {m : Mutex}
    → IsHandle self.value
    → n + k < 2 ^ 32
    → Held self p (n + k) m
    → Held self p n (unlock_times k unlocked self m)
unlock_times-Held zero n self unlocked h small held = rw add-zero at held
unlock_times-Held (suc k) n {p} self unlocked {m} h small held =
    unlock_times-Held k n self unlocked h (omega arith)
      (unlock-Held unlocked h (omega arith) (subst (λ t. Held self p t m) (omega arith) held))

-- A thread locks a fresh recursive mutex `n + k` times by `TryLockMutex` and unlocks it `k` times, with
-- no other thread taking part. Then every `TryLockMutex` has answered true; the counter is `n`; the
-- owner is the thread, or nobody if `n` is 0; and the lock word names the thread, except that it is
-- free if `n` is 0, or if the mutex was locked only once. The counter must not wrap.
pub lock-unlock-Held :
    (k n : ℕ) (self : Handle) (unlocked : ℕ → ℕ)
    → IsHandle self.value
    → n + k < 2 ^ 32
    → ((lock_times (n + k) self (initialize_mutex true)).1 ≡ true)
      × Held self
          (n + k)
          n
          (unlock_times k unlocked self (lock_times (n + k) self (initialize_mutex true)).0)
lock-unlock-Held k n self unlocked h small =
    let (all, held) = lock_times-Held (n + k) self h small in
    (all, unlock_times-Held k n self unlocked h small held)
