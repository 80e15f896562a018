-- ===== src/Mutex.antt =====
-- The mutex of libhydrosphere/source/common/os/os_mutex_api.cpp, as one thread sees it.
pub mod Laws
pub mod Exclusion
pub mod Recursion
pub mod Threads
pub mod Safety
pub mod Failure
use hydrosphere.Common.{
  ℕ, ◌+◌, ◌-◌, ◌^◌, Bool, true, false, not, ◌&&◌, Option, none, some, ◌==◌, if◌then◌else◌, u32,
}
use hydrosphere.Svc.{Handle, handle_ne, no_handle}
use hydrosphere.CriticalSection.Sequential.{enter, try_enter, leave}

-- enum MutexState
abbrev pub uninitialized : ℕ
uninitialized = 0

abbrev pub initialized : ℕ
initialized = 1

pub record Mutex : Type 0 where
  pub state : ℕ
  pub is_recursive : Bool
  pub owner : Handle
  pub counter : ℕ  -- uint32_t
  pub critical_section : ℕ  -- the word of the lock

-- Every field is set.
unfoldable pub initialize_mutex : (is_recursive : Bool) → Mutex
initialize_mutex r = record {
  state = initialized;
  is_recursive = r;
  owner = no_handle;
  counter = 0;
  critical_section = 0;
}

abbrev count_up : Mutex → Mutex
count_up m = if m.is_recursive then record m { counter = u32 (m.counter + 1) } else m

-- `none` while `Enter` waits.
unfoldable pub lock_mutex : ℕ → (others : ℕ → ℕ → ℕ) → (self : Handle) → Mutex → Option Mutex
unfolding handle_ne
lock_mutex fuel others self m =
    if handle_ne m.owner self
    then elim (enter fuel others self.value m.critical_section) [
      | none ↦ none
      | some v ↦ some (count_up (record m { critical_section = v; owner = self }))
    ]
    else some (count_up m)

unfoldable pub try_lock_mutex : (self : Handle) → Mutex → Mutex × Bool
unfolding handle_ne try_enter
try_lock_mutex self m =
    let (v, entered) = try_enter self.value m.critical_section in
    if m.is_recursive
    then (if handle_ne m.owner self
        then (if entered
            then (
              record m { critical_section = v; counter = u32 (m.counter + 1); owner = self },
              true,
            )
            else (record m { critical_section = v }, false))
        else (record m { counter = u32 (m.counter + 1); owner = self }, true))
    else (if entered
        then (record m { critical_section = v; owner = self }, true)
        else (record m { critical_section = v }, false))

abbrev release : (ℕ → ℕ) → Handle → Mutex → Mutex
release unlocked self m = record m {
  owner = no_handle;
  critical_section = leave unlocked self.value m.critical_section;
}

unfoldable pub unlock_mutex : (unlocked : ℕ → ℕ) → (self : Handle) → Mutex → Mutex
unfolding leave
unlock_mutex unlocked self m =
    if m.is_recursive
    then (let m' = record m { counter = u32 (m.counter + 2 ^ 32 - 1) } in
        if m'.counter == 0 then release unlocked self m' else m')
    else release unlocked self m

unfoldable pub finalize_mutex : Mutex → Mutex
finalize_mutex m = record m { state = uninitialized }
