-- ===== src/Mutex/Threads.antt =====
-- Threads in `TryLockMutex` and `UnlockMutex` of os_mutex_api.cpp, one access at a time: `TryEnter` and
-- `Leave` are a step each, as on the lock that the critical section is shown to implement, and so is
-- each access to a field. A thread is named by its handle.
use hydrosphere.Common.{
  ℕ, ◌+◌, ◌-◌, ◌^◌, Bool, true, false, not, Option, none, some, ◌≡◌, ◌≢◌, ◌⊎◌, ◌==◌, if◌then◌else◌,
  u32,
}
use hydrosphere.Svc.{Handle, handle_ne, from_raw_value, no_handle}
use hydrosphere.Mutex.{Mutex, initialize_mutex}

-- Where a thread stands.
pub data Place : Type 0 where
  away : Place  -- in no call, and without the mutex
  testing : Place  -- `TryLockMutex`: at the test of `is_recursive`
  trying : Place  -- at `TryEnter`
  comparing : Place  -- of a recursive mutex: at the comparison of `owner`
  trying_again : Place  -- at the `TryEnter` behind it
  loading : Place  -- at the load of `counter++`
  storing : (counter : ℕ) → Place  -- at its store, with the number that was loaded
  naming : Place  -- at the write of `owner`
  holding : Place  -- returned with true
  asking : Place  -- `UnlockMutex`: at the test of `is_recursive`
  unloading : Place  -- of a recursive mutex: at the load of `counter--`
  unstoring : (counter : ℕ) → Place  -- at its store
  counting : Place  -- at the test of `counter`
  clearing : Place  -- at the write of `owner`
  leaving : Place  -- at `Leave`

pub record Threads : Type 0 where
  pub mutex : Mutex
  pub lock : Option ℕ
  pub place : ℕ → Place

abbrev pub update_place : (ℕ → Place) → ℕ → Place → ℕ → Place
update_place f i p j = if j == i then p else f j

abbrev pub move : ℕ → Place → Threads → Threads
move i p s = record s { place = update_place s.place i p }

-- The branches.
unfoldable pub tested : Mutex → Place
tested m = if m.is_recursive then comparing else trying

unfoldable pub compared : ℕ → Mutex → Place
unfolding handle_ne
compared i m = if handle_ne m.owner (from_raw_value i) then trying_again else loading

unfoldable pub asked : Mutex → Place
asked m = if m.is_recursive then unloading else clearing

unfoldable pub counted : Mutex → Place
counted m = if not (m.counter == 0) then holding else clearing

-- What follows a `TryEnter` that succeeds.
abbrev pub entered : Place → Place
entered trying_again = loading
entered p = naming

abbrev pub is_trying : Place → Bool
is_trying trying = true
is_trying trying_again = true
is_trying _ = false

abbrev pub with_counter : ℕ → Mutex → Mutex
with_counter c m = record m { counter = c }

abbrev pub with_owner : Handle → Mutex → Mutex
with_owner h m = record m { owner = h }

pub data Step (s : Threads) : Threads → Type 0 where
  begin_try : (i : ℕ) → s.place i ≡ away → Step s (move i testing s)
  -- A thread may also call `TryLockMutex` again.
  begin_again :
      (i : ℕ) → s.place i ≡ holding → s.mutex.is_recursive ≡ true → Step s (move i testing s)
  test : (i : ℕ) → s.place i ≡ testing → Step s (move i (tested s.mutex) s)
  compare : (i : ℕ) → s.place i ≡ comparing → Step s (move i (compared i s.mutex) s)
  take :
      (i : ℕ)
      → is_trying (s.place i) ≡ true
      → (s.lock ≡ none) ⊎ (s.lock ≡ some i)
      → Step s (record (move i (entered (s.place i)) s) { lock = some i })
  -- `TryLockMutex` returns false.
  refuse :
      (i j : ℕ) → is_trying (s.place i) ≡ true → s.lock ≡ some j → j ≢ i → Step s (move i away s)
  load : (i : ℕ) → s.place i ≡ loading → Step s (move i (storing s.mutex.counter) s)
  store :
      (i c : ℕ)
      → s.place i ≡ storing c
      → Step s (record (move i naming s) { mutex = with_counter (u32 (c + 1)) s.mutex })
  name :
      (i : ℕ)
      → s.place i ≡ naming
      → Step s (record (move i holding s) { mutex = with_owner (from_raw_value i) s.mutex })
  begin_unlock : (i : ℕ) → s.place i ≡ holding → Step s (move i asking s)
  ask : (i : ℕ) → s.place i ≡ asking → Step s (move i (asked s.mutex) s)
  unload : (i : ℕ) → s.place i ≡ unloading → Step s (move i (unstoring s.mutex.counter) s)
  unstore :
      (i c : ℕ)
      → s.place i ≡ unstoring c
      → Step s (record (move i counting s) { mutex = with_counter (u32 (c + 2 ^ 32 - 1)) s.mutex })
  count : (i : ℕ) → s.place i ≡ counting → Step s (move i (counted s.mutex) s)
  clear :
      (i : ℕ)
      → s.place i ≡ clearing
      → Step s (record (move i leaving s) { mutex = with_owner no_handle s.mutex })
  leave : (i : ℕ) → s.place i ≡ leaving → Step s (record (move i away s) { lock = none })

-- A new mutex, and no thread in a call.
abbrev pub start : (is_recursive : Bool) → Threads
start r = record { mutex = initialize_mutex r; lock = none; place = λ i. away }

pub data Reach (is_recursive : Bool) : Threads → Type 0 where
  here : Reach is_recursive (start is_recursive)
  next : {s t : Threads} → Reach is_recursive s → Step s t → Reach is_recursive t
