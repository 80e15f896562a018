-- ===== src/ThreadList.antt =====
-- The list of threads of libhydrosphere/source/common/os/detail/os_threadlist.hpp.
use hydrosphere.Common.{
  ℕ, ◌≡◌, ◌≢◌, refl, none, some, Option, List, [], ◌∷◌, ◌++◌, ◌==◌, if◌then◌else◌, arith, false,
  has,
}
use hydrosphere.IntrusiveList.{Ptr, Store, construct, push_back, unlink}
use hydrosphere.IntrusiveList.Chain.{Ring}
use hydrosphere.IntrusiveList.Laws.{construct-Ring, construct-frame, push_back-Ring, unlink-Ring}
use hydrosphere.CriticalSection.System.{IsHandle}
use hydrosphere.CriticalSection.Sequential.{enter, leave, enter-leave}
use hydrosphere.CriticalSection.Guarded.{Caller, lone_caller}

-- The word of its lock, and the addresses of the list's root and of the thread that it contains.
pub record ThreadList : Type 0 where
  pub critical_section : ℕ
  pub root : Ptr
  pub main_thread : Ptr

-- The constructor, on the links: `list()`, `main_thread()`, and `push_back` of the main thread. The
-- handle and the name that it gives the main thread are set in `init_main_thread` of Startup.
unfoldable pub thread_list : (root main_thread : Ptr) → Store → ThreadList × Store
thread_list root main_thread h = (
  record { critical_section = 0; root = root; main_thread = main_thread },
  push_back root main_thread (construct main_thread (construct root h)),
)

-- A change of the store between `Enter` and `Leave`; `none` while `Enter` waits.
unfoldable pub locked : Caller → (Store → Store) → ThreadList → Store → Option (ThreadList × Store)
locked c change l h = elim (enter c.rounds c.others c.self l.critical_section) [
  | none ↦ none
  | some v ↦ some (record l { critical_section = leave c.unlocked c.self v }, change h)
]

unfoldable pub add_thread :
    Caller → (thread : Ptr) → ThreadList → Store → Option (ThreadList × Store)
unfolding locked
add_thread c thread l h = locked c (push_back l.root thread) l h

unfoldable pub remove_thread :
    Caller → (thread : Ptr) → ThreadList → Store → Option (ThreadList × Store)
unfolding locked
remove_thread c thread l h =
    if thread == l.main_thread then some (l, h) else locked c (unlink thread) l h

-- `Aquire` gives the list, and keeps its lock; `none` while `Enter` waits.
unfoldable pub aquire : Caller → ThreadList → Option (Ptr × ThreadList)
aquire c l = elim (enter c.rounds c.others c.self l.critical_section) [
  | none ↦ none
  | some v ↦ some (l.root, record l { critical_section = v })
]

unfoldable pub release : Caller → ThreadList → ThreadList
release c l = record l { critical_section = leave c.unlocked c.self l.critical_section }

-- The list holds the threads `ts`, in this order, and its lock is free.
pub record Holds (l : ThreadList) (h : Store) (ts : List Ptr) : Type 0 where
  pub ring : Ring h l.root ts
  pub idle : l.critical_section ≡ 0

-- A new list holds the main thread alone.
pub thread_list-Holds :
    (root main_thread : Ptr) (h : Store)
    → root ≢ main_thread
    → let (l, g) = thread_list root main_thread h in Holds l g (main_thread ∷ [])
unfolding thread_list
thread_list-Holds root main_thread h ne = record {
  ring =
      push_back-Ring [] [] (construct-frame main_thread (construct-Ring root h) (ground arith))
        (construct-Ring main_thread (construct root h)) (λ a i. ground arith);
  idle = refl;
}

module _ (fuel : ℕ) (unlocked : ℕ → ℕ) (self : ℕ) (owner : IsHandle self) {l : ThreadList}
    {h : Store} where
  -- With no other thread at the lock, `AddThread` puts a thread that is in no list behind the
  -- threads of the list, and frees the lock again.
  pub add_thread-Holds :
      (t : Ptr) (ts : List Ptr)
      → Holds l h ts
      → Ring h t []
      → has t (l.root ∷ ts) ≡ false
      → (m : ThreadList) × (g : Store) × (add_thread (lone_caller self fuel unlocked) t l h
          ≡ some (m, g))
        × Holds m g (ts ++ t ∷ [])
        × (m.main_thread ≡ l.main_thread)
  unfolding add_thread
  add_thread-Holds t ts k alone fresh =
      let (e, f, others) = enter-leave fuel unlocked self owner in
      (
        record l { critical_section = leave unlocked self self },
        push_back l.root t h,
        ground (arith, e),
        record { ring = push_back-Ring ts [] k.ring alone (λ a i. ground arith); idle = f },
        refl,
      )

  -- With no other thread at the lock, `RemoveThread` takes a thread other than the main one out of
  -- the list, leaves it in no list, and frees the lock again.
  pub remove_thread-Holds :
      (t : Ptr) (before after : List Ptr)
      → Holds l h (before ++ t ∷ after)
      → t ≢ l.main_thread
      → (m : ThreadList) × (g : Store) × (remove_thread (lone_caller self fuel unlocked) t l h
          ≡ some (m, g))
        × Holds m g (before ++ after)
        × Ring g t []
  unfolding remove_thread
  remove_thread-Holds t before after k other =
      let (e, f, others) = enter-leave fuel unlocked self owner in
      let (r1, r2) = unlink-Ring before after k.ring in
      (
        record l { critical_section = leave unlocked self self },
        unlink t h,
        ground (arith, e),
        record { ring = r1; idle = f },
        r2,
      )

  -- With no other thread at the lock, `Aquire` gives the root of the list, whose threads are then
  -- those that the list holds, and locks the list; `Release` frees the lock again.
  pub aquire-release-Holds :
      (ts : List Ptr)
      → Holds l h ts
      → let c : Caller = lone_caller self fuel unlocked in
        (m : ThreadList) × (aquire c l ≡ some (l.root, m))
        × (m.critical_section ≡ self)
        × Ring h m.root ts
        × Holds (release c m) h ts
  unfolding aquire release
  aquire-release-Holds ts k =
      let (e, f, others) = enter-leave fuel unlocked self owner in
      (
        record l { critical_section = self },
        rw (k.idle, aquire) (rw e refl),
        refl,
        k.ring,
        record { ring = k.ring; idle = f },
      )
