-- ===== src/Mutex/Safety.antt =====
-- A mutex that is not recursive and is taken by `TryLockMutex`, in every order of the accesses.
use hydrosphere.Common.{ℕ, Bool, true, false, Option, none, some, ◌≡◌, refl, arith}
use hydrosphere.Svc.{from_raw_value}
use hydrosphere.Mutex.{Mutex, initialize_mutex}
use hydrosphere.Mutex.Threads.{
  Place, away, testing, comparing, trying_again, loading, storing, naming, holding, asking,
  unloading, unstoring, counting, clearing, leaving, Threads, update_place, tested, asked, Step,
  begin_try, begin_again, test, compare, take, refuse, load, store, name, begin_unlock, ask, unload,
  unstore, count, clear, leave, start, Reach, here, next,
}

-- The places of a mutex that is not recursive in which a thread has the lock, and those between the
-- two writes of `owner`.
abbrev pub locks : Place → Bool
locks naming = true
locks holding = true
locks asking = true
locks clearing = true
locks leaving = true
locks _ = false

abbrev pub is_named : Place → Bool
is_named holding = true
is_named asking = true
is_named clearing = true
is_named _ = false

-- The places that only a call on a recursive mutex comes to.
abbrev pub is_recursion : Place → Bool
is_recursion comparing = true
is_recursion trying_again = true
is_recursion loading = true
is_recursion (storing c) = true
is_recursion unloading = true
is_recursion (unstoring c) = true
is_recursion counting = true
is_recursion _ = false

record Inv (s : Threads) : Type 0 where
  owned : (i : ℕ) → locks (s.place i) ≡ true → s.lock ≡ some i
  held : (i : ℕ) → s.lock ≡ some i → locks (s.place i) ≡ true
  named : (i : ℕ) → is_named (s.place i) ≡ true → s.mutex.owner ≡ from_raw_value i
  simple : (i : ℕ) → is_recursion (s.place i) ≡ false
  plain : s.mutex.is_recursive ≡ false

Inv-start : Inv (start false)
unfolding initialize_mutex
Inv-start = record {
  owned = λ i l. cc;
  held = λ i l. cc;
  named = λ i l. cc;
  simple = λ i. refl;
  plain = refl;
}

-- Thread `i` goes to `p`, and leaves the lock as `l` and the mutex as `m`.
move-Inv :
    {s : Threads} (inv : Inv s) (i : ℕ) (p : Place) (l : Option ℕ) (m : Mutex)
    → ((j : ℕ) → locks (update_place s.place i p j) ≡ true → l ≡ some j)
    → ((j : ℕ) → l ≡ some j → locks (update_place s.place i p j) ≡ true)
    → ((j : ℕ) → is_named (update_place s.place i p j) ≡ true → m.owner ≡ from_raw_value j)
    → is_recursion p ≡ false
    → m.is_recursive ≡ s.mutex.is_recursive
    → Inv (record { mutex = m; lock = l; place = update_place s.place i p })
move-Inv inv i p l m owned held named simple same = record {
  owned = owned;
  held = held;
  named = named;
  simple = λ j. ground (arith, inv.simple j);
  plain = rw same inv.plain;
}

Step-Inv : {s t : Threads} → Step s t → Inv s → Inv t
unfolding tested asked
Step-Inv {s} (begin_try i e) inv =
    move-Inv inv i testing s.lock s.mutex (λ j l. ground (arith, inv.owned j))
      (λ j l. ground (arith, inv.held j)) (λ j l. ground (arith, inv.named j)) refl refl
Step-Inv {s} (test i e) inv =
    move-Inv inv i (tested s.mutex) s.lock s.mutex (λ j l. ground (arith, inv.owned j, inv.plain))
      (λ j l. ground (arith, inv.held j)) (λ j l. ground (arith, inv.named j, inv.plain))
      (ground (arith, inv.plain)) refl
Step-Inv {s} (take i e f) inv =
    move-Inv inv i _ (some i) s.mutex (λ j l. ground (arith, inv.owned j, inv.held i))
      (λ j l. ground (arith, inv.held j, inv.simple i)) (λ j l. ground (arith, inv.named j))
      (ground (arith, inv.simple i)) refl
Step-Inv {s} (refuse i k e f n) inv =
    move-Inv inv i away s.lock s.mutex (λ j l. ground (arith, inv.owned j))
      (λ j l. ground (arith, inv.held j)) (λ j l. ground (arith, inv.named j)) refl refl
Step-Inv {s} (name i e) inv =
    move-Inv inv i holding s.lock _ (λ j l. ground (arith, inv.owned j, inv.owned i))
      (λ j l. ground (arith, inv.held j)) (λ j l. ground (arith, inv.owned j, inv.owned i)) refl
      refl
Step-Inv {s} (begin_unlock i e) inv =
    move-Inv inv i asking s.lock s.mutex (λ j l. ground (arith, inv.owned j, inv.owned i))
      (λ j l. ground (arith, inv.held j)) (λ j l. ground (arith, inv.named j, inv.named i)) refl
      refl
Step-Inv {s} (ask i e) inv =
    move-Inv inv i (asked s.mutex) s.lock s.mutex (λ j l. ground (arith, inv.owned j, inv.owned i))
      (λ j l. ground (arith, inv.held j, inv.plain))
      (λ j l. ground (arith, inv.named j, inv.named i)) (ground (arith, inv.plain)) refl
Step-Inv {s} (clear i e) inv =
    move-Inv inv i leaving s.lock _ (λ j l. ground (arith, inv.owned j, inv.owned i))
      (λ j l. ground (arith, inv.held j)) (λ j l. ground (arith, inv.owned j, inv.owned i)) refl
      refl
Step-Inv {s} (leave i e) inv =
    move-Inv inv i away none s.mutex (λ j l. ground (arith, inv.owned j, inv.owned i)) (λ j l. cc)
      (λ j l. ground (arith, inv.named j)) refl refl
-- What a recursive mutex alone does.
Step-Inv (begin_again i e f) inv = absurd (ground (arith, inv.plain))
Step-Inv (compare i e) inv = absurd (ground (arith, inv.simple i))
Step-Inv (load i e) inv = absurd (ground (arith, inv.simple i))
Step-Inv (store i c e) inv = absurd (ground (arith, inv.simple i))
Step-Inv (unload i e) inv = absurd (ground (arith, inv.simple i))
Step-Inv (unstore i c e) inv = absurd (ground (arith, inv.simple i))
Step-Inv (count i e) inv = absurd (ground (arith, inv.simple i))

Reach-Inv : {s : Threads} → Reach false s → Inv s
Reach-Inv here = Inv-start
Reach-Inv (next r st) = Step-Inv st (Reach-Inv r)

-- On a mutex that is not recursive, among any number of threads that take it by `TryLockMutex` alone, in
-- any order of their accesses: two threads that have the mutex, from the return of `TryLockMutex` with
-- true to the call of `UnlockMutex`, are one thread, and the mutex names it as the owner.
pub holding-excludes :
    {s : Threads} (i j : ℕ)
    → Reach false s
    → s.place i ≡ holding
    → s.place j ≡ holding
    → (i ≡ j) × (s.mutex.owner ≡ from_raw_value i)
holding-excludes i j r p q =
    let inv = Reach-Inv r in (ground (arith, inv.owned i, inv.owned j), inv.named i (ground arith))
