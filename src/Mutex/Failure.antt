-- ===== src/Mutex/Failure.antt =====
-- A recursive mutex that is taken by `TryLockMutex`.
use hydrosphere.Common.{ℕ, ◌<◌, ◌≡◌, ◌∙◌, none, ◌≢◌, refl, true, arith}
use hydrosphere.Svc.{from_raw_value, handle_ne}
use hydrosphere.Mutex.{initialize_mutex}
use hydrosphere.Mutex.Threads.{
  away, testing, storing, holding, Threads, move, tested, compared, begin_try, test, compare, load,
  store, name, Reach, here, next,
}

-- A thread that the mutex does not name as the owner has the mutex after six accesses of its own.
takes :
    {s : Threads} (i : ℕ)
    → Reach true s
    → s.place i ≡ away
    → s.mutex.is_recursive ≡ true
    → s.mutex.owner.value ≢ i
    → (t : Threads) × Reach true t
      × (t.place i ≡ holding)
      × ((j : ℕ) → j ≢ i → t.place j ≡ s.place j)
      × (t.mutex.is_recursive ≡ true)
      × (t.mutex.owner ≡ from_raw_value i)
      × (t.lock ≡ s.lock)
unfolding tested compared handle_ne
takes {s} i r start recursive other =
    let s1 = move i testing s in
    let r1 : Reach true s1 = next r (begin_try i start) in
    let s2 = move i (tested s1.mutex) s1 in
    let r2 : Reach true s2 = next r1 (test i (ground arith)) in
    let s3 = move i (compared i s2.mutex) s2 in
    let r3 : Reach true s3 = next r2 (compare i (ground (arith, recursive))) in
    let s4 = move i (storing s3.mutex.counter) s3 in
    let r4 : Reach true s4 = next r3 (load i (ground (arith, other))) in
    let r5 = next r4 (store i s3.mutex.counter (ground arith)) in
    let r6 = next r5 (name i (ground arith)) in
    (_, r6, ground arith, λ j ne. ground arith, recursive, refl, refl)

-- On a new recursive mutex any two threads can come to have the mutex at one time, each after the return
-- of `TryLockMutex` with true, and the lock of the mutex is free then.
pub recursive-excludes-nobody :
    (i j : ℕ)
    → 0 < i
    → 0 < j
    → i ≢ j
    → (t : Threads) × Reach true t × (t.place i ≡ holding) × (t.place j ≡ holding) × (t.lock ≡ none)
unfolding initialize_mutex
recursive-excludes-nobody i j pi pj ne =
    let (s, r, held, others, recursive, owner, free) = takes i here refl refl (ground arith) in
    let (t, r2, held2, others2, recursive2, owner2, free2) =
      takes j r (ground (arith, others j)) recursive (ground (arith, owner)) in
    (t, r2, ground (arith, others2 i, held), held2, free2 ∙ free)
