-- ===== src/Tests/Mutexes.antt =====
-- Threads that call `TryLockMutex`, access by access.
use hydrosphere.Common.{ℕ, ◌≡◌, ◌≢◌, refl, inl, false, true, none, some, arith}
use hydrosphere.Svc.{from_raw_value}
use hydrosphere.Mutex.{initialize_mutex}
use hydrosphere.Mutex.Threads.{
  Threads, Reach, here, next, begin_try, test, take, refuse, name, start, move, tested, naming,
  testing, holding, away, with_owner,
}
use hydrosphere.Mutex.Safety.{holding-excludes}
use hydrosphere.Mutex.Failure.{recursive-excludes-nobody}

-- Thread 1 takes the lock, thread 2 is refused, and thread 1 writes its name.
abbrev one_took : Threads
one_took =
    record (move 1 naming
      (move 1 (tested (initialize_mutex false)) (move 1 testing (start false)))) { lock = some 1 }

abbrev two_refused : Threads
two_refused = move 2 away (move 2 (tested (initialize_mutex false)) (move 2 testing one_took))

abbrev one_holds : Threads
one_holds = record (move 1 holding two_refused) {
  mutex = with_owner (from_raw_value 1) two_refused.mutex;
}

abbrev one : ℕ
one = 1

abbrev two : ℕ
two = 2

one_not_two : one ≢ two
one_not_two e = absurd (omega arith)

one_holds-Reach : Reach false one_holds
unfolding initialize_mutex tested
one_holds-Reach =
    let r = next (next (next here (begin_try 1 refl)) (test 1 refl)) (take 1 refl (inl refl)) in
    let q =
      next (next (next r (begin_try 2 refl)) (test 2 refl)) (refuse 2 1 refl refl one_not_two) in
    next q (name 1 refl)

holding-excludes_example : (one ≡ one) × (one_holds.mutex.owner ≡ from_raw_value 1)
holding-excludes_example = holding-excludes 1 1 one_holds-Reach refl refl

recursive-excludes-nobody_example :
    (t : Threads) × Reach true t × (t.place 1 ≡ holding) × (t.place 2 ≡ holding) × (t.lock ≡ none)
recursive-excludes-nobody_example =
    recursive-excludes-nobody 1 2 (omega arith) (omega arith) one_not_two
