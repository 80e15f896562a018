-- ===== src/Tests/Locks.antt =====
-- A kernel that keeps its waiters in a list, and the locks over it.
use hydrosphere.Common.{
  ℕ, ◌+◌, ◌^◌, ◌<◌, ◌≡◌, ◌≢◌, ◌⊎◌, inl, inr, refl, arith, true, false, Bool, List, [], ◌∷◌, Option,
  none, some, has, if◌then◌else◌, ◌==◌,
}
use hydrosphere.CriticalSection.{
  outside, inside, blocked, entering, leaving, unlocking, arbitrating, run, listeners_bit,
}
use hydrosphere.CriticalSection.System.{
  Arbiter, IsHandle, System, Reach, enter, access, arbitrate_lock, here, next, start, update_pc,
}
use hydrosphere.CriticalSection.Invariant.{owns, holds, owner}
use hydrosphere.CriticalSection.Lock.{LockStep, Step-LockStep}
use hydrosphere.CriticalSection.Exclusion.{mutual_exclusion, no_lost_wakeup, word_shapes}

-- The queue without a thread.
abbrev without : ℕ → List ℕ → List ℕ
without i [] = []
without i (j ∷ q) = let rest = without i q in if j == i then rest else j ∷ rest

has-without : (i : ℕ) (q : List ℕ) → has i (without i q) ≡ false
has-without i [] = refl
has-without i (j ∷ q) = ground (arith, has-without i q)

has-without_other : (i j : ℕ) (q : List ℕ) → j ≢ i → has j (without i q) ≡ has j q
has-without_other i j [] ne = refl
has-without_other i j (k ∷ q) ne = ground (arith, has-without_other i j q ne)

abbrev handed_over : ℕ → List ℕ → ℕ
handed_over w [] = w
handed_over w (x ∷ q) = w + listeners_bit

handed_over-cases :
    (w : ℕ) (q : List ℕ) → (handed_over w q ≡ w) ⊎ (handed_over w q ≡ w + listeners_bit)
handed_over-cases w [] = inl refl
handed_over-cases w (x ∷ q) = inr refl

handed_over-waits : (w j : ℕ) (q : List ℕ) → has j q ≡ true → handed_over w q ≡ w + listeners_bit
handed_over-waits w j [] e = ground arith
handed_over-waits w j (x ∷ q) e = refl

abbrev list_unlock : List ℕ → List ℕ × ℕ × Option ℕ
list_unlock [] = ([], 0, none)
list_unlock (w ∷ q) = (without w q, handed_over w (without w q), some w)

unlock_nobody :
    (q : List ℕ)
    → (list_unlock q).2 ≡ none
    → ((list_unlock q).1 ≡ 0) × ((i : ℕ) → has i q ≡ false) × ((list_unlock q).0 ≡ q)
unlock_nobody [] e = (refl, λ i. refl, refl)
unlock_nobody (w ∷ q) e = absurd (ground arith)

unlock_head :
    (q : List ℕ) (w : ℕ)
    → (list_unlock q).2 ≡ some w
    → (has w q ≡ true)
      × (has w (list_unlock q).0 ≡ false)
      × (((list_unlock q).1 ≡ w) ⊎ ((list_unlock q).1 ≡ w + listeners_bit))
      × ((j : ℕ) → has j (list_unlock q).0 ≡ true → (list_unlock q).1 ≡ w + listeners_bit)
      × ((j : ℕ) → j ≢ w → has j (list_unlock q).0 ≡ has j q)
unlock_head [] w e = absurd (ground arith)
unlock_head (v ∷ q) w e =
    let same : v ≡ w = ground arith in
    (
      ground arith,
      ground (arith, has-without v q),
      ground (arith, handed_over-cases v (without v q)),
      λ j i. ground (arith, handed_over-waits v j (without v q) i),
      λ j ne. ground (arith, has-without_other v j q),
    )

abbrev list_lock : List ℕ → (image owner requester : ℕ) → List ℕ × Bool
list_lock q v o i = if v == o + listeners_bit then (i ∷ q, true) else (q, false)

list_lock_waits :
    (q : List ℕ) (v o i : ℕ)
    → (list_lock q v o i).1 ≡ true
    → (v ≡ o + listeners_bit) × (has i (list_lock q v o i).0 ≡ true)
list_lock_waits q v o i e = (ground arith, ground arith)

list_lock_returns :
    (q : List ℕ) (v o i : ℕ) → (list_lock q v o i).1 ≡ false → (list_lock q v o i).0 ≡ q
list_lock_returns q v o i e = ground arith

list_lock_others : (q : List ℕ) (v o i j : ℕ) → j ≢ i → has j (list_lock q v o i).0 ≡ has j q
list_lock_others q v o i j ne = ground arith

abbrev list_arbiter : Arbiter
list_arbiter = record {
  Queue = List ℕ;
  no_waiters = [];
  waits = λ q i. has i q;
  lock = list_lock;
  unlock = list_unlock;
  no_waiters_law = λ i. refl;
  lock_waits = list_lock_waits;
  lock_returns = list_lock_returns;
  lock_others = list_lock_others;
  unlock_none = unlock_nobody;
  unlock_some = unlock_head;
}

IsHandle_one : (0 < 1) × (1 < 2 ^ 30)
IsHandle_one = (omega arith, omega arith)

IsHandle_two : (0 < 2) × (2 < 2 ^ 30)
IsHandle_two = (omega arith, omega arith)

module _ (i : ℕ) (s : System list_arbiter) where
  abbrev entered : System list_arbiter
  entered = record s { pc = update_pc s.pc i entering }

  abbrev accessed : System list_arbiter
  accessed = record s {
    image = (run i (s.pc i) s.image).1;
    pc = update_pc s.pc i (run i (s.pc i) s.image).0;
  }

  abbrev arbitrated : ℕ → System list_arbiter
  arbitrated o = record s {
    queue = (list_arbiter.lock s.queue s.image o i).0;
    pc = update_pc s.pc i (if (list_arbiter.lock s.queue s.image o i).1 then blocked else entering);
  }

-- Thread 1 is inside.
abbrev one_inside : System list_arbiter
one_inside = accessed 1 (entered 1 (start list_arbiter))

one_inside-Reach : Reach list_arbiter one_inside
one_inside-Reach = next (next here (enter 1 (inl refl))) (access 1 IsHandle_one)

-- Thread 2 stands before its call of `ArbitrateLock`, and then waits in the kernel.
abbrev two_marked : System list_arbiter
two_marked = accessed 2 (accessed 2 (entered 2 one_inside))

two_marked_pc : two_marked.pc 2 ≡ arbitrating 1
unfolding run
two_marked_pc = refl

abbrev two_blocked : System list_arbiter
two_blocked = arbitrated 2 two_marked 1

two_blocked_pc : two_blocked.pc 2 ≡ blocked
unfolding run
two_blocked_pc = refl

one_inside_owns : owns (two_blocked.pc 1) ≡ true
unfolding run
one_inside_owns = refl

two_outside : one_inside.pc 2 ≡ outside
unfolding run
two_outside = refl

two_blocked-Reach : Reach list_arbiter two_blocked
two_blocked-Reach =
    next
      (next (next (next one_inside-Reach (enter 2 (inl two_outside))) (access 2 IsHandle_two))
        (access 2 IsHandle_two))
      (arbitrate_lock 2 1 IsHandle_two two_marked_pc)

abbrev one : ℕ
one = 1

abbrev two : ℕ
two = 2

mutual_exclusion_example : (one ≡ 1) × (owner two_blocked.image ≡ 1)
mutual_exclusion_example =
    mutual_exclusion list_arbiter two_blocked-Reach 1 1 one_inside_owns one_inside_owns

-- The first access of thread 1 takes the lock.
Step-LockStep_example : LockStep (entered 1 (start list_arbiter)).pc 1 0 1
unfolding run
Step-LockStep_example =
    Step-LockStep list_arbiter (next here (enter 1 (inl refl))) (access 1 IsHandle_one)

no_lost_wakeup_example :
    (o : ℕ) × (o ≢ 2)
    × (two_blocked.image ≡ o + listeners_bit)
    × (holds (two_blocked.pc o) ≡ true)
    × (run o leaving two_blocked.image ≡ (unlocking, two_blocked.image))
    × (run o entering two_blocked.image ≡ (inside, two_blocked.image))
no_lost_wakeup_example = no_lost_wakeup list_arbiter two_blocked-Reach 2 two_blocked_pc

word_shapes_example :
    (two_blocked.image ≡ 0)
    ⊎ ((o : ℕ) × IsHandle o
        × (holds (two_blocked.pc o) ≡ true)
        × ((two_blocked.image ≡ o) ⊎ (two_blocked.image ≡ o + listeners_bit)))
word_shapes_example = word_shapes list_arbiter two_blocked-Reach
