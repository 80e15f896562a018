-- ===== src/Barrier/Safety.antt =====
-- Nobody passes a barrier early, whatever the order of the accesses.
use hydrosphere.Common.{
  ℕ, ◌^◌, ◌<◌, ◌≤◌, Option, ◌≡◌, refl, Bool, true, false, none, some, arith, u32, ◌⊎◌, inl, inr,
  Bool-cases,
}
use hydrosphere.Barrier.{initialize_barrier}
use hydrosphere.Barrier.Threads.{
  Place, away, entering, reading, storing, testing, broadcasting, calling, sleeping, returning,
  leaving, through, Threads, update_place, move, tested, Step, begin, enter, load, store, test,
  broadcast, sleep, return, leave, start, Reach, here, next,
}

-- The places in which a thread has the lock.
abbrev pub locks : Place → Bool
locks reading = true
locks (storing k) = true
locks testing = true
locks broadcasting = true
locks calling = true
locks leaving = true
locks _ = false

-- The places behind the barrier.
abbrev pub is_past : Place → Bool
is_past returning = true
is_past leaving = true
is_past through = true
is_past _ = false

-- The places of a thread that arrived and is not awake again.
abbrev pub is_down : Place → Bool
is_down calling = true
is_down sleeping = true
is_down _ = false

-- The thread in the lock has arrived, and is not past the wake-up that may be due.
abbrev pub is_due : Place → Bool
is_due testing = true
is_due broadcasting = true
is_due _ = false

-- Where the thread in the lock stands.
abbrev pub holder : Threads → Place
holder s = elim s.lock [ none ↦ away | some i ↦ s.place i ]

record Inv (n : ℕ) (s : Threads) : Type 0 where
  owned : (i : ℕ) → locks (s.place i) ≡ true → s.lock ≡ some i
  number : s.barrier.number_to_wait ≡ n
  counted : s.barrier.arrive_count ≡ u32 s.arrivals
  loaded : (i k : ℕ) → s.place i ≡ storing k → k ≡ s.barrier.arrive_count
  met : (i : ℕ) → s.place i ≡ broadcasting → n ≤ s.arrivals
  past : (i : ℕ) → is_past (s.place i) ≡ true → n ≤ s.arrivals
  due : (i : ℕ) → is_down (s.place i) ≡ true → s.arrivals ≡ n → is_due (holder s) ≡ true

Inv-start : (n : ℕ) → Inv n (start n)
unfolding initialize_barrier
Inv-start n = record {
  owned = λ i l. cc;
  number = refl;
  counted = refl;
  loaded = λ i k e. cc;
  met = λ i e. cc;
  past = λ i e. cc;
  due = λ i e f. cc;
}

-- Thread `i` goes to `p` and leaves the lock as `l`; nothing else changes.
move-Inv :
    {n : ℕ} {s : Threads} (inv : Inv n s) (i : ℕ) (p : Place) (l : Option ℕ)
    → ((j : ℕ) → locks (update_place s.place i p j) ≡ true → l ≡ some j)
    → ((k : ℕ) → p ≡ storing k → k ≡ s.barrier.arrive_count)
    → (p ≡ broadcasting → n ≤ s.arrivals)
    → (is_past p ≡ true → n ≤ s.arrivals)
    → ((j : ℕ)
        → is_down (update_place s.place i p j) ≡ true
        → s.arrivals ≡ n
        → is_due (holder (record (move i p s) { lock = l })) ≡ true)
    → Inv n (record (move i p s) { lock = l })
move-Inv inv i p l owned loaded met past due = record {
  owned = owned;
  number = inv.number;
  counted = inv.counted;
  loaded = λ j k e. ground (arith, inv.loaded j k, loaded k);
  met = λ j e. ground (arith, inv.met j);
  past = λ j e. ground (arith, inv.past j);
  due = due;
}

Step-Inv : {n : ℕ} {s t : Threads} → n < 2 ^ 32 → Step s t → Inv n s → Inv n t
unfolding tested
Step-Inv {s = s} small (begin i e) inv =
    move-Inv inv i entering s.lock (λ j l. ground (arith, inv.owned j)) (λ k. cc) (λ b. cc)
      (λ b. cc) (λ j d f. ground (arith, inv.due j))
Step-Inv small (enter i f e) inv =
    move-Inv inv i reading (some i) (λ j l. ground (arith, inv.owned j)) (λ k. cc) (λ b. cc)
      (λ b. cc) (λ j d g. ground (arith, inv.due j))
Step-Inv {s = s} small (load i e) inv =
    move-Inv inv i (storing s.barrier.arrive_count) s.lock
      (λ j l. ground (arith, inv.owned j, inv.owned i)) (λ k. ground arith) (λ b. cc) (λ b. cc)
      (λ j d g. ground (arith, inv.due j, inv.owned i))
Step-Inv small (store i k e) inv = record {
  owned = λ j l. ground (arith, inv.owned j, inv.owned i);
  number = inv.number;
  counted = ground (arith, inv.counted, inv.loaded i k);
  loaded = λ j m l. ground (arith, inv.owned j, inv.owned i);
  met = λ j l. ground (arith, inv.met j);
  past = λ j l. ground (arith, inv.past j);
  due = λ j d g. ground (arith, inv.owned i);
}
Step-Inv {s = s} small (test i e) inv =
    move-Inv inv i (tested s.barrier) s.lock (λ j l. ground (arith, inv.owned j, inv.owned i))
      (λ k. ground arith) (λ f. ground (arith, inv.counted, inv.number)) (ground arith)
      (λ j d g. ground (arith, inv.owned i, inv.counted, inv.number))
Step-Inv small (broadcast i e) inv = record {
  owned = λ j l. ground (arith, inv.owned j, inv.owned i);
  number = inv.number;
  counted = inv.counted;
  loaded = λ j k l. ground (arith, inv.loaded j k);
  met = λ j l. ground (arith, inv.met j, inv.owned j, inv.owned i);
  past = λ j l. inv.met i e;
  due = λ j d g. ground (arith, inv.owned j, inv.owned i);
}
Step-Inv small (sleep i e) inv =
    move-Inv inv i sleeping none (λ j l. ground (arith, inv.owned j, inv.owned i)) (λ k. cc)
      (λ b. cc) (λ b. cc) (λ j d g. ground (arith, inv.due i, inv.owned i))
Step-Inv small (return i f e) inv =
    move-Inv inv i leaving (some i) (λ j l. ground (arith, inv.owned j)) (λ k. cc) (λ b. cc)
      (λ l. ground (arith, inv.past i)) (λ j d g. ground (arith, inv.due j))
Step-Inv small (leave i e) inv =
    move-Inv inv i through none (λ j l. ground (arith, inv.owned j, inv.owned i)) (λ k. cc)
      (λ b. cc) (λ l. ground (arith, inv.past i)) (λ j d g. ground (arith, inv.due j, inv.owned i))

Reach-Inv : {n : ℕ} {s : Threads} → n < 2 ^ 32 → Reach n s → Inv n s
Reach-Inv {n} small here = Inv-start n
Reach-Inv small (next r st) = Step-Inv small st (Reach-Inv small r)

-- On a new barrier for a number below 2 ^ 32, however the accesses of the threads interleave: either
-- at least that number of calls have arrived, or no thread has been woken at the barrier or has passed
-- it; and, in both cases, `arrive_count` is the number of all calls that have arrived, in 32 bits, so
-- that none is lost.
pub nobody_early :
    {n : ℕ} {s : Threads} (i : ℕ)
    → n < 2 ^ 32
    → Reach n s
    → ((n ≤ s.arrivals) ⊎ (is_past (s.place i) ≡ false)) × (s.barrier.arrive_count ≡ u32 s.arrivals)
nobody_early {s = s} i small r =
    let inv = Reach-Inv small r in
    (
      elim (Bool-cases (is_past (s.place i))) [
        | inl p ↦ inl (inv.past i p)
        | inr before ↦ inr before
      ],
      inv.counted,
    )

-- On a new barrier for a number below 2 ^ 32, however the accesses of the threads interleave: when
-- exactly that number of calls have arrived and no thread is in the lock, no thread sleeps at the
-- barrier or is about to.
pub nobody_left :
    {n : ℕ} {s : Threads} (i : ℕ)
    → n < 2 ^ 32
    → Reach n s
    → s.arrivals ≡ n
    → s.lock ≡ none
    → is_down (s.place i) ≡ false
nobody_left i small r full free = let inv = Reach-Inv small r in ground (arith, inv.due i, free)
