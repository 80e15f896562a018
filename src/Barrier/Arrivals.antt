-- ===== src/Barrier/Arrivals.antt =====
-- Threads that arrive at a barrier, in any order, and which of them sleep.
use mathlib.Core.List.{append-nil, append_assoc}
use hydrosphere.Common.{
  ℕ, ◌+◌, ◌^◌, ◌<◌, ◌≤◌, ◌≡◌, ◌∙◌, refl, sym, ap, ◌⊎◌, inl, inr, List, [], ◌∷◌, ◌++◌, ◌==◌,
  if◌then◌else◌, u32, arith, length, true, false,
}
use hydrosphere.Barrier.{Barrier, initialize_barrier, arrive}

-- The barrier with its condition variable: the threads that sleep on it, and those that have
-- returned from `AwaitBarrier`, in the order of their arrival.
pub record System : Type 0 where
  pub barrier : Barrier
  pub asleep : List ℕ
  pub passed : List ℕ

abbrev pub fresh : ℕ → System
fresh n = record { barrier = initialize_barrier n; asleep = []; passed = [] }

-- Thread `i` arrives: it wakes all sleepers and returns, or it goes to sleep.
unfoldable pub arrival : ℕ → System → System
unfolding arrive
arrival i s =
    let (met, b) = arrive s.barrier in
    if met
    then record { barrier = b; asleep = []; passed = s.passed ++ (s.asleep ++ i ∷ []) }
    else record { barrier = b; asleep = s.asleep ++ i ∷ []; passed = s.passed }

abbrev pub await_all : List ℕ → System → System
await_all [] s = s
await_all (i ∷ is) s = await_all is (arrival i s)

abbrev counted : Barrier → Barrier
counted b = record b { arrive_count = u32 (b.arrive_count + 1) }

-- What arrivals leave that meet the number at no time.
record Gathered (is : List ℕ) (s t : System) : Type 0 where
  asleep : t.asleep ≡ s.asleep ++ is
  passed : t.passed ≡ s.passed
  number : t.barrier.number_to_wait ≡ s.barrier.number_to_wait
  count : t.barrier.arrive_count ≡ s.barrier.arrive_count + length is

await_all-Gathered :
    (is : List ℕ) (s : System)
    → s.barrier.arrive_count + length is < 2 ^ 32
    → (s.barrier.arrive_count + length is < s.barrier.number_to_wait)
      ⊎ (s.barrier.number_to_wait ≤ s.barrier.arrive_count)
    → Gathered is s (await_all is s)
unfolding arrival
await_all-Gathered [] s small off = record {
  asleep = sym (append-nil s.asleep);
  passed = refl;
  number = refl;
  count = omega arith;
}
await_all-Gathered (i ∷ is) s small off =
    let c : u32 (s.barrier.arrive_count + 1) ≡ s.barrier.arrive_count + 1 = omega arith in
    let miss : (u32 (s.barrier.arrive_count + 1) == s.barrier.number_to_wait) ≡ false =
      ground arith in
    let t : System = record {
      barrier = counted s.barrier;
      asleep = s.asleep ++ i ∷ [];
      passed = s.passed;
    } in
    let g = await_all-Gathered is t (omega arith) (ground arith) in
    rw miss (record {
      asleep = g.asleep ∙ append_assoc s.asleep (i ∷ []) is;
      passed = g.passed;
      number = g.number;
      count = g.count ∙ omega arith;
    })

arrival_meets :
    (i : ℕ) (s : System)
    → (u32 (s.barrier.arrive_count + 1) == s.barrier.number_to_wait) ≡ true
    → arrival i s ≡ record {
      barrier = counted s.barrier;
      asleep = [];
      passed = s.passed ++ (s.asleep ++ i ∷ []);
    }
unfolding arrival
arrival_meets i s e = rw e

await_all-append :
    (xs ys : List ℕ) (s : System) → await_all (xs ++ ys) s ≡ await_all ys (await_all xs s)
await_all-append [] ys s = refl
await_all-append (x ∷ xs) ys s = await_all-append xs ys (arrival x s)

-- Until as many threads have arrived as the barrier waits for, all that have arrived sleep.
pub await_all-before :
    (n : ℕ) (is : List ℕ)
    → n < 2 ^ 32
    → length is < n
    → ((await_all is (fresh n)).asleep ≡ is) × ((await_all is (fresh n)).passed ≡ [])
unfolding initialize_barrier
await_all-before n is small few =
    let g = await_all-Gathered is (fresh n) (omega arith) (inl (omega arith)) in
    (g.asleep, g.passed)

-- When the last of `n` threads arrives, exactly these threads pass. The barrier does not start anew:
-- every thread that arrives later sleeps, and none of them ever passes, up to 2 ^ 32 arrivals.
pub await_all-after :
    (n last : ℕ) (firsts later : List ℕ)
    → length firsts + 1 ≡ n
    → n + length later < 2 ^ 32
    → let t : System = await_all (firsts ++ last ∷ later) (fresh n) in
      (t.passed ≡ firsts ++ last ∷ []) × (t.asleep ≡ later)
unfolding initialize_barrier
await_all-after n last firsts later full small =
    let s = fresh n in
    let u = await_all firsts s in
    let g = await_all-Gathered firsts s (omega arith) (inl (omega arith)) in
    let meets : (u32 (u.barrier.arrive_count + 1) == u.barrier.number_to_wait) ≡ true =
      ground (arith, g.count, g.number) in
    let v : System = record {
      barrier = counted u.barrier;
      asleep = [];
      passed = u.passed ++ (u.asleep ++ last ∷ []);
    } in
    let k =
      await_all-Gathered later v (ground (arith, g.count, g.number))
        (inr (ground (arith, g.count, g.number))) in
    let e : await_all (firsts ++ last ∷ later) s ≡ await_all later v =
      await_all-append firsts (last ∷ later) s
      ∙ ap (await_all later) (arrival_meets last u meets) in
    rw e (k.passed ∙ cc (g.asleep, g.passed), k.asleep)
