-- ===== src/Tests/Barriers.antt =====
-- Two threads at a barrier for two, access by access.
use hydrosphere.Common.{ℕ, ◌+◌, ◌≤◌, ◌<◌, ◌^◌, ◌≡◌, ◌⊎◌, refl, false, none, some, arith, u32}
use hydrosphere.Barrier.{initialize_barrier}
use hydrosphere.Barrier.Threads.{
  Threads, Reach, here, next, begin, enter, load, store, test, broadcast, sleep, leave, start, move,
  tested, woken, entering, reading, storing, testing, leaving, sleeping, through,
}
use hydrosphere.Barrier.Safety.{is_down, is_past, nobody_early, nobody_left}

-- Thread `i` counts its arrival.
abbrev arrives : ℕ → Threads → Threads
arrives i s =
    let a = record (move i reading (move i entering s)) { lock = some i } in
    let b = move i (storing a.barrier.arrive_count) a in
    record (move i testing b) {
      barrier = record (b.barrier) { arrive_count = u32 (b.barrier.arrive_count + 1) };
      arrivals = b.arrivals + 1;
    }

abbrev decides : ℕ → Threads → Threads
decides i s = move i (tested s.barrier) s

-- Thread 1 sleeps; thread 2 arrives, wakes it and returns.
abbrev one_down : Threads
one_down = record (move 1 sleeping (decides 1 (arrives 1 (start 2)))) { lock = none }

abbrev two_there : Threads
two_there = decides 2 (arrives 2 one_down)

abbrev both_up : Threads
both_up =
    let t = move 2 leaving (record two_there { place = λ j. woken (two_there.place j) }) in
    record (move 2 through t) { lock = none }

one_down-Reach : Reach 2 one_down
unfolding initialize_barrier tested
one_down-Reach =
    let r =
      next (next (next (next here (begin 1 refl)) (enter 1 refl refl)) (load 1 refl))
        (store 1 0 refl) in
    next (next r (test 1 refl)) (sleep 1 refl)

both_up-Reach : Reach 2 both_up
unfolding initialize_barrier tested
both_up-Reach =
    let r =
      next (next (next (next one_down-Reach (begin 2 refl)) (enter 2 refl refl)) (load 2 refl))
        (store 2 1 refl) in
    next (next (next r (test 2 refl)) (broadcast 2 refl)) (leave 2 refl)

two-small : 2 < 2 ^ 32
two-small = omega arith

nobody_early_example :
    ((2 ≤ both_up.arrivals) ⊎ (is_past (both_up.place 1) ≡ false))
    × (both_up.barrier.arrive_count ≡ u32 both_up.arrivals)
unfolding tested
nobody_early_example = nobody_early 1 two-small both_up-Reach

nobody_left_example : is_down (both_up.place 1) ≡ false
nobody_left_example = nobody_left 1 two-small both_up-Reach refl refl
