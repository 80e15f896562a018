-- ===== src/Tests/Lifetimes.antt =====
-- A thread that is created, started and destroyed.
use hydrosphere.Common.{ℕ, ◌+◌, ◌≡◌, ◌≢◌, refl, arith, [], ◌∷◌}
use hydrosphere.Svc.{result, is_ok, returns}
use hydrosphere.CriticalSection.Guarded.{Caller, lone_caller}
use hydrosphere.IntrusiveList.Chain.{Ring}
use hydrosphere.ThreadList.{Holds}
use hydrosphere.Thread.{uninitialized, Scene}
use hydrosphere.Thread.Creation.{create_thread}
use hydrosphere.Thread.Creation.Attempts.{no_more, once_more}
use hydrosphere.Thread.Control.{start_thread, destroy_thread}
use hydrosphere.Thread.Control.Laws.{done_waiting}
use hydrosphere.Thread.Lifetime.{runs, IsServed, create-start-destroy}
use hydrosphere.Tests.Refusals.{IsHandle_one, threads-Holds, refusals, world, after_reserve}
use hydrosphere.Tests.Creations.{four, four_not_null, stack-IsMapped}

four_not_main : four ≢ 2
four_not_main e = absurd (omega arith)

-- The kernel counts the thread's run.
abbrev run_once : ℕ → ℕ
run_once k = k + 10

four-IsServed :
    IsServed refusals 1 40
      (λ v. v)
      IsHandle_one
      7
      4
      50
      60
      0x9000
      0x1000
      44
      0
      0x5000
      (world 2)
      after_reserve
      2
      0
      run_once
      0
unfolding is_ok
four-IsServed = record {
  refused = once_more refl refl (once_more refl refl no_more);
  attempts = omega arith;
  creates = refl;
  starts = refl;
  waits = done_waiting refl;
  closes = refl;
}

create-start-destroy_example :
    let c : Caller = lone_caller 1 40 (λ v. v) in
    (s1 : Scene refusals) × (s2 : Scene refusals) × (t : Scene refusals) × (create_thread refusals c
        7 4 50 60 0x9000 0x1000 44 0
        (world 2)
      ≡ returns (result 0) s1)
    × (start_thread refusals c 4 s1 ≡ returns tt s2)
    × (destroy_thread refusals c (runs refusals run_once) 4 s2 ≡ returns tt t)
    × Holds t.world.threads t.world.store (2 ∷ 3 ∷ [])
    × Ring t.world.store 4 []
    × (t.thread.state ≡ uninitialized)
    × (t.world.kernel ≡ 110)
create-start-destroy_example =
    create-start-destroy refusals 1 40 (λ v. v) IsHandle_one 7 4 50 60 0x9000 0x1000 44 0 0x5000
      (world 2) after_reserve (2 ∷ 3 ∷ []) 2 0 run_once 0 four_not_null (stack-IsMapped 2)
      threads-Holds refl four_not_main four-IsServed (omega arith)
