-- ===== src/Tests/Creations.antt =====
-- The creation of a thread: it succeeds, gives up, or aborts.
use hydrosphere.Common.{ℕ, ◌-◌, ◌≡◌, ◌≢◌, refl, arith, [], ◌∷◌, if◌then◌else◌, ◌==◌}
use hydrosphere.Svc.{result, no_handle, is_ok, returns, aborts}
use hydrosphere.CriticalSection.Guarded.{lone_caller}
use hydrosphere.Allocator.{allocator, align_up, scan, reserve_locked, reserve}
use hydrosphere.CriticalSection.Sequential.{enter, leave}
use hydrosphere.ThreadList.{Holds}
use hydrosphere.Thread.{ThreadCalls, Thread, World, Scene, unnamed_thread, out_of_resources}
use hydrosphere.Thread.Creation.{create_thread}
use hydrosphere.Thread.Creation.Attempts.{no_more, once_more, Exhausts}
use hydrosphere.Thread.Creation.Laws.{IsMapped, mapped_thread, create_thread-gives_up}
use hydrosphere.Thread.Creation.Aborts.{no_thread, create_thread-aborts}
use hydrosphere.Tests.Refusals.{
  IsHandle_one, two_three, threads, threads-Holds, refusals, world, after_reserve,
}

-- The stack at 0x9000 gets its mirror behind the guard page.
abbrev made : ℕ → Thread
made k =
    mapped_thread refusals 1 40 (λ v. v) IsHandle_one 7 4 50 60 0x9000 0x1000 44 0 0x5000 (world k)
      after_reserve

pub stack-IsMapped :
    (k : ℕ)
    → IsMapped refusals 1 40
        (λ v. v)
        IsHandle_one
        7
        4
        50
        60
        0x9000
        0x1000
        44
        0
        0x5000
        (world k)
        after_reserve
unfolding reserve is_ok enter reserve_locked scan align_up leave
stack-IsMapped k = record { reserved = refl; found = λ e. absurd (omega arith); maps = refl }

abbrev pub four : ℕ
four = 4

pub four_not_null : four ≢ 0
four_not_null e = absurd (omega arith)

nine_refusals : Exhausts refusals 7 4 0 (made 20) 9 20
unfolding is_ok
nine_refusals = once_more refl refl (
    once_more refl refl (
      once_more refl refl (
        once_more refl refl (
          once_more refl refl (
            once_more refl refl
              (once_more refl refl (once_more refl refl (once_more refl refl no_more))))))))

create_thread-gives_up_example :
    (s : Scene refusals) × (create_thread refusals
        (lone_caller 1 40 (λ v. v))
        7
        4
        50
        60
        0x9000
        0x1000
        44
        0
        (world 20)
      ≡ returns out_of_resources s)
    × Holds s.world.threads s.world.store (2 ∷ 3 ∷ 4 ∷ [])
    × (s.thread ≡ record (made 20) { thread_name = unnamed_thread })
    × (s.world.kernel ≡ 111)
create_thread-gives_up_example =
    create_thread-gives_up refusals 1 40 (λ v. v) IsHandle_one 7 4 50 60 0x9000 0x1000 44 0 0x5000
      (world 20) after_reserve (2 ∷ 3 ∷ []) four_not_null (stack-IsMapped 20) threads-Holds refl
      nine_refusals

-- A kernel that after its refusals has another error.
abbrev broken : ThreadCalls
broken = record refusals {
  create_thread = λ k entry argument stack_top priority cpuid.
      (if k == 0 then result 0xF001 else result 0xCE01, no_handle, k - 1);
}

abbrev broken_world : World broken
broken_world = record {
  kernel = 2;
  stack_allocator = allocator 0x4000 0x8000 0x1000;
  threads = threads;
  store = two_three;
}

broken-IsMapped :
    IsMapped broken 1 40
      (λ v. v)
      IsHandle_one
      7
      4
      50
      60
      0x9000
      0x1000
      44
      0
      0x5000
      broken_world
      after_reserve
unfolding reserve is_ok enter reserve_locked scan align_up leave
broken-IsMapped = record { reserved = refl; found = λ e. absurd (omega arith); maps = refl }

create_thread-aborts_example :
    create_thread broken (lone_caller 1 40 (λ v. v)) 7 4 50 60 0x9000 0x1000 44 0 broken_world
    ≡ aborts
unfolding is_ok
create_thread-aborts_example =
    create_thread-aborts broken 1 40 (λ v. v) IsHandle_one 7 4 50 60 0x9000 0x1000 44 0 0x5000
      broken_world after_reserve four_not_null
      (no_thread broken-IsMapped 2 (omega arith) (once_more refl refl (once_more refl refl no_more))
        refl refl)
