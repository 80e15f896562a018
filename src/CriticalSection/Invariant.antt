-- ===== src/CriticalSection/Invariant.antt =====
-- Who owns the word and who waits for it: an invariant, and that each kind of step keeps it.
use hydrosphere.Common.{
  ℕ, ◌≡◌, ◌≢◌, ◌<◌, ◌^◌, Bool, true, false, arith, if◌then◌else◌, sym, ◌⊎◌, inl, inr, Option-cases,
}
use hydrosphere.CriticalSection.{
  Pc, outside, entering, marking, arbitrating, blocked, inside, leaving, unlocking, run,
  has_listeners, without_listeners,
}
use hydrosphere.CriticalSection.System
use hydrosphere.CriticalSection.System.{Arbiter, IsHandle, update_pc, wake, System}

-- From the return of `Enter` to the end of `Leave`.
abbrev pub owns : Pc → Bool
owns inside = true
owns leaving = true
owns unlocking = true
owns _ = false

-- The owner, or a thread that becomes the owner by its next access.
abbrev pub holds : Pc → Bool
holds entering = true
holds p = owns p

-- The expected value of a thread that stands at the second exchange.
abbrev pub expected_of : Pc → ℕ
expected_of (marking e) = e
expected_of _ = 1

abbrev pub owner : ℕ → ℕ
owner image = without_listeners image

module _ (A : Arbiter) where
  open A use {waits}

  pub record Inv (s : System A) : Type 0 where
    pub fits : s.image < 2 ^ 31
    pub owned : (i : ℕ) → owns (s.pc i) ≡ true → (owner s.image ≡ i) × IsHandle i
    pub held : (i : ℕ) → owner s.image ≡ i → i ≢ 0 → holds (s.pc i) ≡ true
    pub proper : has_listeners s.image ≡ true → owner s.image ≢ 0
    pub asleep :
        (i : ℕ)
        → waits s.queue i ≡ true
        → (s.pc i ≡ blocked) × IsHandle i × (has_listeners s.image ≡ true)
    pub sleeping : (i : ℕ) → s.pc i ≡ blocked → waits s.queue i ≡ true
    pub pending : (i : ℕ) → s.pc i ≡ unlocking → has_listeners s.image ≡ true
    pub marks : (i : ℕ) → expected_of (s.pc i) ≢ 0

  pub Inv-start : Inv (System.start A)
  Inv-start = record {
    fits = omega arith;
    owned = λ i e. cc;
    held = λ i e n. absurd (n (sym e));
    proper = λ e. cc;
    asleep = λ i e. cc (A.no_waiters_law i);
    sleeping = λ i e. cc;
    pending = λ i e. cc;
    marks = λ i. omega arith;
  }

  module _ {s : System A} (inv : Inv s) (i : ℕ) where
    open inv use {fits, owned, held, proper, asleep, sleeping, pending, marks}

    -- One access of thread `i`, which stands at `p`.
    pub access-Inv :
        (p : Pc)
        → s.pc i ≡ p
        → IsHandle i
        → Inv (record s { image = (run i p s.image).1; pc = update_pc s.pc i (run i p s.image).0 })
    unfolding run
    access-Inv outside e h = record {
      fits = fits;
      owned = λ j o. ground (arith, owned j);
      held = λ j o n. ground (arith, held j);
      proper = proper;
      asleep = λ j w. ground (arith, asleep j);
      sleeping = λ j b. ground (arith, sleeping j);
      pending = λ j b. ground (arith, pending j);
      marks = λ j. ground (arith, marks j);
    }
    access-Inv p e h = record {
      fits = ground arith;
      owned = λ j o. ground (arith, owned j, owned i);
      held = λ j o n. ground (arith, held j, held i);
      proper = ground (arith, marks i);
      asleep = λ j w. ground (arith, asleep j, asleep i);
      sleeping = λ j b. ground (arith, sleeping j);
      pending = λ j b. ground (arith, pending j, pending i);
      marks = λ j. ground (arith, marks j);
    }

    -- A call of `Enter`, `TryEnter` or `Leave` begins: `p` is where the thread goes.
    pub begin-Inv :
        (p : Pc)
        → ((s.pc i ≡ outside) × (owns p ≡ false)
            ⊎ (s.pc i ≡ inside) × (holds p ≡ true) × (p ≢ unlocking))
        → (owns p ≡ true → s.pc i ≡ inside)
        → (p ≢ blocked) × (p ≢ unlocking) × (expected_of p ≢ 0)
        → Inv (record s { pc = update_pc s.pc i p })
    begin-Inv p from own new = record {
      fits = fits;
      owned = λ j o. ground (arith, owned j, owned i);
      held = λ j o n. ground (arith, held j, held i);
      proper = proper;
      asleep = λ j w. ground (arith, asleep j, asleep i);
      sleeping = λ j b. ground (arith, sleeping j);
      pending = λ j b. ground (arith, pending j);
      marks = λ j. ground (arith, marks j);
    }

    pub lock-Inv :
        (o : ℕ)
        → s.pc i ≡ arbitrating o
        → IsHandle i
        → Inv (record s {
          queue = (A.lock s.queue s.image o i).0;
          pc = update_pc s.pc i (if (A.lock s.queue s.image o i).1 then blocked else entering);
        })
    lock-Inv o e h = record {
      fits = fits;
      owned = λ j q. ground (arith, owned j);
      held = λ j q n. ground (arith, held j, held i);
      proper = proper;
      asleep = λ j w. ground (
        arith,
        asleep j,
        asleep i,
        A.lock_waits s.queue s.image o i,
        A.lock_returns s.queue s.image o i,
        A.lock_others s.queue s.image o i j,
      );
      sleeping = λ j b. ground (
        arith,
        sleeping j,
        A.lock_waits s.queue s.image o i,
        A.lock_others s.queue s.image o i j,
      );
      pending = λ j b. ground (arith, pending j);
      marks = λ j. ground (arith, marks j);
    }

    pub unlock-Inv :
        s.pc i ≡ unlocking
        → Inv (record s {
          image = (A.unlock s.queue).1;
          queue = (A.unlock s.queue).0;
          pc = wake (update_pc s.pc i outside) (A.unlock s.queue).2;
        })
    unlock-Inv e = elim (Option-cases (A.unlock s.queue).2) [
      | inl none_left ↦
          let (zeroed, nobody, same) = A.unlock_none s.queue none_left in
          rw (none_left, zeroed, same)
            (record {
              fits = omega arith;
              owned = λ j q. ground (arith, owned j, owned i);
              held = λ j q n. ground arith;
              proper = λ q. cc;
              asleep = λ j q. ground (arith, nobody j);
              sleeping = λ j b. ground (arith, sleeping j, nobody j);
              pending = λ j b. ground (arith, owned j, owned i);
              marks = λ j. ground (arith, marks j);
            })
      | inr (w, woken) ↦
          let (was, gone, word, more, others) = A.unlock_some s.queue w woken in
          rw woken (record {
            fits = ground (arith, asleep w);
            owned = λ j q. ground (arith, owned j, owned i);
            held = λ j q n. ground (arith, asleep w);
            proper = λ q. ground (arith, asleep w);
            asleep = λ j q. ground (arith, asleep j, asleep w, others j, more j);
            sleeping = λ j b. ground (arith, sleeping j, others j);
            pending = λ j b. ground (arith, owned j, owned i);
            marks = λ j. ground (arith, marks j);
          })
    ]
