-- ===== src/Thread/Creation/Attempts.antt =====
-- The attempts of `CreateThreadUnsafe`.
use hydrosphere.Common.{ℕ, zero, suc, ◌+◌, ◌≤◌, ◌≡◌, refl, true, false, arith, u64}
use hydrosphere.Svc.{Handle, Result, is_ok, returns, aborts}
use hydrosphere.Thread.{ThreadCalls, Thread, out_of_resources, is_exhausted}
use hydrosphere.Thread.Creation.{create_loop, create_thread_unsafe}

module _ (K : ThreadCalls) (entry address cpuid : ℕ) where
  abbrev pub attempt : Thread → K.State → Result × Handle × K.State
  attempt t k =
      K.create_thread k entry address (u64 (t.mapped_thread_stack + t.thread_stack_size)) t.priority
        cpuid

  -- The kernel's state after `j` attempts.
  abbrev pub after_attempts : ℕ → Thread → K.State → K.State
  after_attempts zero t k = k
  after_attempts (suc j) t k = after_attempts j t (attempt t k).2

  -- The first `j` attempts find the kernel's resources exhausted.
  pub data Exhausts (t : Thread) : ℕ → K.State → Type 0 where
    no_more : {k : K.State} → Exhausts t 0 k
    once_more :
        {j : ℕ} {k : K.State}
        → is_ok (attempt t k).0 ≡ false
        → is_exhausted (attempt t k).0 ≡ true
        → Exhausts t j (attempt t k).2
        → Exhausts t (suc j) k

  create_loop-succeeds :
      (j left : ℕ) (t : Thread) (k : K.State)
      → Exhausts t j k
      → j ≤ left
      → is_ok (attempt t (after_attempts j t k)).0 ≡ true
      → create_loop K left entry address cpuid t k
        ≡ returns
            (
              (attempt t (after_attempts j t k)).0,
              record t { thread_handle = (attempt t (after_attempts j t k)).1 },
            )
            (attempt t (after_attempts j t k)).2
  unfolding create_loop
  create_loop-succeeds zero zero t k e b ok = rw ok refl
  create_loop-succeeds zero (suc left) t k e b ok = rw ok refl
  create_loop-succeeds (suc j) zero t k e b ok = absurd (omega arith)
  create_loop-succeeds (suc j) (suc left) t k (once_more bad full e) b ok =
      rw (bad, full) (create_loop-succeeds j left t (attempt t k).2 e (omega arith) ok)

  create_loop-gives_up :
      (left : ℕ) (t : Thread) (k : K.State)
      → Exhausts t (suc left) k
      → create_loop K left entry address cpuid t k
        ≡ returns (out_of_resources, t) (after_attempts (suc left) t k)
  unfolding create_loop
  create_loop-gives_up zero t k (once_more bad full e) = rw (bad, full) refl
  create_loop-gives_up (suc left) t k (once_more bad full e) =
      rw (bad, full) (create_loop-gives_up left t (attempt t k).2 e)

  -- An attempt that fails with another error aborts.
  pub create_loop-aborts :
      (j left : ℕ) (t : Thread) (k : K.State)
      → Exhausts t j k
      → j ≤ left
      → is_ok (attempt t (after_attempts j t k)).0 ≡ false
      → is_exhausted (attempt t (after_attempts j t k)).0 ≡ false
      → create_loop K left entry address cpuid t k ≡ aborts
  unfolding create_loop
  create_loop-aborts zero zero t k e b bad other = rw (bad, other) refl
  create_loop-aborts zero (suc left) t k e b bad other = rw (bad, other) refl
  create_loop-aborts (suc j) zero t k e b bad other = absurd (omega arith)
  create_loop-aborts (suc j) (suc left) t k (once_more full more e) b bad other =
      rw (full, more) (create_loop-aborts j left t (attempt t k).2 e (omega arith) bad other)

  -- If the kernel's resources are exhausted for the first `j ≤ 8` attempts and the next one
  -- succeeds, `CreateThreadUnsafe` returns its result with its handle in the thread.
  pub create_thread_unsafe-succeeds :
      (j : ℕ) (t : Thread) (k : K.State)
      → Exhausts t j k
      → j ≤ 8
      → is_ok (attempt t (after_attempts j t k)).0 ≡ true
      → create_thread_unsafe K entry address cpuid t k
        ≡ returns
            (
              (attempt t (after_attempts j t k)).0,
              record t { thread_handle = (attempt t (after_attempts j t k)).1 },
            )
            (attempt t (after_attempts j t k)).2
  create_thread_unsafe-succeeds j t k e b ok = create_loop-succeeds j 8 t k e b ok

  -- If the kernel's resources are exhausted for nine attempts, `CreateThreadUnsafe` returns the
  -- result 0x1203 after these nine and leaves the thread as it is.
  pub create_thread_unsafe-gives_up :
      (t : Thread) (k : K.State)
      → Exhausts t 9 k
      → create_thread_unsafe K entry address cpuid t k
        ≡ returns (out_of_resources, t) (after_attempts 9 t k)
  create_thread_unsafe-gives_up t k e = create_loop-gives_up 8 t k e
