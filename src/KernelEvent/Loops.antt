-- ===== src/KernelEvent/Loops.antt =====
-- The loops of `WaitKernelEvent` and `IsKernelEventSignaled`.
use hydrosphere.Common.{
  ℕ, zero, suc, ◌≡◌, refl, Bool, true, false, not, arith, Bool-cases, inl, inr, ◌||◌, ◌<◌, ◌≤◌, ◌⊎◌,
  leb, if◌then◌else◌,
}
use hydrosphere.Svc.{Handle, Result, is_ok, is_err, returns, aborts, unfinished}
use hydrosphere.KernelEvent.{
  EventCalls, KernelEvent, is_invalid_state, is_timeout, wait_loop, reset_loop, wait_kernel_event,
  poll_loop, is_kernel_event_signaled,
}

-- What the kernel documents of each of its calls on an event, at the time of the call: a wait that succeeds leaves it signaled, and
-- one that times out does not; `ResetSignal` succeeds on a signaled event and clears it, and reports
-- an invalid state for any other.
pub record EventLaws (K : EventCalls) : Type 0 where
  pub signaled : K.State → Handle → Bool
  pub wait_ok :
      (s : K.State) (h : Handle) (forever : Bool)
      → is_ok (K.wait_synchronization s h forever).0 ≡ true
      → signaled (K.wait_synchronization s h forever).1 h ≡ true
  pub wait_timeout :
      (s : K.State) (h : Handle) (forever : Bool)
      → is_timeout (K.wait_synchronization s h forever).0 ≡ true
      → signaled (K.wait_synchronization s h forever).1 h ≡ false
  pub reset_signaled :
      (s : K.State) (h : Handle)
      → signaled s h ≡ true
      → (is_ok (K.reset_signal s h).0 ≡ true) × (signaled (K.reset_signal s h).1 h ≡ false)
  pub reset_unsignaled :
      (s : K.State) (h : Handle)
      → signaled s h ≡ false
      → (is_invalid_state (K.reset_signal s h).0 ≡ true) × ((K.reset_signal s h).1 ≡ s)

ok-not-invalid : (r : Result) → is_ok r ≡ true → is_invalid_state r ≡ false
unfolding is_ok
ok-not-invalid r e = ground arith

invalid-not-ok : (r : Result) → is_invalid_state r ≡ true → is_ok r ≡ false
unfolding is_ok
invalid-not-ok r e = ground arith

-- Success, or a timeout.
abbrev pub is_definite : Result → Bool
is_definite r = is_ok r || is_timeout r

not_definite : (r : Result) → is_definite r ≡ false → (is_ok r ≡ false) × (is_timeout r ≡ false)
not_definite r e = ground arith

module _ (K : EventCalls) where
  -- The state after the kernel has answered `k` waits, or `j` calls of `ResetSignal`.
  abbrev pub after_waits : ℕ → Handle → K.State → K.State
  after_waits zero h s = s
  after_waits (suc k) h s = after_waits k h (K.wait_synchronization s h true).1

  abbrev pub after_resets : ℕ → Handle → K.State → K.State
  after_resets zero h s = s
  after_resets (suc j) h s = after_resets j h (K.reset_signal s h).1

  -- The kernel answers the first `k` waits with an error, and the first `j` calls of `ResetSignal` with
  -- an invalid state.
  abbrev pub Fails : ℕ → Handle → K.State → Type 0
  Fails k h s =
      (i : ℕ) → i < k → is_ok (K.wait_synchronization (after_waits i h s) h true).0 ≡ false

  abbrev pub Lacks : ℕ → Handle → K.State → Type 0
  Lacks j h s = (i : ℕ) → i < j → is_invalid_state (K.reset_signal (after_resets i h s) h).0 ≡ true

  abbrev pub waited : ℕ → Handle → K.State → Result × K.State
  waited k h s = K.wait_synchronization (after_waits k h s) h true

  abbrev pub reset : ℕ → Handle → K.State → Result × K.State
  reset j h s = K.reset_signal (after_resets j h s) h

  wait_loop_lem :
      (k n : ℕ) (h : Handle) (s : K.State)
      → Fails k h s
      → (n ≤ k) ⊎ (is_ok (waited k h s).0 ≡ true)
      → wait_loop K n h s ≡ (if leb n k then unfinished else returns tt (waited k h s).1)
  unfolding wait_loop is_err
  wait_loop_lem k zero h s fails done = ground arith
  wait_loop_lem zero (suc n) h s fails done = ground arith
  wait_loop_lem (suc k) (suc n) h s fails done =
      let first : is_ok (K.wait_synchronization s h true).0 ≡ false = fails 0 (omega arith) in
      let next : (n ≤ k) ⊎ (is_ok (waited (suc k) h s).0 ≡ true) = elim done [
        | inl few ↦ inl (omega arith)
        | inr ok ↦ inr ok
      ] in
      let rest =
        wait_loop_lem k n h (K.wait_synchronization s h true).1
          (λ i lt. fails (suc i) (omega arith)) next in
      ground (arith, rest)

  reset_loop_lem :
      (j n : ℕ) (h : Handle) (s : K.State)
      → Lacks j h s
      → (n ≤ j) ⊎ (is_invalid_state (reset j h s).0 ≡ false)
      → reset_loop K n h s ≡ (
          if leb n j
          then unfinished
          else (if is_ok (reset j h s).0 then returns tt (reset j h s).1 else aborts))
  unfolding reset_loop
  reset_loop_lem j zero h s lacks done = ground arith
  reset_loop_lem zero (suc n) h s lacks done = ground arith
  reset_loop_lem (suc j) (suc n) h s lacks done =
      let first : is_invalid_state (K.reset_signal s h).0 ≡ true = lacks 0 (omega arith) in
      let next : (n ≤ j) ⊎ (is_invalid_state (reset (suc j) h s).0 ≡ false) = elim done [
        | inl few ↦ inl (omega arith)
        | inr ok ↦ inr ok
      ] in
      let rest =
        reset_loop_lem j n h (K.reset_signal s h).1 (λ i lt. lacks (suc i) (omega arith)) next in
      ground (arith, rest)

  abbrev pub handle_of : KernelEvent → Handle
  handle_of e = e.readable_handle.value

  -- What `ResetSignal` answers after `k + 1` waits and `j` calls of it.
  abbrev pub resets_after : ℕ → ℕ → KernelEvent → K.State → Result × K.State
  resets_after k j e s = reset j (handle_of e) (waited k (handle_of e) s).1

  -- What `WaitKernelEvent` does in `n` rounds of each of its loops, whatever the kernel answers and
  -- whatever other threads do to the event in between. If `k` waits fail before one succeeds, it is
  -- still in the first loop when `n` is at most `k`; else it goes on. An event that is not cleared
  -- automatically then makes it return at once. For any other, if `j` calls of `ResetSignal` find the
  -- event not signaled before one does not, it is still in the second loop when `n` is at most `j`;
  -- else it returns if that call succeeds and aborts if that call fails.
  -- A thread whose signal another thread took hence does not wait again: it stays in the second loop for
  -- as long as `ResetSignal` finds no signal.
  pub wait_kernel_event_lem :
      (k j n : ℕ) (e : KernelEvent) (s : K.State)
      → Fails k (handle_of e) s
      → (n ≤ k) ⊎ (is_ok (waited k (handle_of e) s).0 ≡ true)
      → Lacks j (handle_of e) (waited k (handle_of e) s).1
      → (n ≤ j) ⊎ (is_invalid_state (resets_after k j e s).0 ≡ false)
      → wait_kernel_event K n e s ≡ (
          if leb n k
          then unfinished
          else (if not e.is_auto_clear
              then returns tt (waited k (handle_of e) s).1
              else (if leb n j
                  then unfinished
                  else (if is_ok (resets_after k j e s).0
                      then returns tt (resets_after k j e s).1
                      else aborts))))
  unfolding wait_kernel_event
  wait_kernel_event_lem k j n e s fails done lacks found =
      let h = e.readable_handle.value in
      let waits = wait_loop_lem k n h s fails done in
      let resets = reset_loop_lem j n h (waited k h s).1 lacks found in
      elim (Bool-cases (leb n k)) [
        | inl few ↦ rw (waits, wait_kernel_event) (rw few refl)
        | inr enough ↦ rw (waits, wait_kernel_event) (rw enough (ground (arith, resets)))
      ]

module _ (K : EventCalls) (L : EventLaws K) where
  abbrev pub after_polls : ℕ → Handle → K.State → K.State
  after_polls zero h s = s
  after_polls (suc k) h s = after_polls k h (K.wait_synchronization s h false).1

  -- A round with a definite answer is the last one.
  poll_loop_now :
      (n : ℕ) (h : Handle) (s : K.State)
      → is_definite (K.wait_synchronization s h false).0 ≡ true
      → (b : Bool) × (t : K.State) × (poll_loop K (suc n) h s ≡ returns b t) × (L.signaled t h ≡ b)
  unfolding poll_loop
  poll_loop_now n h s sure =
      let t = (K.wait_synchronization s h false).1 in
      elim (Bool-cases (is_ok (K.wait_synchronization s h false).0)) [
        | inl ok ↦ (true, t, rw ok, L.wait_ok s h false ok)
        | inr err ↦
            let late : is_timeout (K.wait_synchronization s h false).0 ≡ true = rw err at sure in
            (false, t, rw (err, late), L.wait_timeout s h false late)
      ]

  poll_loop-returns :
      (k n : ℕ) (h : Handle) (s : K.State)
      → is_definite (K.wait_synchronization (after_polls k h s) h false).0 ≡ true
      → k < n
      → (b : Bool) × (t : K.State) × (poll_loop K n h s ≡ returns b t) × (L.signaled t h ≡ b)
  unfolding poll_loop
  poll_loop-returns k zero h s sure enough = absurd (omega arith)
  poll_loop-returns zero (suc n) h s sure enough = poll_loop_now n h s sure
  poll_loop-returns (suc k) (suc n) h s sure enough =
      elim (Bool-cases (is_definite (K.wait_synchronization s h false).0)) [
        | inl now ↦ poll_loop_now n h s now
        | inr later ↦
            let (err, other) = not_definite (K.wait_synchronization s h false).0 later in
            rw (err, other)
              (poll_loop-returns k n h (K.wait_synchronization s h false).1 sure (omega arith))
      ]

  -- `IsKernelEventSignaled` of an event that is not cleared automatically returns, within `k + 1`
  -- rounds, if the kernel answers a poll with success or a timeout after at most `k` other errors;
  -- and the answer is whether the event is signaled.
  pub is_kernel_event_signaled-polls :
      (k n : ℕ) (e : KernelEvent) (s : K.State)
      → e.is_auto_clear ≡ false
      → is_definite
          (K.wait_synchronization
            (after_polls k e.readable_handle.value s)
            e.readable_handle.value
            false).0
        ≡ true
      → k < n
      → (b : Bool) × (t : K.State) × (is_kernel_event_signaled K n e s ≡ returns b t)
        × (L.signaled t e.readable_handle.value ≡ b)
  unfolding is_kernel_event_signaled
  is_kernel_event_signaled-polls k n e s keep sure enough =
      rw keep (poll_loop-returns k n e.readable_handle.value s sure enough)

  -- `IsKernelEventSignaled` of an event that is cleared automatically says whether it is signaled,
  -- takes the signal, and never waits.
  pub is_kernel_event_signaled-takes :
      (n : ℕ) (e : KernelEvent) (s : K.State)
      → e.is_auto_clear ≡ true
      → (t : K.State) × (is_kernel_event_signaled K n e s
          ≡ returns (L.signaled s e.readable_handle.value) t)
        × (L.signaled t e.readable_handle.value ≡ false)
  unfolding is_kernel_event_signaled
  is_kernel_event_signaled-takes n e s auto =
      let h = e.readable_handle.value in
      elim (Bool-cases (L.signaled s h)) [
        | inl set ↦
            let (ok, cleared) = L.reset_signaled s h set in
            ((K.reset_signal s h).1, rw (auto, set, ok), cleared)
        | inr clear ↦
            let (bad, same) = L.reset_unsignaled s h clear in
            (s, rw (auto, clear, invalid-not-ok _ bad, same), clear)
      ]
