-- ===== src/KernelEvent/Life.antt =====
-- Kernel events over the calls of libhydrosphere/include/hs/svc/svc_api.hpp: an event is created,
-- signaled, polled and cleared.
use hydrosphere.Common.{
  ℕ, ◌^◌, ◌-◌, ◌≡◌, refl, Bool, true, false, not, ◌&&◌, [], ◌∷◌, arith, Bool-cases, inl, inr,
  if◌then◌else◌,
}
use hydrosphere.Svc.{Handle, Result, is_ok, returns}
use hydrosphere.Svc.Stubs.{Stubs}
use hydrosphere.Svc.Api.{
  create_event, wait_synchronization, reset_signal, signal_event, clear_event, close_handle,
}
use hydrosphere.Optional.{set_value}
use hydrosphere.KernelEvent.{
  initialized, EventCalls, KernelEvent, is_invalid_state, is_timeout, create_kernel_event,
  signal_kernel_event, clear_kernel_event, get_kernel_event_handle, is_kernel_event_signaled,
  poll_loop,
}
use hydrosphere.KernelEvent.Loops.{EventLaws, is_definite}

-- The time limits that the calls on events give: -1 for none, and 0 for a poll.
abbrev time_limit : (forever : Bool) → ℕ
time_limit forever = if forever then 2 ^ 64 - 1 else 0

-- The system calls as os_kernelevent_api.cpp makes them: a wait is for one handle.
abbrev pub event_calls : Stubs → EventCalls
event_calls K = record {
  State = K.State;
  create_event = create_event K;
  wait_synchronization = λ s h forever.
      let (result, index, t) = wait_synchronization K s (h ∷ []) 1 (time_limit forever) in
      (result, t);
  reset_signal = reset_signal K;
  signal_event = signal_event K;
  clear_event = clear_event K;
  close_handle = close_handle K;
}

-- A poll answers `answer` in its first round, and leaves the state `u`.
abbrev pub Polls : (E : EventCalls) → KernelEvent → E.State → (answer : Bool) → E.State → Type 0
Polls E e s answer u = is_kernel_event_signaled E 1 e s ≡ returns answer u

-- What the kernel documents of its events. `paired s w r`: at `s` the handles are the writable and the
-- readable one of an event.
pub record StubLaws (K : Stubs) : Type 1 where
  pub signaled : K.State → Handle → Bool
  pub paired : K.State → (w r : Handle) → Type 0
  pub wait_ok :
      (s : K.State) (h : Handle) (timeout : ℕ)
      → let (result, index, t) = K.wait_synchronization s (h ∷ []) 1 timeout in
        is_ok result ≡ true → signaled t h ≡ true
  pub wait_late :
      (s : K.State) (h : Handle) (timeout : ℕ)
      → let (result, index, t) = K.wait_synchronization s (h ∷ []) 1 timeout in
        is_timeout result ≡ true → signaled t h ≡ false
  pub poll :
      (s : K.State) (w r : Handle)
      → paired s w r
      → let (result, index, t) = K.wait_synchronization s (r ∷ []) 1 0 in
        (is_definite result ≡ true) × (t ≡ s)
  pub reset_signaled :
      (s : K.State) (h : Handle)
      → signaled s h ≡ true
      → (is_ok (K.reset_signal s h).0 ≡ true) × (signaled (K.reset_signal s h).1 h ≡ false)
  pub reset_unsignaled :
      (s : K.State) (h : Handle)
      → signaled s h ≡ false
      → (is_invalid_state (K.reset_signal s h).0 ≡ true) × ((K.reset_signal s h).1 ≡ s)
  pub reset_keeps : (s : K.State) (w r : Handle) → paired s w r → paired (K.reset_signal s r).1 w r
  pub create :
      (s : K.State)
      → let (result, w, r, t) = K.create_event s in
        is_ok result ≡ true → paired t w r × (signaled t r ≡ false)
  pub signal :
      (s : K.State) (w r : Handle)
      → paired s w r
      → let (result, t) = K.signal_event s w in
        (is_ok result ≡ true) × paired t w r × (signaled t r ≡ true)
  pub clear :
      (s : K.State) (w r : Handle)
      → paired s w r
      → let (result, t) = K.clear_event s r in
        (is_ok result ≡ true) × paired t w r × (signaled t r ≡ false)

module _ (K : Stubs) (L : StubLaws K) where
  pub event_laws : EventLaws (event_calls K)
  unfolding wait_synchronization reset_signal
  event_laws = record {
    signaled = L.signaled;
    wait_ok = λ s h forever ok. L.wait_ok s h (time_limit forever) ok;
    wait_timeout = λ s h forever late. L.wait_late s h (time_limit forever) late;
    reset_signaled = L.reset_signaled;
    reset_unsignaled = L.reset_unsignaled;
  }

  reset_answer :
      (s : K.State) (r : Handle)
      → (is_ok (K.reset_signal s r).0 ≡ L.signaled s r)
        × (L.signaled (K.reset_signal s r).1 r ≡ false)
  unfolding is_ok
  reset_answer s r = elim (Bool-cases (L.signaled s r)) [
    | inl on ↦ let (ok, off) = L.reset_signaled s r on in (rw (ok, on) refl, off)
    | inr off ↦
        let (bad, same) = L.reset_unsignaled s r off in (ground (arith, bad, off), rw same off)
  ]

  poll_answer :
      (s : K.State) (w r : Handle)
      → L.paired s w r
      → let answer : Result × ℕ × K.State = K.wait_synchronization s (r ∷ []) 1 0 in
        (is_ok answer.0 ≡ L.signaled s r)
        × (is_timeout answer.0 ≡ not (L.signaled s r))
        × (answer.2 ≡ s)
  unfolding is_ok
  poll_answer s w r p =
      let (sure, same) = L.poll s w r p in
      let answer : Result × ℕ × K.State = K.wait_synchronization s (r ∷ []) 1 0 in
      let on : is_ok answer.0 ≡ true → L.signaled s r ≡ true =
        λ ok. rw same at (L.wait_ok s r 0 ok) in
      let off : is_timeout answer.0 ≡ true → L.signaled s r ≡ false =
        λ late. rw same at (L.wait_late s r 0 late) in
      (ground (arith, sure, on, off), ground (arith, sure, on, off), same)

  -- A poll says whether the event is signaled, and takes the signal of an event that is cleared
  -- automatically.
  poll-paired :
      (e : KernelEvent) (s : K.State) (w : Handle)
      → L.paired s w e.readable_handle.value
      → let r : Handle = e.readable_handle.value in
        (t : K.State) × (is_kernel_event_signaled (event_calls K) 1 e s
          ≡ returns (L.signaled s r) t)
        × L.paired t w r
        × (L.signaled t r ≡ (L.signaled s r && not e.is_auto_clear))
  unfolding is_kernel_event_signaled poll_loop reset_signal wait_synchronization
  poll-paired e s w p =
      let r = e.readable_handle.value in
      let (asked, off) = reset_answer s r in
      let (ok, late, same) = poll_answer s w r p in
      elim (Bool-cases e.is_auto_clear) [
        | inl auto ↦ (
          (K.reset_signal s r).1,
          rw (auto, asked) refl,
          L.reset_keeps s w r p,
          ground (arith, auto, off),
        )
        | inr keep ↦ elim (Bool-cases (L.signaled s r)) [
          | inl on ↦ (s, rw (keep, ok, on, same) refl, p, rw (keep, on) refl)
          | inr out ↦ (s, rw (keep, ok, late, out, same) refl, p, rw (keep, out) refl)
        ]
      ]

  clear_call :
      (e : KernelEvent) (s : K.State)
      → e.readable_handle.has_value ≡ true
      → clear_kernel_event (event_calls K) e s ≡ K.clear_event s e.readable_handle.value
  unfolding clear_kernel_event get_kernel_event_handle clear_event
  clear_call e s readable = rw readable refl

  -- The calls after the creation.
  signal-clear :
      (e : KernelEvent) (s : K.State)
      → e.readable_handle.has_value ≡ true
      → L.paired s e.writable_handle.value e.readable_handle.value
      → L.signaled s e.readable_handle.value ≡ false
      → let E : EventCalls = event_calls K in
        (s1 : K.State) × (s2 : K.State) × (s3 : K.State) × (s4 : K.State) × Polls E e s false s1
        × (is_ok (signal_kernel_event E e s1).0 ≡ true)
        × Polls E e (signal_kernel_event E e s1).1 true s2
        × Polls E e s2 (not e.is_auto_clear) s3
        × (is_ok (clear_kernel_event E e s3).0 ≡ true)
        × Polls E e (clear_kernel_event E e s3).1 false s4
  unfolding signal_kernel_event signal_event
  signal-clear e s readable p off =
      let w = e.writable_handle.value in
      let r = e.readable_handle.value in
      let (s1, a1, p1, off1) = poll-paired e s w p in
      let (ok, p2, on2) = L.signal s1 w r p1 in
      let (s2, a2, p3, on3) = poll-paired e (K.signal_event s1 w).1 w p2 in
      let (s3, a3, p4, on4) = poll-paired e s2 w p3 in
      let (ok', p5, off5) = L.clear s3 w r p4 in
      let (s4, a4, p6, off6) = poll-paired e (K.clear_event s3 r).1 w p5 in
      let call = clear_call e s3 readable in
      (
        s1,
        s2,
        s3,
        s4,
        rw off at a1,
        ok,
        rw on2 at a2,
        rw (on3, on2) at a3,
        rw call ok',
        rw call (rw off5 at a4),
      )

  created :
      (e : KernelEvent) (auto : Bool) (s : K.State)
      → is_ok (K.create_event s).0 ≡ true
      → create_kernel_event (event_calls K) auto e s ≡ (
        (K.create_event s).0,
        record e {
          state = initialized;
          readable_handle = set_value (K.create_event s).2 e.readable_handle;
          writable_handle = set_value (K.create_event s).1 e.writable_handle;
          is_auto_clear = auto;
        },
        (K.create_event s).3,
      )
  unfolding create_kernel_event create_event
  created e auto s ok = rw ok refl

  -- If the kernel creates an event, then whether it is cleared automatically or not: a first poll says
  -- that it is not signaled; `SignalKernelEvent` succeeds, and the next poll says that it is signaled;
  -- the poll after that says so again exactly if the event is not cleared automatically; and
  -- `ClearKernelEvent` succeeds, after which a poll says that it is not signaled. Every poll ends in its
  -- first round.
  pub create-signal-clear :
      (e : KernelEvent) (auto : Bool) (s : K.State)
      → is_ok (K.create_event s).0 ≡ true
      → let E : EventCalls = event_calls K in
        let made : KernelEvent = (create_kernel_event E auto e s).1 in
        (s1 : K.State) × (s2 : K.State) × (s3 : K.State) × (s4 : K.State) × Polls E made
          (create_kernel_event E auto e s).2
          false
          s1
        × (is_ok (signal_kernel_event E made s1).0 ≡ true)
        × Polls E made (signal_kernel_event E made s1).1 true s2
        × Polls E made s2 (not auto) s3
        × (is_ok (clear_kernel_event E made s3).0 ≡ true)
        × Polls E made (clear_kernel_event E made s3).1 false s4
  create-signal-clear e auto s ok =
      let (p, off) = L.create s ok in rw (created e auto s ok) (signal-clear _ _ refl p off)
