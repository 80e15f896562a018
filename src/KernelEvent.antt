-- ===== src/KernelEvent.antt =====
-- The kernel event of libhydrosphere/source/common/os/os_kernelevent_api.cpp.
pub mod Loops
pub mod Handles
pub mod Life
use hydrosphere.Common.{ℕ, zero, suc, Bool, true, false, ◌≡◌, ◌==◌, if◌then◌else◌}
use hydrosphere.Svc.{
  Handle, Result, is_ok, is_err, code_of, no_handle, Ending, returns, aborts, unfinished,
}
use hydrosphere.Optional.{Optional, no_value, set_value, get_value}

-- The system calls on events and handles, and on whatever state the kernel and the other threads
-- have. Each gives the result that the caller sees and the state after the call.
pub record EventCalls : Type 1 where
  pub State : Type 0
  -- result, writable handle, readable handle
  pub create_event : State → Result × Handle × Handle × State
  pub wait_synchronization : State → Handle → (forever : Bool) → Result × State
  pub reset_signal : State → Handle → Result × State
  pub signal_event : State → Handle → Result × State
  pub clear_event : State → Handle → Result × State
  pub close_handle : State → Handle → Result × State

-- enum KernelEventState
abbrev pub uninitialized : ℕ
uninitialized = 0

abbrev pub initialized : ℕ
initialized = 1

pub record KernelEvent : Type 0 where
  pub state : ℕ
  pub is_auto_clear : Bool
  pub readable_handle : Optional Handle
  pub writable_handle : Optional Handle

-- The descriptions that the loops test: 0xFA01 is an invalid state, 0xEA01 a timeout.
abbrev pub is_invalid_state : Result → Bool
is_invalid_state r = code_of r == 0xFA01

abbrev pub is_timeout : Result → Bool
is_timeout r = code_of r == 0xEA01

unfoldable pub load_kernel_event : (readable writable : Optional Handle) → KernelEvent → KernelEvent
load_kernel_event r w e = record e { state = initialized; readable_handle = r; writable_handle = w }

unfoldable pub get_kernel_event_handle : KernelEvent → Handle
get_kernel_event_handle e =
    if e.readable_handle.has_value then get_value e.readable_handle else get_value e.writable_handle

unfoldable pub pop_readable_handle : KernelEvent → Handle × KernelEvent
pop_readable_handle e =
    (get_value e.readable_handle, record e { readable_handle = no_value no_handle })

unfoldable pub pop_writable_handle : KernelEvent → Handle × KernelEvent
pop_writable_handle e =
    (get_value e.writable_handle, record e { writable_handle = no_value no_handle })

module _ (K : EventCalls) where
  open K use {
    State, create_event, wait_synchronization, reset_signal, signal_event, clear_event,
    close_handle,
  }

  unfoldable pub create_kernel_event :
      (is_auto_clear : Bool) → KernelEvent → State → Result × KernelEvent × State
  create_kernel_event auto e s =
      let (result, writable, readable, s') = create_event s in
      if is_ok result
      then (
        result,
        record e {
          state = initialized;
          readable_handle = set_value readable e.readable_handle;
          writable_handle = set_value writable e.writable_handle;
          is_auto_clear = auto;
        },
        s',
      )
      else (result, e, s')

  -- The `while` of `WaitKernelEvent`: again until the wait succeeds.
  unfoldable pub wait_loop : ℕ → Handle → State → Ending State (Unit {0})
  wait_loop zero h s = unfinished
  wait_loop (suc n) h s =
      let (result, s') = wait_synchronization s h true in
      let rest = wait_loop n h s' in if is_err result then rest else returns tt s'

  -- The `do … while` of `WaitKernelEvent`, and the abort behind it.
  unfoldable pub reset_loop : ℕ → Handle → State → Ending State (Unit {0})
  reset_loop zero h s = unfinished
  reset_loop (suc n) h s =
      let (result, s') = reset_signal s h in
      let rest = reset_loop n h s' in
      if is_invalid_state result then rest else (if is_ok result then returns tt s' else aborts)

  unfoldable pub wait_kernel_event : ℕ → KernelEvent → State → Ending State (Unit {0})
  wait_kernel_event n e s = elim (wait_loop n (get_value e.readable_handle) s) [
    | returns _ s' ↦
        if e.is_auto_clear then reset_loop n (get_value e.readable_handle) s' else returns tt s'
    | aborts ↦ aborts
    | unfinished ↦ unfinished
  ]

  -- The `while (true)` of `IsKernelEventSignaled`, for an event that is not cleared.
  unfoldable pub poll_loop : ℕ → Handle → State → Ending State Bool
  poll_loop zero h s = unfinished
  poll_loop (suc n) h s =
      let (result, s') = wait_synchronization s h false in
      let rest = poll_loop n h s' in
      if is_ok result
      then returns true s'
      else (if is_timeout result then returns false s' else rest)

  unfoldable pub is_kernel_event_signaled : ℕ → KernelEvent → State → Ending State Bool
  is_kernel_event_signaled n e s =
      if e.is_auto_clear
      then (let (result, s') = reset_signal s (get_value e.readable_handle) in
          returns (is_ok result) s')
      else poll_loop n (get_value e.readable_handle) s

  unfoldable pub signal_kernel_event : KernelEvent → State → Result × State
  signal_kernel_event e s = signal_event s (get_value e.writable_handle)

  unfoldable pub clear_kernel_event : KernelEvent → State → Result × State
  unfolding get_kernel_event_handle
  clear_kernel_event e s = clear_event s (get_kernel_event_handle e)

  unfoldable pub destroy_kernel_event : KernelEvent → State → KernelEvent × State
  destroy_kernel_event e s =
      let s1 =
        if e.readable_handle.has_value
        then (close_handle s (get_value e.readable_handle)).1
        else s in
      let s2 =
        if e.writable_handle.has_value
        then (close_handle s1 (get_value e.writable_handle)).1
        else s1 in
      (
        record e {
          readable_handle = no_value no_handle;
          writable_handle = no_value no_handle;
          is_auto_clear = false;
          state = uninitialized;
        },
        s2,
      )
