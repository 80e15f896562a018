-- ===== src/KernelEvent/Handles.antt =====
-- Which handles a kernel event holds, and which are closed.
use hydrosphere.Common.{◌≡◌, refl, true, Bool}
use hydrosphere.Svc.{Handle, is_ok}
use hydrosphere.KernelEvent.{
  EventCalls, KernelEvent, initialized, load_kernel_event, get_kernel_event_handle,
  pop_readable_handle, pop_writable_handle, create_kernel_event, destroy_kernel_event,
}

-- Popping the two handles of an event that was loaded with them gives them back, each once: after
-- it no handle is left, and destroying the event closes none. After the readable handle is popped,
-- the calls that take either handle use the writable one.
pub load-pop :
    (K : EventCalls) (e : KernelEvent) (r w : Handle) (s : K.State)
    → let loaded : KernelEvent =
        load_kernel_event
          (record { has_value = true; value = r })
          (record { has_value = true; value = w })
          e in
      let first : Handle × KernelEvent = pop_readable_handle loaded in
      let second : Handle × KernelEvent = pop_writable_handle first.1 in
      (loaded.state ≡ initialized)
      × (get_kernel_event_handle loaded ≡ r)
      × (first.0 ≡ r)
      × (get_kernel_event_handle first.1 ≡ w)
      × (second.0 ≡ w)
      × ((destroy_kernel_event K second.1 s).1 ≡ s)
unfolding load_kernel_event get_kernel_event_handle pop_readable_handle pop_writable_handle
    destroy_kernel_event
load-pop K e r w s = (refl, refl, refl, refl, refl, refl)

module _ (K : EventCalls) (e : KernelEvent) where
  -- If the kernel creates the pair of handles, `CreateKernelEvent` stores both, and a destruction
  -- that follows closes exactly these two.
  pub create-destroy :
      (auto : Bool) (s : K.State)
      → is_ok (K.create_event s).0 ≡ true
      → let (result, w, r, s') = K.create_event s in
        let (code, made, t) = create_kernel_event K auto e s in
        (code ≡ result)
        × (made.state ≡ initialized)
        × (made.is_auto_clear ≡ auto)
        × (get_kernel_event_handle made ≡ r)
        × ((destroy_kernel_event K made t).1 ≡ (K.close_handle (K.close_handle s' r).1 w).1)
  unfolding create_kernel_event destroy_kernel_event get_kernel_event_handle
  create-destroy auto s ok = (rw ok refl, rw ok refl, rw ok refl, rw ok refl, rw ok refl)
