-- ===== src/Thread/Entry/Invariant.antt =====
-- What holds in every state of a thread's life, and that each kind of step keeps it.
use hydrosphere.Common.{
  ℕ, ◌≡◌, refl, Bool, true, false, not, ◌&&◌, ◌||◌, ◌==◌, if◌then◌else◌, arith,
}
use hydrosphere.Thread.{ThreadState, uninitialized, destroyed, started, exited}
use hydrosphere.Thread.Entry.{
  EntryPc, unborn, entering, testing, sleeping, admitted, dismissed, calling, finishing, recording,
  announcing, departing, ending, gone, ControlPc, elsewhere, start_entering, start_writing,
  destroy_entering, destroy_writing, destroy_asking, destroy_signaling, destroy_leaving,
  destroy_waiting, reap_entering, reap_writing, reap_leaving, wait_waiting, wait_entering,
  wait_leaving, nobody, itself, controller, Life, created, entry_ready, entry_step, is_unborn,
  is_gone, is_initialized, is_beginning, update_control, control_ready, control_step,
}

abbrev is_started : ThreadState → Bool
is_started started = true
is_started _ = false

abbrev is_destroyed : ThreadState → Bool
is_destroyed destroyed = true
is_destroyed _ = false

abbrev is_exited : ThreadState → Bool
is_exited exited = true
is_exited _ = false

abbrev is_uninitialized : ThreadState → Bool
is_uninitialized uninitialized = true
is_uninitialized _ = false

abbrev is_entering : EntryPc → Bool
is_entering entering = true
is_entering _ = false

abbrev pub count : Bool → ℕ
count true = 1
count false = 0

-- Started by `StartThread`, or destroyed before.
abbrev is_decided : Life → Bool
is_decided s = if s.starts then is_started s.state else is_destroyed s.state

-- The state, the number of calls and the history that go with a place in the wrapper.
abbrev pub agrees : EntryPc → Life → Bool
agrees unborn s =
    (s.calls == 0)
    && (not s.starts && (not s.reaped && (is_initialized s.state || is_destroyed s.state)))
agrees entering s =
    (s.calls == 0) && (not s.reaped && ((is_initialized s.state && not s.starts) || is_decided s))
agrees testing s = (s.calls == 0) && (not s.reaped && is_decided s)
agrees sleeping s = false
agrees admitted s = (s.calls == 0) && (not s.reaped && (s.starts && is_started s.state))
agrees calling s = (s.calls == 0) && (not s.reaped && (s.starts && is_started s.state))
agrees dismissed s = (s.calls == 0) && (not s.reaped && (not s.starts && is_destroyed s.state))
agrees finishing s = (s.calls == count s.starts) && (not s.reaped && is_decided s)
agrees recording s = (s.calls == count s.starts) && (not s.reaped && is_decided s)
agrees announcing s = (s.calls == count s.starts) && (not s.reaped && is_exited s.state)
agrees departing s = (s.calls == count s.starts) && (not s.reaped && is_exited s.state)
agrees ending s = (s.calls == count s.starts) && (not s.reaped && is_exited s.state)
agrees gone s =
    (s.calls == count s.starts)
    && (if s.reaped then is_uninitialized s.state else is_exited s.state)

-- The places in which the wrapper, or a controlling thread, holds the lock.
abbrev pub entry_locks : EntryPc → Bool
entry_locks testing = true
entry_locks admitted = true
entry_locks dismissed = true
entry_locks recording = true
entry_locks announcing = true
entry_locks departing = true
entry_locks _ = false

abbrev pub control_locks : ControlPc → Bool
control_locks elsewhere = false
control_locks start_entering = false
control_locks destroy_entering = false
control_locks destroy_waiting = false
control_locks reap_entering = false
control_locks wait_waiting = false
control_locks wait_entering = false
control_locks _ = true

-- What a controlling thread knows at its place.
abbrev pub suits : ControlPc → Life → Bool
suits start_writing s = is_entering s.entry && is_initialized s.state
suits destroy_writing s = is_unborn s.entry && is_initialized s.state
suits destroy_asking s = is_unborn s.entry && is_destroyed s.state
suits destroy_signaling s = not (is_unborn s.entry)
suits destroy_leaving s = not (is_unborn s.entry)
suits destroy_waiting s = not (is_unborn s.entry)
suits reap_entering s = is_gone s.entry
suits reap_writing s = is_gone s.entry
suits reap_leaving s = is_gone s.entry
suits wait_entering s = is_gone s.entry
suits wait_leaving s = is_gone s.entry
suits _ s = true

-- Where the controlling thread stands that holds the lock.
abbrev pub holder : Life → ControlPc
holder s = elim s.lock [ nobody ↦ elsewhere | itself ↦ elsewhere | controller i ↦ s.control i ]

pub record Inv (s : Life) : Type 0 where
  pub phase : agrees s.entry s ≡ true
  pub own_entry : entry_locks s.entry ≡ true → s.lock ≡ itself
  pub own_control : (i : ℕ) → control_locks (s.control i) ≡ true → s.lock ≡ controller i
  pub kept_entry : s.lock ≡ itself → entry_locks s.entry ≡ true
  pub kept_control : (i : ℕ) → s.lock ≡ controller i → control_locks (s.control i) ≡ true
  pub fit : (i : ℕ) → suits (s.control i) s ≡ true
  pub writer : is_entering s.entry ≡ true → is_initialized s.state ≡ true → holder s ≡ start_writing
  pub asker : is_unborn s.entry ≡ true → is_destroyed s.state ≡ true → holder s ≡ destroy_asking

pub Inv-created : Inv created
Inv-created = record {
  phase = refl;
  own_entry = λ e. cc;
  own_control = λ i e. cc;
  kept_entry = λ e. cc;
  kept_control = λ i e. cc;
  fit = λ i. refl;
  writer = λ e f. cc;
  asker = λ e f. cc;
}

module _ {s : Life} (inv : Inv s) where
  open inv use {phase, own_entry, own_control, kept_entry, kept_control, fit, writer, asker}

  pub entry-Inv : (p : EntryPc) → s.entry ≡ p → entry_ready p s.lock ≡ true → Inv (entry_step p s)
  unfolding entry_step
  entry-Inv unborn e r = cc
  entry-Inv p e r = record {
    phase = ground arith;
    own_entry = λ o. ground arith;
    own_control = λ j o. ground (arith, own_control j);
    kept_entry = λ o. ground arith;
    kept_control = λ j o. ground (arith, kept_control j);
    fit = λ j. ground (arith, fit j, own_control j);
    writer = λ o f. ground arith;
    asker = λ o f. ground arith;
  }

  pub begin-Inv :
      (i : ℕ) (p : ControlPc)
      → s.control i ≡ elsewhere
      → is_beginning p ≡ true
      → Inv (record s { control = update_control s.control i p })
  begin-Inv i p e b = record {
    phase = ground arith;
    own_entry = own_entry;
    own_control = λ j o. ground (arith, own_control j);
    kept_entry = kept_entry;
    kept_control = λ j o. ground (arith, kept_control j);
    fit = λ j. ground (arith, fit j);
    writer = λ o f. ground arith;
    asker = λ o f. ground arith;
  }

  pub control-Inv :
      (i : ℕ) (p : ControlPc)
      → s.control i ≡ p
      → control_ready p s ≡ true
      → Inv (control_step i p s)
  unfolding control_step
  control-Inv i elsewhere e r = cc
  control-Inv i p e r = record {
    phase = ground (arith, fit i, own_control i);
    own_entry = λ o. ground (arith, own_control i);
    own_control = λ j o. ground (arith, own_control i, own_control j);
    kept_entry = λ o. ground (arith, own_control i);
    kept_control = λ j o. ground (arith, own_control i, kept_control j);
    fit = λ j. ground (arith, fit i, fit j, own_control i, own_control j);
    writer = λ o f. ground (arith, fit i, own_control i);
    asker = λ o f. ground (arith, fit i, own_control i);
  }
