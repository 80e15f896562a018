-- ===== src/UserEvent/Refinement.antt =====
-- The single accesses of many threads come to the steps of System, each of which is a whole hold of
-- the event's lock: what is shown there holds of them.
use mathlib.Core.Path.{fun_ext, subst}
use hydrosphere.Common.{
  ℕ, Bool, true, false, not, none, some, ◌≡◌, refl, Bool-cases, ap, ◌⊎◌, inl, inr, arith,
  if◌then◌else◌,
}
use hydrosphere.UserEvent.{UserEvent, wait_attempt, poll_locked, signal_locked, clear_locked}
use hydrosphere.UserEvent.Threads.{
  Place, wait_entering, wait_testing, wait_calling, sleeping, returning, wait_retesting,
  wait_taking, poll_entering, poll_reading, poll_writing, signal_entering, signal_testing,
  signal_setting, signal_waking, clear_entering, clear_writing, leaving, Threads, update_place,
  move, is_beginning, is_entering, entered, is_access, acted, access, Step, begin, enter, act,
  sleep, wake, wake_nobody, leave, start, Reach, here, next,
}
use hydrosphere.UserEvent.Threads
use hydrosphere.UserEvent.Auto.{auto_no_lost_wakeup}
use hydrosphere.UserEvent.System
use hydrosphere.UserEvent.System.{
  Pc, away, asleep, woken, System, update_pc, attempt, Quiet, wait, resume, poll, signal_again,
  signal_nobody, signal_one, quiet, clear, Run,
}

-- The places in which a thread has the lock.
abbrev pub locks : Place → Bool
locks wait_testing = true
locks wait_calling = true
locks wait_retesting = true
locks wait_taking = true
locks poll_reading = true
locks poll_writing = true
locks signal_testing = true
locks signal_setting = true
locks signal_waking = true
locks clear_writing = true
locks leaving = true
locks _ = false

-- What is known of the flag where the thread in the lock stands.
abbrev pub knows : Place → Bool → Bool
knows signal_setting flag = not flag
knows signal_waking flag = flag
knows _ flag = true

-- Where the thread in the lock stands.
abbrev pub holder : Threads → Place
holder s = elim s.lock [ none ↦ Threads.away | some i ↦ s.place i ]

pub record Inv (s : Threads) : Type 0 where
  pub owned : (i : ℕ) → locks (s.place i) ≡ true → s.lock ≡ some i
  pub held : (i : ℕ) → s.lock ≡ some i → locks (s.place i) ≡ true
  pub known : knows (holder s) s.event.is_signaled ≡ true

Inv-start : (e : UserEvent) → Inv (start e)
Inv-start e = record { owned = λ i l. cc; held = λ i l. cc; known = refl }

Inv-act :
    {s : Threads} (inv : Inv s) (i : ℕ) (p : Place)
    → s.place i ≡ p
    → is_access p ≡ true
    → Inv (acted i p s)
unfolding access
Inv-act inv i p e a = record {
  owned = λ j l. ground (arith, inv.owned j, inv.owned i);
  held = λ j l. ground (arith, inv.held j, inv.owned i);
  known = ground (arith, inv.owned i, inv.known);
}

Step-Inv : {s t : Threads} → Step s t → Inv s → Inv t
Step-Inv (begin i p e b) inv = record {
  owned = λ j l. ground (arith, inv.owned j);
  held = λ j l. ground (arith, inv.held j);
  known = ground (arith, inv.known, inv.held i);
}
Step-Inv (enter i f e) inv = record {
  owned = λ j l. ground (arith, inv.owned j);
  held = λ j l. ground (arith, inv.held j);
  known = ground arith;
}
Step-Inv (act i a) inv = Inv-act inv i _ refl a
Step-Inv (sleep i e) inv = record {
  owned = λ j l. ground (arith, inv.owned j, inv.owned i);
  held = λ j l. cc;
  known = refl;
}
Step-Inv (wake i j e f) inv = record {
  owned = λ k l. ground (arith, inv.owned k);
  held = λ k l. ground (arith, inv.held k, inv.owned i);
  known = ground (arith, inv.owned i);
}
Step-Inv (wake_nobody i e f) inv = record {
  owned = λ k l. ground (arith, inv.owned k);
  held = λ k l. ground (arith, inv.held k, inv.owned i);
  known = ground (arith, inv.owned i);
}
Step-Inv (leave i e) inv = record {
  owned = λ j l. ground (arith, inv.owned j, inv.owned i);
  held = λ j l. cc;
  known = refl;
}

-- The flag as a whole hold of the lock leaves it: what is still to be written counts as written, and
-- a signal that wakes nobody yet as not given.
abbrev pub shown : Place → UserEvent → Bool
shown wait_taking e = if e.is_auto_clear then false else e.is_signaled
shown poll_writing e = if e.is_auto_clear then false else e.is_signaled
shown signal_waking e = false
shown _ e = e.is_signaled

abbrev pub seen : Place → Pc
seen wait_calling = asleep
seen sleeping = asleep
seen returning = woken
seen wait_retesting = woken
seen _ = away

abbrev pub view : Threads → System
view s = record {
  event = record (s.event) { is_signaled = shown (holder s) s.event };
  pc = λ i. seen (s.place i);
}

-- A step that does not show, or one of System.
abbrev pub Comes : Threads → Threads → Type 0
Comes s t = (view s ≡ view t) ⊎ System.Step (view s) (view t)

System-ext : {u v : System} → u.event ≡ v.event → ((j : ℕ) → u.pc j ≡ v.pc j) → u ≡ v
System-ext {u} {v} e f = λ i. record { event = e i; pc = fun_ext f i }

hidden :
    (s t : Threads)
    → (view s).event ≡ (view t).event
    → ((j : ℕ) → seen (s.place j) ≡ seen (t.place j))
    → Comes s t
hidden s t e f = inl (System-ext e f)

shows :
    (s t : Threads) {u : System}
    → System.Step (view s) u
    → u.event ≡ (view t).event
    → ((j : ℕ) → u.pc j ≡ seen (t.place j))
    → Comes s t
shows s t st e f = inr (subst (System.Step (view s)) (System-ext e f) st)

module _ {s : Threads} (inv : Inv s) (i : ℕ) where
  open inv use {owned, held, known}

  Comes-act : (p : Place) → s.place i ≡ p → is_access p ≡ true → Comes s (acted i p s)
  unfolding access wait_attempt poll_locked signal_locked clear_locked
  Comes-act wait_testing e a =
      shows s (acted i wait_testing s) (quiet (wait i (ap seen e))) (ground (arith, owned i))
        (λ j. ground (arith, owned i))
  Comes-act wait_retesting e a =
      shows s (acted i wait_retesting s) (quiet (resume i (ap seen e))) (ground (arith, owned i))
        (λ j. ground (arith, owned i))
  Comes-act wait_taking e a =
      hidden s (acted i wait_taking s) (ground (arith, owned i)) (λ j. ground arith)
  Comes-act poll_reading e a =
      shows s (acted i poll_reading s) (quiet poll) (ground (arith, owned i)) (λ j. ground arith)
  Comes-act poll_writing e a =
      hidden s (acted i poll_writing s) (ground (arith, owned i)) (λ j. ground arith)
  Comes-act signal_testing e a = elim (Bool-cases s.event.is_signaled) [
    | inl set ↦
        shows s (acted i signal_testing s) (quiet (signal_again (ground (arith, owned i))))
          (ground (arith, owned i)) (λ j. ground (arith, owned i))
    | inr unset ↦
        hidden s (acted i signal_testing s) (ground (arith, owned i)) (λ j. ground (arith, owned i))
  ]
  Comes-act signal_setting e a =
      hidden s (acted i signal_setting s) (ground (arith, owned i, known)) (λ j. ground arith)
  Comes-act clear_writing e a =
      shows s (acted i clear_writing s) clear (ground (arith, owned i)) (λ j. ground arith)
  Comes-act p e a = cc

Step-Comes : {s t : Threads} → Step s t → Inv s → Comes s t
unfolding signal_locked
Step-Comes {s} (begin i p e b) inv =
    hidden s (move i p s) (ground (arith, inv.held i)) (λ j. ground arith)
Step-Comes {s} {t} (enter i f e) inv = hidden s t (ground arith) (λ j. ground arith)
Step-Comes (act i a) inv = Comes-act inv i _ refl a
Step-Comes {s} {t} (sleep i e) inv = hidden s t (ground (arith, inv.owned i)) (λ j. ground arith)
Step-Comes {s} {t} (wake i j e f) inv =
    shows s t (quiet (signal_one j (ground (arith, inv.owned i)) (ap seen f)))
      (ground (arith, inv.owned i, inv.known)) (λ k. ground arith)
Step-Comes {s} {t} (wake_nobody i e f) inv =
    shows s t
      (quiet (
        signal_nobody (ground (arith, inv.owned i))
          (λ k a. ground (arith, f k, inv.owned k, inv.owned i))))
      (ground (arith, inv.owned i, inv.known)) (λ k. ground arith)
Step-Comes {s} {t} (leave i e) inv = hidden s t (ground (arith, inv.owned i)) (λ j. ground arith)

Reach-Inv : {e : UserEvent} {s : Threads} → Reach e s → Inv s
Reach-Inv {e} here = Inv-start e
Reach-Inv (next r st) = Step-Inv st (Reach-Inv r)

-- Every state that the threads reach access by access shows as one that they reach by whole holds of
-- the lock, from the same event with no thread in a wait.
pub Reach-Run : {e : UserEvent} {s : Threads} → Reach e s → Run (view (start e)) (view s)
Reach-Run here = System.here
Reach-Run {e} (next r st) = elim (Step-Comes st (Reach-Inv r)) [
  | inl same ↦ subst (Run (view (start e))) same (Reach-Run r)
  | inr step ↦ System.next (Reach-Run r) step
]

-- Without the lock, a thread that is woken is at `returning`, and finds what the event says.
woken_outside :
    (p : Place) (e : UserEvent)
    → seen p ≡ woken
    → locks p ≡ false
    → e.is_signaled ≡ true
    → (p ≡ returning) × ((access (entered p) e).0 ≡ wait_taking)
unfolding access
woken_outside returning e w l f = (refl, ground (arith, f))
woken_outside p e w l f = cc

-- When no thread has the lock of an event that is cleared automatically, the event is signaled, and
-- a thread sleeps on it, then some thread has been woken and waits for the lock; as the event is, the
-- test that it makes once it has the lock lets it out of the loop.
pub auto_wakes :
    {e : UserEvent} {s : Threads} (i : ℕ)
    → e.is_auto_clear ≡ true
    → Reach e s
    → s.lock ≡ none
    → s.place i ≡ sleeping
    → s.event.is_signaled ≡ true
    → (j : ℕ) × (s.place j ≡ returning) × ((access (entered (s.place j)) s.event).0 ≡ wait_taking)
auto_wakes {e} {s} i auto r free sl signaled =
    let (j, w, _, _) =
      auto_no_lost_wakeup i auto (λ k. refl) (Reach-Run r) (ap seen sl)
        (ground (arith, free, signaled)) in
    let (back, out) =
      woken_outside (s.place j) s.event w (ground (arith, free, (Reach-Inv r).owned j)) signaled in
    (j, back, out)
