-- ===== src/CriticalSection/Guarded.antt =====
-- A call that holds a critical section from `Enter` to `Leave`, as the calls of events, barriers,
-- threads and lists do. The object is given as it is when `Enter` returns, but for the word of the
-- lock: what the other threads do to that word meanwhile is part of the caller.
use hydrosphere.Common.{ℕ, suc, ◌≡◌, refl, none, some, arith, Option-cases, inl, inr}
use hydrosphere.Svc.{Ending, returns, aborts, unfinished}
use hydrosphere.CriticalSection.{without_listeners}
use hydrosphere.CriticalSection.System.{IsHandle}
use hydrosphere.CriticalSection.Sequential.{enter, leave, enter-leave, enter-owner}

-- What the calling thread brings to a lock: its handle, the rounds that its loops may take, what the
-- other threads and the kernel do to the word before each of its accesses, and the word that
-- `ArbitrateUnlock` leaves.
pub record Caller : Type 0 where
  pub self : ℕ
  pub rounds : ℕ
  pub others : ℕ → ℕ → ℕ
  pub unlocked : ℕ → ℕ

-- A caller with no other thread at the lock.
abbrev pub lone_caller : (self fuel : ℕ) → (unlocked : ℕ → ℕ) → Caller
lone_caller self fuel unlocked = record {
  self = self;
  rounds = suc fuel;
  others = λ n v. v;
  unlocked = unlocked;
}

-- An object with a lock in it.
pub record Lockable {ℓ} (S : Type ℓ) : Type ℓ where
  pub word : S → ℕ
  pub with_word : ℕ → S → S
  pub word-with_word : (v : ℕ) (s : S) → word (with_word v s) ≡ v

module _ {A S : Type 0} (k : Lockable S) where
  -- `Leave` after a body that returned.
  abbrev pub released : Caller → Ending S A → Ending S A
  released c (returns a s) = returns a (k.with_word (leave c.unlocked c.self (k.word s)) s)
  released c aborts = aborts
  released c unfinished = unfinished

  -- `Enter`, the body, `Leave`; unfinished while `Enter` waits.
  unfoldable pub guarded : Caller → (body : S → Ending S A) → S → Ending S A
  guarded c body s = elim (enter c.rounds c.others c.self (k.word s)) [
    | none ↦ unfinished
    | some v ↦ released c (body (k.with_word v s))
  ]

  released-inverse :
      (c : Caller) (r : Ending S A) {a : A} {t : S}
      → released c r ≡ returns a t
      → (u : S) × (r ≡ returns a u) × (t ≡ k.with_word (leave c.unlocked c.self (k.word u)) u)
  released-inverse c (returns b u) e = (u, ground arith, ground arith)
  released-inverse c aborts e = cc
  released-inverse c unfinished e = cc

  -- Whatever the other threads do, a guarded call that returns has run its body while the lock's
  -- word named the caller as the owner; and it returns what the body did, with the lock left.
  pub guarded-owner :
      (c : Caller) (body : S → Ending S A) (s t : S) (a : A)
      → IsHandle c.self
      → guarded c body s ≡ returns a t
      → (v : ℕ) × (u : S) × (without_listeners v ≡ c.self)
        × (body (k.with_word v s) ≡ returns a u)
        × (t ≡ k.with_word (leave c.unlocked c.self (k.word u)) u)
  unfolding guarded
  guarded-owner c body s t a h e = elim (Option-cases (enter c.rounds c.others c.self (k.word s))) [
    | inl stuck ↦ absurd (let f : unfinished ≡ returns a t = rw (stuck, guarded) at e in cc)
    | inr (v, got) ↦
        let (u, p, q) = released-inverse c (body (k.with_word v s)) (rw (got, guarded) at e) in
        (v, u, enter-owner c.rounds c.others c.self (k.word s) v h got, p, q)
  ]

  -- With no other thread at a free lock, a guarded call runs its body at once, on the object with
  -- the lock taken, and frees the lock if the body leaves it alone.
  pub guarded_alone :
      (self fuel : ℕ) (unlocked : ℕ → ℕ) (body : S → Ending S A) (s u : S) (a : A)
      → IsHandle self
      → k.word s ≡ 0
      → body (k.with_word self s) ≡ returns a u
      → k.word u ≡ self
      → guarded (lone_caller self fuel unlocked) body s ≡ returns a (k.with_word 0 u)
  unfolding guarded
  guarded_alone self fuel unlocked body s u a h idle ran kept =
      let (e, f, others) = enter-leave fuel unlocked self h in
      rw (idle, e, guarded) (rw ran (rw kept (rw f refl)))
