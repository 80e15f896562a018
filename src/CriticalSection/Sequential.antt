-- ===== src/CriticalSection/Sequential.antt =====
-- `Enter`, `TryEnter` and `Leave` as one thread sees them.
use hydrosphere.Common.{
  ℕ, zero, suc, ◌≡◌, ◌⊎◌, ◌≤◌, ◌<◌, Bool, true, false, Option, none, some, arith, if◌then◌else◌,
  ◌==◌, refl, Bool-cases, inl, inr,
}
use hydrosphere.CriticalSection.{
  Pc, entering, marking, arbitrating, trying, inside, leaving, unlocking, run, without_listeners,
}
use hydrosphere.CriticalSection.System.{IsHandle}

abbrev pub is_inside : Pc → Bool
is_inside inside = true
is_inside _ = false

-- `ArbitrateLock` returns to the head of the loop, whatever its result.
abbrev pub returned : Pc → Pc
returned (arbitrating o) = entering
returned p = p

-- `others n v` is the word after what the other threads and the kernel do to it before the access
-- that is made with `n` rounds left. `none` when the rounds are spent and the thread still waits.
enter_from : ℕ → (others : ℕ → ℕ → ℕ) → (self : ℕ) → Pc → ℕ → Option ℕ
enter_from zero others self p v = none
enter_from (suc n) others self p v =
    let (p', v') = run self p (others n v) in
    let rest = enter_from n others self (returned p') v' in if is_inside p' then some v' else rest

unfoldable pub enter : ℕ → (others : ℕ → ℕ → ℕ) → (self image : ℕ) → Option ℕ
unfolding enter_from run
enter fuel others self v = enter_from fuel others self entering v

unfoldable pub try_enter : (self image : ℕ) → ℕ × Bool
unfolding run
try_enter self v = let (p, v') = run self trying v in (v', is_inside p)

-- `unlocked v` is the word that `ArbitrateUnlock` leaves.
unfoldable pub leave : (unlocked : ℕ → ℕ) → (self image : ℕ) → ℕ
unfolding run
leave unlocked self v =
    let (p, v') = run self leaving v in elim p [ unlocking ↦ unlocked v' | _ ↦ v' ]

-- Whatever the others do, a word with which `Enter` returns names the thread as the owner.
enter_from-owner :
    (n : ℕ) (others : ℕ → ℕ → ℕ) (self : ℕ) (p : Pc) (v w : ℕ)
    → IsHandle self
    → is_inside p ≡ false
    → enter_from n others self p v ≡ some w
    → without_listeners w ≡ self
unfolding enter_from run
enter_from-owner zero others self p v w h ni e = cc
enter_from-owner (suc n) others self inside v w h ni e = cc
enter_from-owner (suc n) others self p v w h ni e = ground (
  arith,
  enter_from-owner n others self (returned (run self p (others n v)).0) (run self p (others n v)).1
      w h,
)

pub enter-owner :
    (n : ℕ) (others : ℕ → ℕ → ℕ) (self v w : ℕ)
    → IsHandle self
    → enter n others self v ≡ some w
    → without_listeners w ≡ self
unfolding enter
enter-owner n others self v w h e = enter_from-owner n others self entering v w h refl e

-- The word is free, or names the thread already.
abbrev pub IsReady : (self image : ℕ) → Type 0
IsReady self v = (v ≡ 0) ⊎ (without_listeners v ≡ self)

abbrev is_looping : Pc → Bool
is_looping entering = true
is_looping (marking e) = true
is_looping _ = false

run-is_looping :
    (self : ℕ) (p : Pc) (v : ℕ)
    → is_looping p ≡ true
    → is_inside (run self p v).0 ≡ false
    → is_looping (returned (run self p v).0) ≡ true
unfolding run
run-is_looping self entering v l ni = ground arith
run-is_looping self p v l ni = ground arith

enter_from_ready :
    (n : ℕ) (others : ℕ → ℕ → ℕ) (self v : ℕ)
    → IsReady self (others n v)
    → (w : ℕ) × (enter_from (suc n) others self entering v ≡ some w)
unfolding enter_from run
enter_from_ready n others self v (inl e) = (self, ground arith)
enter_from_ready n others self v (inr e) = elim (Bool-cases (others n v == 0)) [
  | inl z ↦ (self, ground arith)
  | inr z ↦ (others n v, ground arith)
]

enter_from_twice :
    (others : ℕ → ℕ → ℕ) (self : ℕ) (p : Pc) (v : ℕ)
    → ((t u : ℕ) → t < 2 → IsReady self (others t u))
    → is_looping p ≡ true
    → (w : ℕ) × (enter_from 2 others self p v ≡ some w)
unfolding enter_from run
enter_from_twice others self entering v ready l =
    enter_from_ready 1 others self v (ready 1 v (omega arith))
enter_from_twice others self (marking e) v ready l = elim (Bool-cases (others 1 v == e)) [
  | inl z ↦ rw z (enter_from_ready 0 others self _ (ready 0 _ (omega arith)))
  | inr z ↦ rw z (enter_from_ready 0 others self _ (ready 0 _ (omega arith)))
]
enter_from_twice others self p v ready l = cc

enter_from_ends :
    (m : ℕ) (others : ℕ → ℕ → ℕ) (self : ℕ) (p : Pc) (v : ℕ)
    → ((t u : ℕ) → t < 2 → IsReady self (others t u))
    → is_looping p ≡ true
    → (w : ℕ) × (enter_from (suc (suc m)) others self p v ≡ some w)
unfolding enter_from
enter_from_ends zero others self p v ready l = enter_from_twice others self p v ready l
enter_from_ends (suc m) others self p v ready l =
    let u = others (suc (suc m)) v in
    elim (Bool-cases (is_inside (run self p u).0)) [
      | inl e ↦ ((run self p u).1, rw e)
      | inr e ↦ rw e (
          enter_from_ends m others self (returned (run self p u).0) (run self p u).1 ready
            (run-is_looping self p u l e))
    ]

-- `Enter` returns if in its last two rounds the others leave the word free or handed over to the
-- thread, whatever they do to it before; and the word then names the thread as the owner.
pub enter-returns :
    (n : ℕ) (others : ℕ → ℕ → ℕ) (self v : ℕ)
    → IsHandle self
    → 2 ≤ n
    → ((t u : ℕ) → t < 2 → IsReady self (others t u))
    → (w : ℕ) × (enter n others self v ≡ some w) × (without_listeners w ≡ self)
unfolding enter
enter-returns zero others self v h big ready = absurd (omega arith)
enter-returns (suc zero) others self v h big ready = absurd (omega arith)
enter-returns (suc (suc m)) others self v h big ready =
    let (w, e) = enter_from_ends m others self entering v ready refl in
    (w, e, enter_from-owner (suc (suc m)) others self entering v w h refl e)

-- Left alone, `Enter` of a free word takes it, and the `Leave` that follows frees it. In between
-- `TryEnter` succeeds for the owner, fails for every other thread, and changes nothing.
pub enter-leave :
    (n : ℕ) (unlocked : ℕ → ℕ) (self : ℕ)
    → IsHandle self
    → (enter (suc n) (λ t v. v) self 0 ≡ some self)
      × (leave unlocked self self ≡ 0)
      × ((i : ℕ) → try_enter i self ≡ (self, i == self))
unfolding enter try_enter leave enter_from run
enter-leave n unlocked self h = (ground arith, ground arith, λ i. ground arith)

-- The owner, left alone, passes through `Enter` at once, with no change of the word.
pub enter_again :
    (n : ℕ) (self v : ℕ)
    → IsHandle self
    → without_listeners v ≡ self
    → enter (suc n) (λ t v. v) self v ≡ some v
unfolding enter enter_from run
enter_again n self v h o = ground arith
