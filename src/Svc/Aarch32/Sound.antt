-- ===== src/Svc/Aarch32/Sound.antt =====
-- What Trace knows of a stub of libhydrosphere/source/aarch32/svc.s is so when the stub runs.
use hydrosphere.Common.{
  ℕ, suc, ◌+◌, ◌-◌, ◌*◌, ◌≤◌, ◌<◌, ◌≡◌, ◌⊎◌, inl, inr, refl, false, List, [], ◌∷◌, ◌++◌, map, some,
  arith, ◌==◌, ltb, length, Bool-cases,
}
use hydrosphere.Svc.Machine.{Cpu, update}
use hydrosphere.Svc.Aarch32.{store_list, load_list}
use hydrosphere.Svc.Aarch32.Trace.{
  Origin, caller, kernel, anything, Write, Known, set_origin, word_at, take_off, drop_bytes,
}

store_list-below :
    (mem : ℕ → ℕ) (a b : ℕ) (l : List ℕ) (x : ℕ → ℕ) → b < a → store_list mem a l x b ≡ mem b
unfolding store_list
store_list-below mem a b [] x h = refl
store_list-below mem a b (r ∷ l) x h =
    ground (arith, store_list-below (update mem a (x r)) (a + 4) b l x)

module _ (m k : Cpu) where
  abbrev pub Means : Origin → ℕ → Type 0
  Means (caller r) v = v ≡ m.x r
  Means (kernel r) v = v ≡ k.x r
  Means anything v = Unit {0}

  abbrev pub Words : List Origin → ℕ → (ℕ → ℕ) → Type 0
  Words [] a mem = Unit {0}
  Words (v ∷ st) a mem = Means v (mem a) × Words st (a + 4) mem

  abbrev pub Registers : (ℕ → Origin) → (ℕ → ℕ) → Type 0
  Registers f x = (r : ℕ) → Means (f r) (x r)

  pub record Holds (a : Known) (c : Cpu) : Type 0 where
    pub level : c.sp + 4 * length a.stack ≡ m.sp
    pub registers : Registers a.registers c.x
    pub words : Words a.stack c.sp c.memory

  -- Memory with the words that go out.
  abbrev pub apply : List Write → (ℕ → ℕ) → ℕ → ℕ
  apply [] mem = mem
  apply (w ∷ ws) mem = apply ws (update mem (m.x w.parameter + w.offset) (k.x w.register))

  pub Registers-set :
      (f : ℕ → Origin) (x : ℕ → ℕ) (t : ℕ) (v : Origin) (w : ℕ)
      → Registers f x
      → Means v w
      → Registers (set_origin f t v) (update x t w)
  Registers-set f x t v w known means r = elim (Bool-cases (r == t)) [
    | inl e ↦ rw e means
    | inr e ↦ rw e (known r)
  ]

  pub Words-update :
      (st : List Origin) (a b v : ℕ) (mem : ℕ → ℕ)
      → (b < a) ⊎ (a + 4 * length st ≤ b)
      → Words st a mem
      → Words st a (update mem b v)
  Words-update [] a b v mem apart words = tt
  Words-update (o ∷ st) a b v mem apart (first, words) =
      let other : (a == b) ≡ false = ground arith in
      (rw other first, Words-update st (a + 4) b v mem (ground arith) words)

  pub word_at-Means :
      (st : List Origin) (a o : ℕ) (mem : ℕ → ℕ)
      → Words st a mem
      → Means (word_at st o) (mem (a + o))
  unfolding word_at
  word_at-Means [] a o mem words = tt
  word_at-Means (v ∷ st) a o mem (first, words) = elim (Bool-cases (o == 0)) [
    | inl e ↦ let here : a + o ≡ a = ground arith in rw (e, here) first
    | inr e ↦ elim (Bool-cases (ltb o 4)) [
      | inl inside ↦ rw (e, inside) tt
      | inr beyond ↦
          let there : a + o ≡ a + 4 + (o - 4) = ground arith in
          rw (e, beyond, there) (word_at-Means st (a + 4) (o - 4) mem words)
    ]
  ]

  pub store_list-Words :
      (l : List ℕ) (f : ℕ → Origin) (st : List Origin) (a : ℕ) (mem x : ℕ → ℕ)
      → Registers f x
      → Words st (a + 4 * length l) mem
      → Words (map f l ++ st) a (store_list mem a l x)
  unfolding store_list
  store_list-Words [] f st a mem x known words =
      let here : a + 0 ≡ a = omega arith in rw here at words
  store_list-Words (r ∷ l) f st a mem x known words =
      let same : store_list (update mem a (x r)) (a + 4) l x a ≡ x r =
        ground (arith, store_list-below (update mem a (x r)) (a + 4) a l x) in
      let far : a + 4 * suc (length l) ≡ a + 4 + 4 * length l = omega arith in
      (
        rw same (known r),
        store_list-Words l f st (a + 4) (update mem a (x r)) x known (
            Words-update st (a + 4 + 4 * length l) a (x r) mem (inl (omega arith))
              (rw far at words)),
      )

  pub take_off-Holds :
      (l : List ℕ) (f f' : ℕ → Origin) (st st' : List Origin) (a : ℕ) (mem x : ℕ → ℕ)
      → Registers f x
      → Words st a mem
      → take_off l f st ≡ some (f', st')
      → Registers f' (load_list mem a l x)
        × Words st' (a + 4 * length l) mem
        × (length st ≡ length l + length st')
  unfolding take_off load_list
  take_off-Holds [] f f' st st' a mem x known words taken =
      let same : f ≡ f' = cc in
      let left : st ≡ st' = cc in
      let here : a + 0 ≡ a = omega arith in
      (rw (← same) known, rw (← left, here) words, rw (← left) (omega arith))
  take_off-Holds (r ∷ l) f f' [] st' a mem x known words taken = absurd (cc taken)
  take_off-Holds (r ∷ l) f f' (v ∷ st) st' a mem x known (first, words) taken =
      let (known', words', count) =
        take_off-Holds l (set_origin f r v) f' st st' (a + 4) mem (update x r (mem a))
          (Registers-set f x r v (mem a) known first) words taken in
      let far : a + 4 * suc (length l) ≡ a + 4 + 4 * length l = omega arith in
      (known', rw far words', omega (arith, count))

  pub drop_bytes-Words :
      (n : ℕ) (st st' : List Origin) (a : ℕ) (mem : ℕ → ℕ)
      → Words st a mem
      → drop_bytes n st ≡ some st'
      → Words st' (a + n) mem × (4 * length st ≡ n + 4 * length st')
  unfolding drop_bytes
  drop_bytes-Words n [] st' a mem words dropped = elim (Bool-cases (n == 0)) [
    | inl e ↦ let left : [] ≡ st' = ground arith in (rw (← left) tt, rw (← left) (ground arith))
    | inr e ↦ absurd (ground arith)
  ]
  drop_bytes-Words n (v ∷ st) st' a mem words dropped = elim (Bool-cases (n == 0)) [
    | inl e ↦
        let left : v ∷ st ≡ st' = ground arith in
        let here : a + n ≡ a = ground arith in (rw (← left, here) words, rw (← left) (ground arith))
    | inr e ↦ elim (Bool-cases (ltb n 4)) [
      | inl odd ↦ absurd (ground arith)
      | inr whole ↦
          let rest : drop_bytes (n - 4) st ≡ some st' = ground arith in
          let (words', count) = drop_bytes-Words (n - 4) st st' (a + 4) mem (words.1) rest in
          let there : a + n ≡ a + 4 + (n - 4) = ground arith in
          (rw there words', ground (arith, count))
    ]
  ]
