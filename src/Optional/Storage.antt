-- ===== src/Optional/Storage.antt =====
-- Optional of libhydrosphere/include/hs/util/util_optional.hpp in memory, with its value in the storage of
-- libhydrosphere/include/hs/util/util_object_storage.hpp: the flag is the first byte, three bytes are
-- reserved, and the value stands at the next address that fits its alignment.
use hydrosphere.Common.{
  ℕ, ◌+◌, ◌-◌, ◌*◌, ◌/◌, ◌≤◌, ◌<◌, ◌≡◌, ◌⊎◌, ap, ◌∙◌, Bool, false, not, ◌==◌, arith,
}
use native.Mathlib.Nat.{lt-div-mul-add}
use hydrosphere.Memory.{Memory, store}
use hydrosphere.Optional.{Optional, set_value}

-- A type that can be copied byte by byte: its size and alignment, and how a value is read and written.
pub record Pod (A : Type 0) : Type 0 where
  pub size : ℕ
  pub alignment : ℕ
  pub read : Memory → ℕ → A
  pub write : Memory → ℕ → A → Memory
  pub read-write : (m : Memory) (a : ℕ) (v : A) → read (write m a v) a ≡ v
  pub write_inside :
      (m : Memory) (a : ℕ) (v : A) (b : ℕ) → (b < a) ⊎ (a + size ≤ b) → write m a v b ≡ m b
  pub read_inside :
      (m m' : Memory) (a : ℕ) → ((b : ℕ) → a ≤ b → b < a + size → m b ≡ m' b) → read m a ≡ read m' a

module _ {A : Type 0} (T : Pod A) where
  -- ObjectStorage: the storage is the object, and what is read is what stands there.
  get_pointer : (storage : ℕ) → ℕ
  get_pointer storage = storage

  get : Memory → (storage : ℕ) → A
  get m storage = T.read m storage

  -- `*storage = v`
  assign : Memory → (storage : ℕ) → A → Memory
  assign m storage v = T.write m storage v

  -- The member `value`, behind the flag and the reserved bytes.
  value_member : (this : ℕ) → ℕ
  value_member this = this + (4 + T.alignment - 1) / T.alignment * T.alignment

  pub has_value : Memory → (this : ℕ) → Bool
  has_value m this = not (m this == 0)

  -- `SetValue`: the value is written first, then the flag.
  pub store_value : Memory → (this : ℕ) → A → Memory
  unfolding assign value_member
  store_value m this v = store (assign m (value_member this) v) this 1

  -- `GetValue`, and `GetValuePointer` with `*` and `->`
  pub load_value : Memory → (this : ℕ) → A
  unfolding get value_member
  load_value m this = get m (value_member this)

  unfoldable pub get_value_pointer : (this : ℕ) → ℕ
  unfolding get_pointer value_member
  get_value_pointer this = get_pointer (value_member this)

  -- How many bytes an Optional takes.
  abbrev pub extent : ℕ
  extent = (4 + T.alignment - 1) / T.alignment * T.alignment + T.size

  -- What a memory shows of the Optional at `this`.
  abbrev pub view : Memory → (this : ℕ) → Optional A
  view m this = record { has_value = has_value m this; value = load_value m this }

  optional_eq :
      (has has' : Bool) (v v' : A)
      → has ≡ has'
      → v ≡ v'
      → ◌≡◌ {A = Optional A}
          (record { has_value = has; value = v })
          (record { has_value = has'; value = v' })
  optional_eq has has' v v' p q = cc

  module _ (positive : 0 < T.alignment) where
    behind_flag : 4 ≤ (4 + T.alignment - 1) / T.alignment * T.alignment
    behind_flag = omega (arith, lt-div-mul-add {a = 4 + T.alignment - 1} positive)

    -- Outside of what the Optional at `this` takes, `SetValue` changes nothing.
    store_value-frame :
        (m : Memory) (this : ℕ) (v : A) (b : ℕ)
        → (b < this) ⊎ (this + extent ≤ b)
        → store_value m this v b ≡ m b
    unfolding store_value assign value_member
    store_value-frame m this v b out =
        let flag : (b == this) ≡ false = ground (arith, behind_flag) in
        rw flag (T.write_inside m (value_member this) v b (ground (arith, behind_flag)))

    -- `SetValue` in memory is `set_value` on what the memory shows, and every other Optional of the type that does not overlap shows what it did.
    pub store_value-view :
        (m : Memory) (this that : ℕ) (v : A)
        → (this + extent ≤ that) ⊎ (that + extent ≤ this)
        → (view (store_value m this v) this ≡ set_value v (view m this))
          × (view (store_value m this v) that ≡ view m that)
    unfolding store_value load_value has_value get assign value_member
    store_value-view m this that v apart =
        let p = value_member this in
        let m' = store_value m this v in
        let stands : T.read m' p ≡ v =
          T.read_inside m' (T.write m p v) p (λ b lo hi. ground (arith, behind_flag))
          ∙ T.read-write m p v in
        let other : T.read m' (value_member that) ≡ T.read m (value_member that) =
          T.read_inside m' m (value_member that)
            (λ b lo hi. store_value-frame m this v b (ground (arith, behind_flag))) in
        let flag : m' that ≡ m that =
          store_value-frame m this v that (ground (arith, behind_flag)) in
        (
          optional_eq _ _ _ _ (ground arith) stands,
          optional_eq _ _ _ _ (ap (λ (w : ℕ). not (w == 0)) flag) other,
        )
