-- ===== src/Memory/Laws.antt =====
-- What `Strlen`, `memcpy` and `memset` compute.
use hydrosphere.Common.{
  ℕ, zero, suc, ◌+◌, ◌-◌, ◌%◌, ◌<◌, ◌≤◌, ◌≡◌, ◌≢◌, ◌⊎◌, ◌∙◌, ap, some, leb, ltb, ◌&&◌,
  if◌then◌else◌, arith,
}
use hydrosphere.Memory.{Memory, store, strlen_from, strlen, memcpy, memset}

-- A string of `k` characters stands at `s`.
pub record IsString (m : Memory) (s k : ℕ) : Type 0 where
  pub chars : (j : ℕ) → j < k → m (s + j) ≢ 0
  pub end : m (s + k) ≡ 0

abbrev InRange : (start len a : ℕ) → Type 0
InRange start len a = (start ≤ a) × (a < start + len)

strlen_from-IsString :
    (n : ℕ) (m : Memory) (s k res : ℕ)
    → IsString m s k
    → k < n
    → strlen_from n m s res ≡ some (res + k)
unfolding strlen_from
strlen_from-IsString zero m s k res str enough = absurd (omega arith)
strlen_from-IsString (suc n) m s zero res str enough =
    let e : m s ≡ 0 = ap m (omega arith) ∙ str.end in ground arith
strlen_from-IsString (suc n) m s (suc k) res str enough =
    let first : m s ≢ 0 = λ z. str.chars 0 (omega arith) (ap m (omega arith) ∙ z) in
    let later : IsString m (s + 1) k = record {
      chars = λ j lt z. str.chars (suc j) (omega arith) (ap m (omega arith) ∙ z);
      end = ap m (omega arith) ∙ str.end;
    } in
    ground (arith, strlen_from-IsString n m (s + 1) k (res + 1) later)

-- `Strlen` of a string is its number of characters, in so many rounds and one.
pub strlen-IsString :
    (n : ℕ) (m : Memory) (s k : ℕ) → IsString m s k → k < n → strlen n m s ≡ some k
unfolding strlen
strlen-IsString n m s k str enough =
    strlen_from-IsString n m s k 0 str enough ∙ ap some (omega arith)

memcpy_index : (dst src a : ℕ) → src + (dst + (a - dst) - dst) ≡ src + (a - dst)
memcpy_index dst src a = omega arith

-- `memcpy` moves `len` bytes and changes no other byte, if the ranges do not overlap or the target
-- lies before the source.
pub memcpy_lem :
    (dst src len : ℕ) (m : Memory) (a : ℕ)
    → (dst ≤ src) ⊎ (src + len ≤ dst)
    → memcpy dst src len m a ≡ (if leb dst a && ltb a (dst + len) then m (src + (a - dst)) else m a)
unfolding memcpy
memcpy_lem dst src zero m a apart = ground arith
memcpy_lem dst src (suc len) m a apart =
    memcpy_lem (dst + 1) (src + 1) len (store m dst (m src)) a (ground arith)
    ∙ ground (arith, ap m (memcpy_index dst src a))

-- `memset` writes the low byte of `c` to `n` bytes and changes no other byte.
pub memset_lem :
    (s c n : ℕ) (m : Memory) (a : ℕ)
    → memset s c n m a ≡ (if leb s a && ltb a (s + n) then c % 256 else m a)
unfolding memset
memset_lem s c zero m a = ground arith
memset_lem s c (suc n) m a = memset_lem (s + 1) c n (store m s (c % 256)) a ∙ ground arith
